-- ===== src/Cmsg/Reads.antt =====
-- src/com_msg.c where the octets of a message arrive in two reads.
use myclib.Prelude.{
  ℕ, zero, suc, ◌+◌, ◌≤◌, ◌<◌, ◌≡◌, refl, sym, ap, ◌∙◌, Bool, true, false, some, List, [], ◌∷◌,
  ◌++◌, map, All, ltb, ◌==◌, length, take, drop, arith, length-append, length-drop, append_assoc,
  append-nil, Bool-cases, inl, inr,
}
use myclib.Buf.{
  Buf, buf_cache_push, buf_data_push, raw_data, buf_room_len, buf_raw_data_len, buf_move,
}
use myclib.Cmsg.{
  Ctx, word_octets, word, insufficient, cmsg_data_get_from_buf, cmsg_deal, deal_loop, returned,
  cmsg_recv_and_deal,
}
use myclib.Cmsg.Frames.{
  Sent, Sendable, data_of, frame_of, frames, Dealt, deal_loop-frames, word-word_octets,
  raw_data-buf_data_push,
}

word_prefix : (xs ys : List ℕ) → 4 ≤ length xs → word xs ≡ word (xs ++ ys)
word_prefix [] ys h = absurd (omega arith)
word_prefix (a ∷ []) ys h = absurd (omega arith)
word_prefix (a ∷ b ∷ []) ys h = absurd (omega arith)
word_prefix (a ∷ b ∷ c ∷ []) ys h = absurd (omega arith)
word_prefix (a ∷ b ∷ c ∷ d ∷ xs) ys h = refl

drop_prefix : (n : ℕ) (xs ys : List ℕ) → n ≤ length xs → drop n xs ++ ys ≡ drop n (xs ++ ys)
drop_prefix zero xs ys h = refl
drop_prefix (suc n) [] ys h = absurd (omega arith)
drop_prefix (suc n) (x ∷ xs) ys h = drop_prefix n xs ys (omega arith)

-- octets of the cache that are the beginning of a frame, without its end
abbrev pub Begins : Sent → List ℕ → List ℕ → Type 0
Begins m part end = (part ++ end ≡ frame_of m) × (0 < length end)

module _ (memory : ℕ → Bool) where
  -- The parser waits for the rest of a frame, whatever part of it is there.
  pub get_part :
      (m : Sent) (part end : List ℕ)
      → Sendable m
      → Begins m part end
      → (b : Buf) → raw_data b ≡ part
      → cmsg_data_get_from_buf memory b ≡ some insufficient
  unfolding cmsg_data_get_from_buf
  get_part m part end s (e, h) b r =
      let n = length m.payload in
      let size : buf_raw_data_len b ≡ length part = sym (length-drop b.pos b.bytes) ∙ ap length r in
      let lengths : length (part ++ end) ≡ length (frame_of m) = ap length e in
      let sum : length part + length end ≡ 8 + n = omega (arith, lengths, length-append part end) in
      elim (Bool-cases (ltb (buf_raw_data_len b) 8)) [
        | inl short ↦ rw short refl
        | inr long ↦
            let eight : 8 ≤ length part = ground (arith, size) in
            let id : word (raw_data b) ≡ some m.id =
              ap word r
              ∙ word_prefix part end (omega (arith, eight))
              ∙ ap word e
              ∙ word-word_octets m.id (word_octets n ++ m.payload) s.0 in
            let at4 : raw_data (buf_data_push b 4) ≡ drop 4 part =
              raw_data-buf_data_push b 4 ∙ ap (drop 4) r in
            let len : word (raw_data (buf_data_push b 4)) ≡ some n =
              ap word at4
              ∙ word_prefix (drop 4 part) end (omega (arith, length-drop 4 part, eight))
              ∙ ap word (drop_prefix 4 part end (omega (arith, eight)) ∙ ap (drop 4) e)
              ∙ word-word_octets n m.payload s.1 in
            let some_payload : n == 0 ≡ false = ground (arith, sum, eight) in
            let missing : ltb (buf_raw_data_len (buf_data_push (buf_data_push b 4) 4)) n ≡ true =
              ground (arith, size, sum, eight) in
            simp (long, id, len, some_payload, missing) refl
      ]

  get_nothing : (b : Buf) → raw_data b ≡ [] → cmsg_data_get_from_buf memory b ≡ some insufficient
  unfolding cmsg_data_get_from_buf
  get_nothing b r =
      let size : buf_raw_data_len b ≡ 0 = sym (length-drop b.pos b.bytes) ∙ ap length r in
      let short : ltb (buf_raw_data_len b) 8 ≡ true = ground (arith, size) in rw short refl

take-all : {A : Type 0} (n : ℕ) (xs : List A) → length xs ≤ n → take n xs ≡ xs
take-all zero [] h = refl
take-all zero (x ∷ xs) h = absurd (omega arith)
take-all (suc n) [] h = refl
take-all (suc n) (x ∷ xs) h = ap (λ ys. x ∷ ys) (take-all n xs (omega arith))

-- A frame has octets of its own.
length-frames : (ms : List Sent) → length ms ≤ length (frames ms)
length-frames [] = omega arith
length-frames (m ∷ ms) = omega (arith, length-append (frame_of m) (frames ms), length-frames ms)

module _ (memory : ℕ → Bool) (always : (n : ℕ) → memory n ≡ true) where
  -- One round of the outer loop, up to the move of the cache.
  recv_round :
      (ctx : Ctx) (cache : Buf) (octets : List ℕ) (ms : List Sent) (rest : List ℕ)
      → cache.pos ≡ 0
      → length cache.bytes + length octets ≤ cache.end
      → cache.bytes ++ octets ≡ frames ms ++ rest
      → All (Dealt memory always ctx) ms
      → ((b : Buf) → raw_data b ≡ rest → cmsg_data_get_from_buf memory b ≡ some insufficient)
      → let buf = buf_cache_push cache (take (buf_room_len cache) octets) in
        (buf' : Buf) × (deal_loop memory (suc (length buf.bytes)) ctx buf
          ≡ some (true, map data_of ms, buf'))
        × (raw_data buf' ≡ rest)
        × (buf'.end ≡ cache.end)
  recv_round ctx cache octets ms rest z fits e all part =
      let buf = buf_cache_push cache (take (buf_room_len cache) octets) in
      let whole : take (buf_room_len cache) octets ≡ octets =
        take-all (buf_room_len cache) octets (omega arith) in
      let start : raw_data buf ≡ frames ms ++ rest = simp (z, whole) e in
      let lengths : length (cache.bytes ++ octets) ≡ length (frames ms ++ rest) = ap length e in
      let sum : length buf.bytes ≡ length (cache.bytes ++ octets) =
        ap (λ o. length (cache.bytes ++ o)) whole in
      deal_loop-frames memory always ctx (suc (length buf.bytes)) buf ms rest start all part
        (ground (arith, sum, lengths, length-frames ms, length-append (frames ms) rest))

  -- The octets of messages arrive in two reads that split the message `m` somewhere, and the cache has
  -- room for what it has to hold. Then `cmsg_recv_and_deal` returns 0 after these two reads, it deals
  -- with every message once in the order in which they were sent, and its cache is empty again.
  pub cmsg_recv_and_deal-split :
      (ctx : Ctx) (before after : List Sent) (m : Sent) (part end : List ℕ)
      → ctx.recv_cache.pos ≡ 0
      → ctx.recv_cache.bytes ≡ []
      → Begins m part end
      → 0 < length part
      → All (Dealt memory always ctx) before
      → All (Dealt memory always ctx) (m ∷ after)
      → length (frames before ++ part) ≤ ctx.recv_cache.end
      → length part + length (end ++ frames after) ≤ ctx.recv_cache.end
      → (ctx' : Ctx) × (cmsg_recv_and_deal memory ctx
            (some (frames before ++ part) ∷ some (end ++ frames after) ∷ [])
          ≡ some (map data_of before ++ map data_of (m ∷ after), returned true ctx'))
        × (ctx'.recv_cache.bytes ≡ [])
  unfolding cmsg_recv_and_deal cmsg_deal
  cmsg_recv_and_deal-split ctx before after m part end pos0 empty b h all₁ all₂ fit₁ fit₂ =
      let cache = ctx.recv_cache in
      let first = frames before ++ part in
      let second = end ++ frames after in
      let none_before : length cache.bytes ≡ 0 = ap length empty in
      let (b₁, l₁, r₁, e₁) =
        recv_round ctx cache first before part pos0 (omega (arith, none_before, fit₁))
          (ap (λ bs. bs ++ first) empty) all₁ (get_part memory m part end all₂.0.0 b) in
      let ctx₁ : Ctx = record ctx { recv_cache = buf_move b₁ } in
      let joined : raw_data b₁ ++ second ≡ frames (m ∷ after) ++ [] =
        ap (λ xs. xs ++ second) r₁
        ∙ sym (append_assoc part end (frames after))
        ∙ ap (λ xs. xs ++ frames after) b.0
        ∙ sym (append-nil (frames (m ∷ after))) in
      let size : length (raw_data b₁) ≡ length part = ap length r₁ in
      let (b₂, l₂, r₂, e₂) =
        recv_round ctx₁ (buf_move b₁) second (m ∷ after) [] refl (omega (arith, size, e₁, fit₂))
          joined all₂ (get_nothing memory) in
      let more : ltb 0 (buf_raw_data_len (buf_move b₁)) ≡ true = ground (arith, size) in
      let done : ltb 0 (buf_raw_data_len (buf_move b₂)) ≡ false = ground (arith, (ap length r₂)) in
      (record ctx { recv_cache = buf_move b₂ }, simp (l₁, more, l₂, done) refl, r₂)
