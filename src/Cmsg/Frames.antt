-- ===== src/Cmsg/Frames.antt =====
-- What src/com_msg.c sends is what it deals with.
use myclib.Prelude.{
  ℕ, zero, suc, ◌+◌, ◌^◌, ◌<◌, ◌≡◌, refl, sym, ap, ◌∙◌, Bool, true, false, none, some, List, [],
  ◌∷◌, ◌++◌, map, All, ltb, ◌==◌, if◌then◌else◌, length, take, drop, arith, length-append,
  length-drop, append_assoc, Bool-cases, inl, inr,
}
use myclib.Buf.{Buf, buf_data_push, raw_data, buf_raw_data_len}
use myclib.Cmsg.{
  Data, Ctx, word_octets, word, frame, insufficient, got, cmsg_data_get_from_buf, cmsg_deal,
  deal_loop,
}

module _ {ℓ} {A : Type ℓ} where
  drop-nil : (n : ℕ) → drop {A = A} n [] ≡ []
  drop-nil zero = refl
  drop-nil (suc n) = refl

  pub drop-drop : (n m : ℕ) (xs : List A) → drop m (drop n xs) ≡ drop (n + m) xs
  drop-drop zero m xs = let e : m ≡ 0 + m = omega arith in ap (λ k. drop k xs) e
  drop-drop (suc n) zero [] = sym (drop-nil (suc n + 0))
  drop-drop (suc n) (suc m) [] = sym (drop-nil (suc n + suc m))
  drop-drop (suc n) m (x ∷ xs) =
      let e : suc (n + m) ≡ suc n + m = omega arith in
      drop-drop n m xs ∙ ap (λ k. drop k (x ∷ xs)) e

  pub drop-append : (xs ys : List A) → drop (length xs) (xs ++ ys) ≡ ys
  drop-append [] ys = refl
  drop-append (x ∷ xs) ys = drop-append xs ys

  pub take-append : (xs ys : List A) → take (length xs) (xs ++ ys) ≡ xs
  take-append [] ys = refl
  take-append (x ∷ xs) ys = ap (λ zs. x ∷ zs) (take-append xs ys)

-- An `unsigned int` survives its way through four octets.
pub word-word_octets : (n : ℕ) (rest : List ℕ) → n < 2 ^ 32 → word (word_octets n ++ rest) ≡ some n
word-word_octets n rest h = ap some (omega arith)

-- a message that is sent
pub record Sent : Type 0 where
  pub id : ℕ
  pub payload : List ℕ

-- id and length fit an `unsigned int`
abbrev pub Sendable : Sent → Type 0
Sendable m = (m.id < 2 ^ 32) × (length m.payload < 2 ^ 32)

-- what the receiver makes of it
abbrev pub data_of : Sent → Data
data_of m = record {
  id = m.id;
  len = length m.payload;
  payload = if length m.payload == 0 then none else some m.payload;
}

abbrev pub frame_of : Sent → List ℕ
frame_of m = frame m.id m.payload

abbrev pub frames : List Sent → List ℕ
frames [] = []
frames (m ∷ ms) = frame_of m ++ frames ms

pub raw_data-buf_data_push :
    (buf : Buf) (k : ℕ) → raw_data (buf_data_push buf k) ≡ drop k (raw_data buf)
raw_data-buf_data_push buf k = sym (drop-drop buf.pos k buf.bytes)

module _ (memory : ℕ → Bool) (always : (n : ℕ) → memory n ≡ true) where
  -- Where the unparsed octets start with a frame, the parser returns its message and stands behind it.
  pub get_frame :
      (buf : Buf) (m : Sent) (rest : List ℕ)
      → Sendable m
      → raw_data buf ≡ frame_of m ++ rest
      → cmsg_data_get_from_buf memory buf
        ≡ some (got (data_of m) (buf_data_push buf (8 + length m.payload)))
  unfolding cmsg_data_get_from_buf
  get_frame buf m rest s e =
      let n = length m.payload in
      let size : buf_raw_data_len buf ≡ 8 + n + length rest =
        sym (length-drop buf.pos buf.bytes)
        ∙ ap length e
        ∙ omega (arith, length-append m.payload rest) in
      let at4 : raw_data (buf_data_push buf 4) ≡ word_octets n ++ m.payload ++ rest =
        raw_data-buf_data_push buf 4 ∙ ap (drop 4) e in
      let at8 : raw_data (buf_data_push (buf_data_push buf 4) 4) ≡ m.payload ++ rest =
        raw_data-buf_data_push (buf_data_push buf 4) 4 ∙ ap (drop 4) at4 in
      let long : ltb (buf_raw_data_len buf) 8 ≡ false = ground (arith, size) in
      let id : word (raw_data buf) ≡ some m.id =
        ap word e ∙ word-word_octets m.id (word_octets n ++ m.payload ++ rest) s.0 in
      let len : word (raw_data (buf_data_push buf 4)) ≡ some n =
        ap word at4 ∙ word-word_octets n (m.payload ++ rest) s.1 in
      let whole : ltb (buf_raw_data_len (buf_data_push (buf_data_push buf 4) 4)) n ≡ false =
        ground (arith, size) in
      let content : take n (raw_data (buf_data_push (buf_data_push buf 4) 4)) ≡ m.payload =
        ap (take n) at8 ∙ take-append m.payload rest in
      let place : buf.pos + 4 + 4 + n ≡ buf.pos + (8 + n) = omega arith in
      elim (Bool-cases (n == 0)) [
        | inl z ↦
            let place₀ : buf.pos + 4 + 4 ≡ buf.pos + (8 + n) = ground arith in
            simp (long, id, len, z, place₀) refl
        | inr z ↦ simp (long, id, len, z, whole, content, always n, place) refl
      ]

  pub behind_frame :
      (buf : Buf) (m : Sent) (rest : List ℕ)
      → raw_data buf ≡ frame_of m ++ rest
      → raw_data (buf_data_push buf (8 + length m.payload)) ≡ rest
  behind_frame buf m rest e =
      raw_data-buf_data_push buf (8 + length m.payload)
      ∙ ap (drop (8 + length m.payload)) e
      ∙ sym (drop-drop 8 (length m.payload) (frame_of m ++ rest))
      ∙ drop-append m.payload rest

  module _ (ctx : Ctx) where
    -- the handlers deal with a message
    abbrev pub Dealt : Sent → Type 0
    Dealt m = Sendable m × (cmsg_deal memory ctx (data_of m) ≡ true)

    -- With frames of messages whose handlers succeed in the cache, and octets behind them that are no
    -- whole frame, the inner loop of `cmsg_recv_and_deal` deals with exactly these messages in the order
    -- in which they were sent, ends without an error, and leaves exactly the octets behind them.
    pub deal_loop-frames :
        (fuel : ℕ) (buf : Buf) (ms : List Sent) (rest : List ℕ)
        → raw_data buf ≡ frames ms ++ rest
        → All Dealt ms
        → ((b : Buf) → raw_data b ≡ rest → cmsg_data_get_from_buf memory b ≡ some insufficient)
        → length ms < fuel
        → (buf' : Buf) × (deal_loop memory fuel ctx buf ≡ some (true, map data_of ms, buf'))
          × (raw_data buf' ≡ rest)
          × (buf'.end ≡ buf.end)
    unfolding deal_loop
    deal_loop-frames zero buf ms rest e all part h = absurd (omega arith)
    deal_loop-frames (suc fuel) buf [] rest e all part h = (buf, rw (part buf e) refl, e, refl)
    deal_loop-frames (suc fuel) buf (m ∷ ms) rest e all part h =
        let e' : raw_data buf ≡ frame_of m ++ (frames ms ++ rest) =
          e ∙ append_assoc (frame_of m) (frames ms) rest in
        let next = buf_data_push buf (8 + length m.payload) in
        let (buf', later, left, same) =
          deal_loop-frames fuel next ms rest (behind_frame buf m (frames ms ++ rest) e') all.1 part
            (omega arith) in
        (
          buf',
          simp (get_frame buf m (frames ms ++ rest) all.0.0 e', all.0.1, later) refl,
          left,
          same,
        )
