-- ===== src/Crypto/Rsa.antt =====
-- Data that `rsa_public_en` of src/crypto.c encrypts in rounds, and `rsa_private_de` decrypts.
use native.Mathlib.Nat.{
  mul-le-mul_left, div-eq-sub-div, mod-eq_of_lt, add-mod_right, zero-div, zero-mod,
  mul-le-mul_right,
}
use mathlib.Core.Path.{subst}
use myclib.Prelude.{
  ℕ, zero, suc, ◌+◌, ◌-◌, ◌*◌, ◌/◌, ◌%◌, ◌^◌, ◌≤◌, ◌<◌, ◌≡◌, ◌≢◌, refl, sym, ap, ◌∙◌, false,
  Bool-cases, Option, some, List, [], ◌∷◌, ◌++◌, append-nil, append_assoc, ltb, ◌==◌, length,
  length-append, length-drop, take-drop_lem, take, drop, All, u32, arith, inl, inr,
}
use myclib.Outcome.{ok}
use myclib.Crypto.{
  filled, round_up, round_max_len, cipher_room, en_loop, rsa_public_en, de_loop, rsa_private_de,
}
use myclib.Crypto.Buffers.{
  length-take_le, drop_exact, read-append, write_zeros, strlen_zeros, All-take, All-drop,
}

-- the rounds that `rsa_public_en` allocates for
abbrev pub rounds : ℕ → ℕ → ℕ
rounds most n = n / most + n % most

rounds_step : (most n : ℕ) → 0 < most → 0 < n → suc (rounds most (n - most)) ≤ rounds most n
rounds_step most n h k = elim (Bool-cases (ltb n most)) [
  | inl e ↦
      let lt : n < most = ground arith in
      let none_left : n - most ≡ 0 = omega arith in
      rw none_left (omega (arith, zero-div most, zero-mod most, mod-eq_of_lt lt))
  | inr e ↦
      let le : most ≤ n = ground arith in
      let back : n - most + most ≡ n = omega arith in
      let same : (n - most + most) % most ≡ (n - most) % most = add-mod_right (n - most) most in
      let same' : n % most ≡ (n - most) % most = ap (λ m. m % most) (sym back) ∙ same in
      omega (arith, div-eq-sub-div h le, same')
]

-- room for a round less
room_step :
    (key_len most n used room : ℕ)
    → 0 < most
    → 0 < n
    → used + rounds most n * key_len ≤ room
    → (used + key_len) + rounds most (n - most) * key_len ≤ room
room_step key_len most n used room h k e =
    let less = mul-le-mul_right key_len (rounds_step most n h k) in grind (arith, less)

module _ (key_len : ℕ) (decrypt : List ℕ → Option (List ℕ)) where
  -- a cipher of rounds, with what they decrypt to
  data Rounds : List ℕ → List ℕ → Type 0 where
    none_left : Rounds [] []
    round :
        {x plain cipher : List ℕ} {o : ℕ} {c : List ℕ}
        → suc (length c) ≡ key_len
        → length x < key_len
        → decrypt (o ∷ c) ≡ some x
        → All (λ b. b ≢ 0) x
        → Rounds plain cipher
        → Rounds (x ++ plain) (o ∷ (c ++ cipher))

  Rounds-append :
      (x plain cipher c : List ℕ)
      → length c ≡ key_len
      → length x < key_len
      → decrypt c ≡ some x
      → All (λ b. b ≢ 0) x
      → Rounds plain cipher
      → Rounds (x ++ plain) (c ++ cipher)
  Rounds-append x plain cipher [] l lx e a r = absurd (omega arith)
  Rounds-append x plain cipher (o ∷ c) l lx e a r = round l lx e a r

  -- What is documented of `RSA_public_encrypt` and `RSA_private_decrypt` with a pair of keys, where the
  -- encryption does not fail: the cipher is as long as the key, and decrypts to the octets.
  pub record RsaPair (encrypt : ℕ → List ℕ → Option (List ℕ)) : Type 0 where
    pub encrypts :
        (i : ℕ) (x : List ℕ)
        → length x + 11 ≤ key_len
        → (c : List ℕ) × (encrypt i x ≡ some c) × (length c ≡ key_len) × (decrypt c ≡ some x)

  module _ (encrypt : ℕ → List ℕ → Option (List ℕ)) (pair : RsaPair encrypt) (long : 11 < key_len)
      (word : key_len < 2 ^ 32) where
    most_of_key : round_max_len key_len ≡ key_len - 11
    most_of_key = omega arith

    en_loop-Rounds :
        (fuel room i : ℕ) (plain cipher : List ℕ)
        → length plain < fuel
        → All (λ o. o ≢ 0) plain
        → length cipher + rounds (round_max_len key_len) (length plain) * key_len ≤ room
        → (more : List ℕ) × (en_loop key_len encrypt fuel room i plain cipher ≡ ok (cipher ++ more))
          × Rounds plain more
    unfolding en_loop
    en_loop-Rounds zero room i plain cipher f a h = absurd (omega arith)
    en_loop-Rounds (suc fuel) room i [] cipher f a h = ([], rw (append-nil cipher) refl, none_left)
    en_loop-Rounds (suc fuel) room i (o ∷ plain) cipher f a h =
        let most = round_max_len key_len in
        let x = take most (o ∷ plain) in
        let rest = drop most (o ∷ plain) in
        let l : length x ≤ most = length-take_le most (o ∷ plain) in
        let (c, e, lc, d) = pair.encrypts i x (omega (arith, most_of_key)) in
        let left = length-drop most (o ∷ plain) in
        let less =
          room_step key_len most (suc (length plain)) (length cipher) room
            (omega (arith, most_of_key)) (omega arith) h in
        let inside : ltb room (length cipher + key_len) ≡ false = ground (arith, less) in
        let used : length (cipher ++ c) ≡ length cipher + key_len =
          omega (arith, length-append cipher c, lc) in
        let (more, e', r) =
          en_loop-Rounds fuel room (suc i) rest (cipher ++ c) (omega (arith, left, most_of_key))
            (All-drop most (o ∷ plain) a) (rw used (rw left less)) in
        (
          c ++ more,
          rw inside (rw e (e' ∙ ap ok (append_assoc cipher c more))),
          subst (λ p. Rounds p (c ++ more)) (take-drop_lem most (o ∷ plain))
              (Rounds-append x rest more c lc (omega (arith, most_of_key)) d
                (All-take most (o ∷ plain) a) r),
        )

  regroup :
      (done x plain : List ℕ) (n : ℕ)
      → (done ++ x) ++ plain ++ filled 0 (n - length x - length plain)
        ≡ done ++ (x ++ plain) ++ filled 0 (n - length (x ++ plain))
  regroup done x plain n =
      let e : n - length (x ++ plain) ≡ n - length x - length plain =
        omega (arith, length-append x plain) in
      rw e (ap (λ ys. ys ++ filled 0 (n - length x - length plain)) (append_assoc done x plain))

  de_loop-Rounds :
      (fuel n : ℕ) (plain cipher done : List ℕ)
      → Rounds plain cipher
      → length cipher ≤ n
      → length cipher < fuel
      → de_loop key_len decrypt fuel cipher (length done) (done ++ filled 0 n)
        ≡ ok (done ++ plain ++ filled 0 (n - length plain))
  unfolding de_loop
  de_loop-Rounds zero n plain cipher done r h f = absurd (omega arith)
  de_loop-Rounds (suc fuel) n plain cipher done none_left h f =
      let e : n - 0 ≡ n = omega arith in rw e (rw (append-nil done) refl)
  de_loop-Rounds (suc fuel) n plain cipher done
        (round {x = x} {plain = plain'} {cipher = cipher'} {o = o} {c = c} lc lx e a r) h f =
      let lens = length-append c cipher' in
      let zeros = n - length x in
      let long : length x ≤ n = omega (arith, lens) in
      let out : length done + length x ≡ length (done ++ x) = omega (arith, length-append done x) in
      let next =
        de_loop-Rounds fuel zeros plain' cipher' (done ++ x) r (omega (arith, lens))
          (omega (arith, lens)) in
      let got = read-append key_len (o ∷ c) cipher' lc in
      let rest = drop_exact key_len (o ∷ c) cipher' lc in
      let put = write_zeros done x n long in
      let found = strlen_zeros done x zeros (omega (arith, lens)) a in
      rw got (rw e (rw put (rw found (rw rest (rw out (next ∙ ap ok (regroup done x plain' n)))))))

le-round_up : (size : ℕ) → size + 4 ≤ 2 ^ 32 → size ≤ round_up size
le-round_up size h = omega arith

le-cipher_room :
    (key_len len : ℕ)
    → 0 < key_len
    → rounds (round_max_len key_len) len * key_len + 4 ≤ 2 ^ 32
    → rounds (round_max_len key_len) len * key_len ≤ cipher_room key_len len
unfolding cipher_room
le-cipher_room key_len len h k =
    let n = rounds (round_max_len key_len) len in
    let most : n * 1 ≤ n * key_len = mul-le-mul_left n h in
    let small : u32 n ≡ n = omega (arith, most) in
    let small' : u32 (n * key_len) ≡ n * key_len = omega arith in
    rw small (rw small' (le-round_up (n * key_len) k))

module _ (key_len : ℕ) (encrypt : ℕ → List ℕ → Option (List ℕ))
    (decrypt : List ℕ → Option (List ℕ)) where
  -- With a pair of keys of more than eleven octets and data without an octet 0 whose room fits 32 bits,
  -- `rsa_public_en` returns, and never writes outside the room that it allocates. `rsa_private_de` of
  -- what it returns gives the data again, with zeros behind it up to the length of the cipher.
  pub rsa_private_de-en :
      RsaPair key_len decrypt encrypt
      → 11 < key_len
      → key_len < 2 ^ 32
      → (plain : List ℕ) → All (λ o. o ≢ 0) plain
      → rounds (round_max_len key_len) (length plain) * key_len + 4 ≤ 2 ^ 32
      → (cipher : List ℕ) × (rsa_public_en key_len encrypt plain ≡ ok cipher)
        × (rsa_private_de key_len decrypt cipher
            ≡ ok (plain ++ filled 0 (length cipher - length plain)))
  unfolding rsa_public_en rsa_private_de
  rsa_private_de-en pair h k plain a room =
      let fits = le-cipher_room key_len (length plain) (omega arith) room in
      let some_round : (round_max_len key_len == 0) ≡ false =
        ground (arith, most_of_key key_len decrypt encrypt pair h k) in
      let (cipher, e, r) =
        en_loop-Rounds key_len decrypt encrypt pair h k (length plain + 1)
          (cipher_room key_len (length plain)) 0 plain [] (omega arith) a (omega (arith, fits)) in
      (
        cipher,
        rw some_round e,
        de_loop-Rounds key_len decrypt (length cipher + 1) (length cipher) plain cipher [] r
            (omega arith) (omega arith),
      )
