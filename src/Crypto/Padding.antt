-- ===== src/Crypto/Padding.antt =====
-- Data that src/crypto.c pads as PKCS#7 says and encrypts by AES, and decrypts.
use myclib.Prelude.{
  ℕ, zero, suc, ◌+◌, ◌-◌, ◌*◌, ◌/◌, ◌%◌, ◌^◌, ◌≤◌, ◌<◌, ◌≡◌, refl, ap, ◌∙◌, true, false, some, List,
  [], ◌∷◌, ◌++◌, leb, length, length-append, get_elem?, take, u32, arith,
}
use myclib.Outcome.{ok}
use myclib.Crypto.{
  filled, pkcs7_padding, pkcs7_unpadding, is_keylength, aes_cbc_pad_pkcs7_en, aes_cbc_pad_pkcs7_de,
}
use myclib.Crypto.Buffers.{length-filled, take-append}

-- the octets that are missing up to the next block
abbrev pub missing : ℕ → ℕ
missing len = 16 - len % 16

abbrev pub padded : List ℕ → List ℕ
padded plain = plain ++ filled (missing (length plain)) (missing (length plain))

get_elem?-filled : (c n k : ℕ) → k < n → get_elem? (filled c n) k ≡ some c
get_elem?-filled c zero k h = absurd (omega arith)
get_elem?-filled c (suc n) zero h = refl
get_elem?-filled c (suc n) (suc k) h = get_elem?-filled c n k (omega arith)

get_elem?-append : (xs ys : List ℕ) (k : ℕ) → get_elem? (xs ++ ys) (length xs + k) ≡ get_elem? ys k
get_elem?-append [] ys k = ground arith
get_elem?-append (x ∷ xs) ys k =
    let e : suc (length xs) + k ≡ suc (length xs + k) = omega arith in
    rw e (get_elem?-append xs ys k)

length-padded : (plain : List ℕ) → length (padded plain) ≡ length plain + missing (length plain)
length-padded plain =
    let n = missing (length plain) in
    omega (arith, length-append plain (filled n n), length-filled n n)

pkcs7_padding-padded :
    (plain : List ℕ) (room : ℕ)
    → length plain + missing (length plain) ≤ room
    → length plain + 16 ≤ 2 ^ 31
    → pkcs7_padding room plain 16 ≡ ok (padded plain)
unfolding pkcs7_padding
pkcs7_padding-padded plain room h small =
    let inside : leb (length plain + missing (length plain)) room ≡ true = ground arith in
    let int : leb (length plain + missing (length plain)) (2 ^ 31) ≡ true = ground (arith, small) in
    let byte : missing (length plain) % 2 ^ 8 ≡ missing (length plain) = omega arith in
    rw (inside, int) (ap (λ c. ok (plain ++ filled c (missing (length plain)))) byte)

pkcs7_unpadding-padded :
    (plain : List ℕ) (len : ℕ)
    → len ≡ length plain + missing (length plain)
    → len < 2 ^ 32
    → pkcs7_unpadding (padded plain) len ≡ ok (length plain)
unfolding pkcs7_unpadding
pkcs7_unpadding-padded plain len e h =
    let n = missing (length plain) in
    let last : u32 (len + 2 ^ 32 - 1) ≡ length plain + (n - 1) = omega arith in
    let found : get_elem? (padded plain) (u32 (len + 2 ^ 32 - 1)) ≡ some n =
      ap (λ k. get_elem? (padded plain) k) last
      ∙ get_elem?-append plain (filled n n) (n - 1)
      ∙ get_elem?-filled n n (n - 1) (omega arith) in
    rw (found, pkcs7_unpadding) (ap ok (omega arith))

-- What is documented of `AES_cbc_encrypt` with one key and one initial vector on whole blocks.
pub record AesPair (encrypt decrypt : List ℕ → List ℕ) : Type 0 where
  pub length_kept : (x : List ℕ) → length x % 16 ≡ 0 → length (encrypt x) ≡ length x
  pub inverse : (x : List ℕ) → length x % 16 ≡ 0 → decrypt (encrypt x) ≡ x

-- With a key length that is allowed and data that is shorter than 2 ^ 31 - 16, the encryption pads
-- inside its buffer and returns whole blocks, longer than the data by at most one block, and the
-- decryption of these returns the length of the data and a buffer that begins with it.
pub aes_cbc_pad_pkcs7_de-en :
    (encrypt decrypt : List ℕ → List ℕ)
    → AesPair encrypt decrypt
    → (keylength : ℕ) → is_keylength keylength ≡ true
    → (plain : List ℕ) → length plain + 16 < 2 ^ 31
    → (cipher buf : List ℕ) × (aes_cbc_pad_pkcs7_en encrypt keylength plain ≡ ok cipher)
      × (aes_cbc_pad_pkcs7_de decrypt keylength cipher ≡ ok (buf, length plain))
      × (take (length plain) buf ≡ plain)
      × (length cipher % 16 ≡ 0)
      × (length plain < length cipher)
      × (length cipher ≤ length plain + 16)
unfolding aes_cbc_pad_pkcs7_en aes_cbc_pad_pkcs7_de
aes_cbc_pad_pkcs7_de-en encrypt decrypt pair keylength k plain h =
    let n = missing (length plain) in
    let lens = length-padded plain in
    let whole : length (padded plain) % 16 ≡ 0 = omega (arith, lens) in
    let kept = pair.length_kept (padded plain) whole in
    let back = pair.inverse (padded plain) whole in
    let room : u32 ((length plain / 16 + 1) * 16) ≡ length plain + n = omega arith in
    let put = pkcs7_padding-padded plain (length plain + n) (omega arith) (omega arith) in
    let int : leb (2 ^ 31) ((length plain / 16 + 1) * 16) ≡ false = ground (arith, h) in
    let cut = pkcs7_unpadding-padded plain (length (padded plain)) lens (omega (arith, lens)) in
    (
      encrypt (padded plain),
      padded plain,
      rw k (rw int (rw room (rw put refl))),
      rw k (rw back (rw kept (rw cut refl))),
      take-append plain (filled n n),
      omega (arith, kept),
      omega (arith, kept, lens),
      omega (arith, kept, lens),
    )
