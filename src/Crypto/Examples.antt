-- ===== src/Crypto/Examples.antt =====
-- The routines of src/crypto.c with toy ciphers in the place of RSA and AES.
use myclib.Prelude.{
  ℕ, ◌+◌, ◌-◌, ◌%◌, ◌≤◌, ◌<◌, ◌≡◌, refl, ap, false, Option, none, some, List, [], ◌∷◌, ◌++◌, ◌==◌,
  if◌then◌else◌, ltb, length, length-append, take, arith,
}
use myclib.Outcome.{ok}
use myclib.Crypto.{
  filled, rsa_public_en, rsa_private_de, aes_cbc_pad_pkcs7_en, aes_cbc_pad_pkcs7_de,
}
use myclib.Crypto.Buffers.{length-filled, take-append}
use myclib.Crypto.Rsa.{RsaPair, rsa_private_de-en}
use myclib.Crypto.Padding.{AesPair, aes_cbc_pad_pkcs7_de-en}

-- a key of 14 octets: the octets behind their number, which is filled up with a number of the round
abbrev toy_encrypt : ℕ → List ℕ → Option (List ℕ)
toy_encrypt i x =
    if ltb 3 (length x) then none else some (length x ∷ (x ++ filled (i % 256) (13 - length x)))

abbrev toy_decrypt : List ℕ → Option (List ℕ)
toy_decrypt [] = none
toy_decrypt (n ∷ c) = some (take n c)

toy_encrypts :
    (i : ℕ) (x : List ℕ)
    → length x + 11 ≤ 14
    → (c : List ℕ) × (toy_encrypt i x ≡ some c) × (length c ≡ 14) × (toy_decrypt c ≡ some x)
toy_encrypts i x h =
    let short : ltb 3 (length x) ≡ false = ground arith in
    let padding = filled (i % 256) (13 - length x) in
    (
      length x ∷ (x ++ padding),
      rw short refl,
      omega (arith, length-append x padding, length-filled (i % 256) (13 - length x)),
      ap some (take-append x padding),
    )

toy_pair : RsaPair 14 toy_decrypt toy_encrypt
toy_pair = record { encrypts = toy_encrypts }

abbrev word : List ℕ
word = b'h' ∷ b'e' ∷ b'l' ∷ b'l' ∷ b'o' ∷ []

en_test :
    rsa_public_en 14 toy_encrypt word
    ≡ ok ((3 ∷ b'h' ∷ b'e' ∷ b'l' ∷ filled 0 10) ++ (2 ∷ b'l' ∷ b'o' ∷ filled 1 11))
unfolding rsa_public_en
en_test = refl

-- one octet 0 cuts off what follows it in its round
zero_test :
    (rsa_public_en 14 toy_encrypt (7 ∷ 0 ∷ 8 ∷ 9 ∷ [])
      ≡ ok ((3 ∷ 7 ∷ 0 ∷ 8 ∷ filled 0 10) ++ (1 ∷ 9 ∷ filled 1 12)))
    × (rsa_private_de 14 toy_decrypt ((3 ∷ 7 ∷ 0 ∷ 8 ∷ filled 0 10) ++ (1 ∷ 9 ∷ filled 1 12))
        ≡ ok (7 ∷ 9 ∷ 8 ∷ filled 0 25))
unfolding rsa_public_en rsa_private_de
zero_test = (refl, refl)

rsa_private_de-en_example :
    (cipher : List ℕ) × (rsa_public_en 14 toy_encrypt word ≡ ok cipher)
    × (rsa_private_de 14 toy_decrypt cipher ≡ ok (word ++ filled 0 (length cipher - 5)))
rsa_private_de-en_example =
    rsa_private_de-en 14 toy_encrypt toy_decrypt toy_pair (omega arith) (omega arith) word
      (ground arith) (omega arith)

-- each octet flipped in its lowest bit
abbrev flip : List ℕ → List ℕ
flip [] = []
flip (c ∷ x) = (if c % 2 == 0 then c + 1 else c - 1) ∷ flip x

length-flip : (x : List ℕ) → length (flip x) ≡ length x
length-flip [] = refl
length-flip (c ∷ x) = omega (arith, length-flip x)

flip-flip : (x : List ℕ) → flip (flip x) ≡ x
flip-flip [] = refl
flip-flip (c ∷ x) = ground (arith, flip-flip x)

flips : AesPair flip flip
flips = record { length_kept = λ x h. length-flip x; inverse = λ x h. flip-flip x }

aes_cbc_pad_pkcs7_de-en_example :
    (cipher buf : List ℕ) × (aes_cbc_pad_pkcs7_en flip 128 word ≡ ok cipher)
    × (aes_cbc_pad_pkcs7_de flip 128 cipher ≡ ok (buf, 5))
    × (take 5 buf ≡ word)
    × (length cipher % 16 ≡ 0)
    × (5 < length cipher)
    × (length cipher ≤ 5 + 16)
aes_cbc_pad_pkcs7_de-en_example =
    aes_cbc_pad_pkcs7_de-en flip flip flips 128 refl word (omega arith)
