-- ===== src/Crypto.antt =====
-- src/crypto.c: encryption of data of any length by RSA, and by AES with the padding of PKCS#7.
-- The functions of OpenSSL are parameters: `RSA_public_encrypt` of one round, `RSA_private_decrypt` and
-- `AES_cbc_encrypt` with the key and the initial vector set. Data is the list of its octets. Allocations
-- succeed, and reading the key files does, else the functions return -1 at once.
pub mod Buffers
pub mod Rsa
pub mod Padding
mod Examples
use myclib.Prelude.{
  ℕ, zero, suc, ◌+◌, ◌-◌, ◌*◌, ◌/◌, ◌%◌, ◌^◌, Bool, true, false, ◌&&◌, ◌||◌, Option, none, some,
  List, [], ◌∷◌, ◌++◌, ltb, leb, ◌==◌, if◌then◌else◌, length, get_elem?, take, drop, u32,
}
use myclib.Outcome.{Result, ok, bad, fault, out_of_fuel, ◌>>=◌}

abbrev pub filled : ℕ → ℕ → List ℕ
filled c zero = []
filled c (suc n) = c ∷ filled c n

-- a write at an offset of a buffer
abbrev pub write : ℕ → List ℕ → List ℕ → Result (List ℕ)
write pos bytes buf =
    if leb (pos + length bytes) (length buf)
    then ok (take pos buf ++ bytes ++ drop (pos + length bytes) buf)
    else fault

-- a read of `n` octets from a pointer
abbrev pub read : ℕ → List ℕ → Result (List ℕ)
read n p = if leb n (length p) then ok (take n p) else fault

-- `strlen`
abbrev pub strlen : List ℕ → Result ℕ
strlen [] = fault
strlen (c ∷ p) = let more = strlen p in if c == 0 then ok 0 else (more >>= λ n. ok (suc n))

-- `round_up(size, sizeof(int))`: the bits below 4 are set in `size - 1`, and 1 is added.
abbrev pub round_up : ℕ → ℕ
round_up size = u32 (u32 (size + 2 ^ 32 - 1) / 4 * 4 + 3 + 1)

-- the most octets of one round
abbrev pub round_max_len : ℕ → ℕ
round_max_len key_len = u32 (key_len + 2 ^ 32 - 11)

-- the octets that `rsa_public_en` allocates
unfoldable pub cipher_room : ℕ → ℕ → ℕ
cipher_room key_len len =
    round_up (u32 (u32 (len / round_max_len key_len + len % round_max_len key_len) * key_len))

module _ (key_len : ℕ) where
  module _ (encrypt : ℕ → List ℕ → Option (List ℕ)) where
    -- The loop of `rsa_public_en` with `p1` at `input`, and the octets that are written. `encrypt i` is
    -- the call of round `i`, whose padding is random; `none` is its failure.
    pub en_loop : ℕ → ℕ → ℕ → List ℕ → List ℕ → Result (List ℕ)
    en_loop zero room i input cipher = out_of_fuel
    en_loop (suc fuel) room i [] cipher = ok cipher
    en_loop (suc fuel) room i (c ∷ input) cipher =
        if ltb room (length cipher + key_len)
        then fault
        else elim (encrypt i (take (round_max_len key_len) (c ∷ input))) [
          | none ↦ bad
          | some octets ↦
              en_loop fuel room (suc i) (drop (round_max_len key_len) (c ∷ input))
                (cipher ++ octets)
        ]

    -- A round takes an octet at least, unless the most for one round is 0, a division by 0.
    unfoldable pub rsa_public_en : List ℕ → Result (List ℕ)
    unfolding en_loop cipher_room
    rsa_public_en input =
        if round_max_len key_len == 0
        then fault
        else en_loop (length input + 1) (cipher_room key_len (length input)) 0 input []

  module _ (decrypt : List ℕ → Option (List ℕ)) where
    -- The loop of `rsa_private_de` with `p1` at `cipher`, and the offset of `out` in the buffer.
    pub de_loop : ℕ → List ℕ → ℕ → List ℕ → Result (List ℕ)
    de_loop zero cipher out plain = out_of_fuel
    de_loop (suc fuel) [] out plain = ok plain
    de_loop (suc fuel) (c ∷ cipher) out plain = do
      octets ← read key_len (c ∷ cipher)
      elim (decrypt octets) [
        | none ↦ bad
        | some bytes ↦ do
          plain' ← write out bytes plain
          n ← strlen (drop out plain')
          de_loop fuel (drop key_len (c ∷ cipher)) (out + n) plain'
      ]

    -- the buffer of as many octets as the cipher
    unfoldable pub rsa_private_de : List ℕ → Result (List ℕ)
    unfolding de_loop
    rsa_private_de cipher = de_loop (length cipher + 1) cipher 0 (filled 0 (length cipher))

abbrev pub aes_block_size : ℕ
aes_block_size = 16

-- `padding_length` octets behind the data, in a buffer with room for `room`
unfoldable pub pkcs7_padding : ℕ → List ℕ → ℕ → Result (List ℕ)
pkcs7_padding room input block_size =
    let padding_length = block_size - length input % block_size in
    if leb (length input + padding_length) room && leb (length input + padding_length) (2 ^ 31)
    then ok (input ++ filled (padding_length % 2 ^ 8) padding_length)
    else fault

-- The new length. It wraps around where the last octet is larger than the length.
unfoldable pub pkcs7_unpadding : List ℕ → ℕ → Result ℕ
pkcs7_unpadding input len = elim (get_elem? input (u32 (len + 2 ^ 32 - 1))) [
  | none ↦ fault
  | some padding_length ↦ ok (u32 (len + 2 ^ 32 - padding_length))
]

abbrev pub is_keylength : ℕ → Bool
is_keylength n = n == 128 || n == 192 || n == 256

module _ (aes : List ℕ → List ℕ) where
  -- The encryption, `aes` being `AES_cbc_encrypt` with `AES_ENCRYPT`. `data_len` is an int, and so is
  -- the length that is computed of it, whose overflow is a fault.
  unfoldable pub aes_cbc_pad_pkcs7_en : ℕ → List ℕ → Result (List ℕ)
  unfolding pkcs7_padding
  aes_cbc_pad_pkcs7_en keylength input =
      if is_keylength keylength
      then if leb (2 ^ 31) ((length input / aes_block_size + 1) * aes_block_size)
        then fault
        else (do
          let len = u32 ((length input / aes_block_size + 1) * aes_block_size)
          plain ← pkcs7_padding len input aes_block_size
          ok (aes plain))
      else bad

  -- The decryption, `aes` being `AES_cbc_encrypt` with `AES_DECRYPT`: the buffer and the length.
  unfoldable pub aes_cbc_pad_pkcs7_de : ℕ → List ℕ → Result (List ℕ × ℕ)
  unfolding pkcs7_unpadding
  aes_cbc_pad_pkcs7_de keylength input =
      if is_keylength keylength
      then (do let buf = aes input; len ← pkcs7_unpadding buf (length input); ok (buf, len))
      else bad
