-- ===== src/Fmt/Numbers.antt =====
-- The numbers that src/fmt.c writes, read back.
use myclib.Prelude.{
  ℕ, zero, suc, ◌+◌, ◌-◌, ◌*◌, ◌/◌, ◌%◌, ◌^◌, ◌≤◌, ◌<◌, ◌≡◌, ◌≢◌, refl, Bool-cases, Option, none,
  some, List, [], ◌∷◌, ltb, if◌then◌else◌, ◌>>=◌, length, arith, inl, inr,
}
use myclib.Fmt.{
  ℤ, pos, negsuc, to_int, int_loop, magnitude, push_sign, digit_loop, dec_digit, hex_digit, text_d,
  text_u, text_x, text_p,
}

-- reading the digits of a number, behind `m` from the digits in front of them
abbrev pub read_digits : (base : ℕ) → (ℕ → ℕ) → ℕ → List ℕ → ℕ
read_digits base undigit m [] = m
read_digits base undigit m (c ∷ cs) = read_digits base undigit (m * base + undigit c) cs

abbrev pub dec_value : ℕ → ℕ
dec_value c = c - b'0'

abbrev pub hex_value : ℕ → ℕ
hex_value c = if ltb c b'a' then c - b'0' else c - b'a' + 10

abbrev power : ℕ → ℕ → ℕ
power base zero = 1
power base (suc n) = base * power base n

-- What `digit_loop` writes reads back as the number, and leaves room for `spare` bytes.
abbrev Written : (base : ℕ) → (ℕ → ℕ) → (room spare m : ℕ) → List ℕ → Option (ℕ × List ℕ) → Type 0
Written base undigit room spare m p none = ⊥
Written base undigit room spare m p (some (left, out)) =
    (read_digits base undigit 0 out ≡ read_digits base undigit m p)
    × (left + length out ≡ room + length p)
    × (spare ≤ left)

module _ (base : ℕ) (digit undigit : ℕ → ℕ) (next : (m n : ℕ) → m < base * n → m / base < n)
    (first : (m : ℕ) → m / base * base + undigit (digit (m % base)) ≡ m) where
  -- the round that writes the first digit
  last_round :
      (room spare m : ℕ) (p : List ℕ)
      → m / base ≡ 0
      → spare ≤ room
      → Written base undigit (suc room) spare m p (some (room, digit (m % base) ∷ p))
  last_round room spare m p e h = ground (arith, first m)

  -- `suc rounds` digits are enough for a number below that power of the base
  digit_loop-Written :
      (rounds room spare m : ℕ) (p : List ℕ)
      → m < power base (suc rounds)
      → rounds + spare ≤ room
      → Written base undigit (suc room) spare m p (digit_loop base digit (suc room) m p)
  unfolding digit_loop
  digit_loop-Written zero room spare m p h k = ground (arith, next m 1 h, last_round room spare m p)
  digit_loop-Written (suc rounds) zero spare m p h k = absurd (omega arith)
  digit_loop-Written (suc rounds) (suc room) spare m p h k =
      let smaller = next m (power base (suc rounds)) h in
      ground (
        arith,
        first m,
        last_round (suc room) spare m p,
        digit_loop-Written rounds room spare (m / base) (digit (m % base) ∷ p) smaller,
      )

dec_next : (m n : ℕ) → m < 10 * n → m / 10 < n
dec_next m n h = omega arith

dec_first : (m : ℕ) → m / 10 * 10 + dec_value (dec_digit (m % 10)) ≡ m
dec_first m = omega arith

hex_next : (m n : ℕ) → m < 16 * n → m / 16 < n
hex_next m n h = omega arith

hex_first : (m : ℕ) → m / 16 * 16 + hex_value (hex_digit (m % 16)) ≡ m
hex_first m = ground arith

-- What a text of a number is: it reads back as the number, and has a bounded length.
abbrev pub Reads : (base : ℕ) → (ℕ → ℕ) → (m most : ℕ) → Option (List ℕ) → Type 0
Reads base undigit m most none = ⊥
Reads base undigit m most (some text) = (read_digits base undigit 0 text ≡ m) × (length text ≤ most)

module _ (rounds room spare m : ℕ) where
  dec-Written :
      m < power 10 (suc rounds)
      → rounds + spare ≤ room
      → Written 10 dec_value (suc room) spare m [] (digit_loop 10 dec_digit (suc room) m [])
  dec-Written h k =
      digit_loop-Written 10 dec_digit dec_value dec_next dec_first rounds room spare m [] h k

  hex-Written :
      m < power 16 (suc rounds)
      → rounds + spare ≤ room
      → Written 16 hex_value (suc room) spare m [] (digit_loop 16 hex_digit (suc room) m [])
  hex-Written h k =
      digit_loop-Written 16 hex_digit hex_value hex_next hex_first rounds room spare m [] h k

pub text_u-Reads : (m : ℕ) → m < 2 ^ 32 → Reads 10 dec_value m 10 (text_u m)
unfolding text_u
text_u-Reads m h = ground (arith, dec-Written 9 42 33 m (omega arith) (omega arith))

pub text_x-Reads : (m : ℕ) → m < 2 ^ 32 → Reads 16 hex_value m 8 (text_x m)
unfolding text_x
text_x-Reads m h = ground (arith, hex-Written 7 42 35 m (omega arith) (omega arith))

-- `0x` and the digits
abbrev pub ReadsPointer : ℕ → Option (List ℕ) → Type 0
ReadsPointer m (some (c ∷ d ∷ text)) = (c ≡ b'0') × (d ≡ b'x') × Reads 16 hex_value m 16 (some text)
ReadsPointer m _ = ⊥

pub text_p-ReadsPointer : (m : ℕ) → m < 2 ^ 64 → ReadsPointer m (text_p m)
unfolding text_p
text_p-ReadsPointer m h = ground (arith, hex-Written 15 42 27 m (omega arith) (omega arith))

-- a minus sign, if the number is negative, and the digits
abbrev pub ReadsInt : ℤ → Option (List ℕ) → Type 0
ReadsInt (pos n) o = Reads 10 dec_value n 10 o
ReadsInt (negsuc n) (some (c ∷ text)) = (c ≡ b'-') × Reads 10 dec_value (suc n) 10 (some text)
ReadsInt (negsuc n) _ = ⊥

int_loop-pos :
    (room m : ℕ) (p : List ℕ) → int_loop room (pos m) p ≡ digit_loop 10 dec_digit room m p
unfolding int_loop digit_loop
int_loop-pos zero m p = refl
int_loop-pos (suc room) m p = ground (arith, int_loop-pos room (m / 10) (dec_digit (m % 10) ∷ p))

text_d-pos : (n : ℕ) → n < 2 ^ 31 → ReadsInt (pos n) (text_d (pos n))
unfolding text_d
text_d-pos n h =
    ground (arith, int_loop-pos 256 n [], dec-Written 9 255 246 n (omega arith) (omega arith))

int_loop-negsuc :
    (n : ℕ)
    → n < 2 ^ 31 - 1
    → int_loop 256 (magnitude (negsuc n)) [] ≡ digit_loop 10 dec_digit 256 (suc n) []
int_loop-negsuc n h =
    let e : magnitude (negsuc n) ≡ pos (suc n) = ground arith in rw e (int_loop-pos 256 (suc n) [])

push_sign-ReadsInt :
    (n : ℕ) (o : Option (ℕ × List ℕ))
    → Written 10 dec_value 256 246 (suc n) [] o
    → ReadsInt (negsuc n) (o >>= λ p. push_sign (negsuc n) p >>= λ p'. some p'.1)
push_sign-ReadsInt n none h = absurd h
push_sign-ReadsInt n (some (left, out)) h = ground arith

text_d-negsuc : (n : ℕ) → n < 2 ^ 31 - 1 → ReadsInt (negsuc n) (text_d (negsuc n))
unfolding text_d
text_d-negsuc n h = rw (int_loop-negsuc n h) (
    push_sign-ReadsInt n (digit_loop 10 dec_digit 256 (suc n) [])
      (dec-Written 9 255 246 (suc n) (omega arith) (omega arith)))

pub text_d-ReadsInt :
    (bits : ℕ) → bits < 2 ^ 32 → bits ≢ 2 ^ 31 → ReadsInt (to_int bits) (text_d (to_int bits))
text_d-ReadsInt bits h k = elim (Bool-cases (ltb bits (2 ^ 31))) [
  | inl e ↦ rw e (text_d-pos bits (ground arith))
  | inr e ↦ rw e (text_d-negsuc (2 ^ 32 - 1 - bits) (ground arith))
]
