-- ===== src/Trace/Numbers.antt =====
-- Numbers in base 16 as src/trace.c reads them.
use myclib.Prelude.{
  ℕ, ◌+◌, ◌-◌, ◌*◌, ◌<◌, ◌≡◌, refl, ◌∙◌, none, some, List, [], ◌∷◌, ◌++◌, map, ltb, if◌then◌else◌,
  min, arith, All,
}
use myclib.Trace.{hex_digit, ulong_max, read_hex}

-- the octet of a digit of base 16
abbrev pub hex_char : ℕ → ℕ
hex_char d = if ltb d 10 then b'0' + d else b'a' + (d - 10)

-- 16 to the number of digits
abbrev pub place : List ℕ → ℕ
place [] = 1
place (d ∷ ds) = 16 * place ds

-- the number that digits stand for, the first one most significant
abbrev pub hex_value : List ℕ → ℕ
hex_value [] = 0
hex_value (d ∷ ds) = d * place ds + hex_value ds

abbrev pub digits : List ℕ → List ℕ
digits ds = map hex_char ds

hex_digit-hex_char : (d : ℕ) → d < 16 → hex_digit (hex_char d) ≡ some d
unfolding hex_digit
hex_digit-hex_char d h = ground arith

read_hex-none :
    (acc c : ℕ) (cs : List ℕ)
    → hex_digit c ≡ none
    → read_hex acc (c ∷ cs) ≡ (min acc ulong_max, c ∷ cs)
unfolding read_hex
read_hex-none acc c cs h = rw (h, read_hex) refl

read_hex-some :
    (acc c d : ℕ) (cs : List ℕ)
    → hex_digit c ≡ some d
    → read_hex acc (c ∷ cs) ≡ read_hex (acc * 16 + d) cs
unfolding read_hex
read_hex-some acc c d cs h = rw (h, read_hex) refl

pub read_hex-digits :
    (ds : List ℕ) (acc c : ℕ) (cs : List ℕ)
    → All (λ d. d < 16) ds
    → hex_digit c ≡ none
    → read_hex acc (digits ds ++ (c ∷ cs)) ≡ (min (acc * place ds + hex_value ds) ulong_max, c ∷ cs)
read_hex-digits [] acc c cs all h =
    let e : acc * 1 + 0 ≡ acc = omega arith in rw e (read_hex-none acc c cs h)
read_hex-digits (d ∷ ds) acc c cs all h =
    let e : (acc * 16 + d) * place ds + hex_value ds
        ≡ acc * (16 * place ds) + (d * place ds + hex_value ds) =
      grind arith in
    read_hex-some acc (hex_char d) d (digits ds ++ (c ∷ cs)) (hex_digit-hex_char d all.0)
    ∙ rw (← e) (read_hex-digits ds (acc * 16 + d) c cs all.1 h)
