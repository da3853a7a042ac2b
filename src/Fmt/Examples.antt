-- ===== src/Fmt/Examples.antt =====
-- Formats of src/fmt.c at concrete arguments.
use myclib.Prelude.{
  ℕ, ◌-◌, ◌^◌, ◌≤◌, ◌<◌, ◌≡◌, refl, none, some, List, [], ◌∷◌, length, min, Block, malloc, arith,
}
use myclib.Fmt.{Arg, word, pointer, to_int, text_d, fmt_snprint}
use myclib.Fmt.Numbers.{Reads, ReadsInt, ReadsPointer, dec_value, hex_value}
use myclib.Fmt.Sinks.{output}
use myclib.Fmt.Bounded.{byte_at, fmt_snprint-output}
use myclib.Fmt.RoundTrip.{Gives, output_int, output_unsigned}

-- `a%d%%` of -42
abbrev format : List ℕ
format = b'a' ∷ b'%' ∷ b'd' ∷ b'%' ∷ b'%' ∷ []

abbrev arguments : List Arg
arguments = word (2 ^ 32 - 42) ∷ []

abbrev text : List ℕ
text = b'a' ∷ b'-' ∷ b'4' ∷ b'2' ∷ b'%' ∷ []

output_test : output format arguments ≡ some (text, [])
unfolding text_d
output_test = refl

-- `INT_MIN` is written as `-(`
int_min_test : text_d (to_int (2 ^ 31)) ≡ some (b'-' ∷ b'(' ∷ [])
unfolding text_d
int_min_test = refl

abbrev room : Block ℕ
room = malloc 8

fmt_snprint-output_example :
    (str' : Block ℕ) × (fmt_snprint room 3 format arguments ≡ some (min 3 (length text), str'))
    × (str'.room ≡ 8)
    × ((k : ℕ) → k < 3 → str'.cell k ≡ some (byte_at text k))
    × ((k : ℕ) → 3 ≤ k → str'.cell k ≡ none)
fmt_snprint-output_example =
    fmt_snprint-output room 3 format arguments text [] (omega arith) output_test

output_int_example :
    Gives (ReadsInt (to_int (2 ^ 32 - 42))) (output (b'%' ∷ b'd' ∷ []) (word (2 ^ 32 - 42) ∷ []))
output_int_example = output_int (2 ^ 32 - 42) (omega arith) (ground arith)

output_unsigned_example :
    Gives (Reads 10 dec_value 4000000000 10) (output (b'%' ∷ b'u' ∷ []) (word 4000000000 ∷ []))
    × Gives (Reads 16 hex_value 4000000000 8) (output (b'%' ∷ b'x' ∷ []) (word 4000000000 ∷ []))
    × Gives (ReadsPointer 48879) (output (b'%' ∷ b'p' ∷ []) (pointer 48879 ∷ []))
output_unsigned_example = output_unsigned 4000000000 48879 (omega arith) (omega arith)
