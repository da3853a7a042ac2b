-- ===== src/Fmt/RoundTrip.antt =====
-- Numbers that src/fmt.c writes for a format with one conversion, read back.
use myclib.Prelude.{
  ℕ, ◌^◌, ◌<◌, ◌≡◌, ◌≢◌, refl, Option, none, some, List, [], ◌∷◌, append-nil, ◌>>=◌,
}
use myclib.Fmt.{Arg, word, pointer, ℤ, pos, negsuc, to_int, text_d, text_u, text_x, text_p}
use myclib.Fmt.Numbers.{
  Reads, ReadsInt, ReadsPointer, dec_value, hex_value, text_d-ReadsInt, text_u-Reads, text_x-Reads,
  text_p-ReadsPointer,
}
use myclib.Fmt.Sinks.{output, behind}

-- The text `o` exists, is the whole output, and has the property.
abbrev pub Gives : (Option (List ℕ) → Type 0) → Option (List ℕ × List Arg) → Type 0
Gives P o = (text : List ℕ) × (o ≡ some (text, [])) × P (some text)

-- a conversion that takes the last argument
abbrev single : Option (List ℕ) → Option (List ℕ × List Arg)
single o = do bytes ← o; some (bytes, [])

Gives-text :
    (P : Option (List ℕ) → Type 0) (o : Option (List ℕ))
    → (P none → ⊥)
    → P o
    → Gives P (single o >>= λ x. behind x.0 (output [] x.1))
Gives-text P none h p = absurd (h p)
Gives-text P (some text) h p = (text, rw (append-nil text) refl, p)

not-ReadsInt : (val : ℤ) → ReadsInt val none → ⊥
not-ReadsInt (pos n) h = h
not-ReadsInt (negsuc n) h = h

pub output_int :
    (bits : ℕ)
    → bits < 2 ^ 32
    → bits ≢ 2 ^ 31
    → Gives (ReadsInt (to_int bits)) (output (b'%' ∷ b'd' ∷ []) (word bits ∷ []))
output_int bits h k =
    let val = to_int bits in
    Gives-text (ReadsInt val) (text_d val) (not-ReadsInt val) (text_d-ReadsInt bits h k)

pub output_unsigned :
    (bits address : ℕ)
    → bits < 2 ^ 32
    → address < 2 ^ 64
    → Gives (Reads 10 dec_value bits 10) (output (b'%' ∷ b'u' ∷ []) (word bits ∷ []))
      × Gives (Reads 16 hex_value bits 8) (output (b'%' ∷ b'x' ∷ []) (word bits ∷ []))
      × Gives (ReadsPointer address) (output (b'%' ∷ b'p' ∷ []) (pointer address ∷ []))
output_unsigned bits address h k = (
  Gives-text (Reads 10 dec_value bits 10) (text_u bits) (λ e. e) (text_u-Reads bits h),
  Gives-text (Reads 16 hex_value bits 8) (text_x bits) (λ e. e) (text_x-Reads bits h),
  Gives-text (ReadsPointer address) (text_p address) (λ e. e) (text_p-ReadsPointer address k),
)
