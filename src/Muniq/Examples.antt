-- ===== src/Muniq/Examples.antt =====
-- tools/muniq/muniq.c on small files, in pages of 64 octets.
use mathlib.Core.Path.{subst}
use myclib.Prelude.{
  ℕ, zero, suc, ◌+◌, ◌≤◌, ◌≡◌, ◌≢◌, refl, true, false, some, List, [], ◌∷◌, ltb, length, get_elem?,
  arith, All,
}
use myclib.Outcome.{ok}
use myclib.Muniq.{
  newline, muniq, fits_ints, copy_loop, find_end, scan_repeat_str, mark_lines, longest_repeat,
  strnchr, strchr, memcmp, read, load,
}
use myclib.Muniq.Blocks.{Deduplicated}
use myclib.Muniq.Copy.{muniq-Deduplicated}
use myclib.Muniq.Ends.{IsText}
use myclib.Muniq.Edges.{IsUnterminated, muniq_unterminated}

get_elem?-All :
    (P : ℕ → Type 0) (xs : List ℕ) → All P xs → (k b : ℕ) → get_elem? xs k ≡ some b → P b
get_elem?-All P [] all k b h = cc
get_elem?-All P (x ∷ xs) all zero b h = let e : x ≡ b = cc in subst P e all.0
get_elem?-All P (x ∷ xs) all (suc k) b h = get_elem?-All P xs all.1 k b h

-- the lines a, b, a, b and c
abbrev text : List ℕ
text = b'a' ∷ 10 ∷ b'b' ∷ 10 ∷ b'a' ∷ 10 ∷ b'b' ∷ 10 ∷ b'c' ∷ 10 ∷ []

text_once : muniq 64 10 1 text ≡ ok (b'a' ∷ 10 ∷ b'b' ∷ 10 ∷ b'c' ∷ 10 ∷ [], true)
unfolding muniq fits_ints copy_loop find_end scan_repeat_str mark_lines longest_repeat strnchr
    strchr memcmp read load
text_once = refl

-- Two lines of which the second is empty, and the first one again: they count as repeated.
lines_cut : muniq 64 10 1 (b'a' ∷ 10 ∷ 10 ∷ b'a' ∷ 10 ∷ []) ≡ ok (b'a' ∷ 10 ∷ 10 ∷ [], true)
unfolding muniq fits_ints copy_loop find_end scan_repeat_str mark_lines longest_repeat strnchr
    strchr memcmp read load
lines_cut = refl

text_octets : (k b : ℕ) → get_elem? text k ≡ some b → b ≢ 0
text_octets k b h = get_elem?-All (λ x. x ≢ 0) text (omega arith) k b h

text_last : (k : ℕ) → k + 1 ≡ 10 → get_elem? text k ≡ some newline
text_last k h = let e : k ≡ 9 = omega arith in rw e refl

text-IsText : IsText text
text-IsText = record { octets = text_octets; last = text_last }

muniq-Deduplicated_example :
    (ys : List ℕ) × (muniq 64 10 1 text ≡ ok (ys, ltb (length ys) (length text)))
    × Deduplicated 1 10 text ys
    × (length ys ≤ length text)
muniq-Deduplicated_example =
    muniq-Deduplicated 64 text (omega arith) text-IsText 10 1 (omega arith) (omega arith)
      (omega arith)

ab-IsUnterminated : IsUnterminated (b'a' ∷ b'b' ∷ [])
ab-IsUnterminated = record {
  nonempty = omega arith;
  octets = λ k b h.
      get_elem?-All (λ x. (x ≢ 0) × (x ≢ newline)) (b'a' ∷ b'b' ∷ [])
        ((omega arith, omega arith), ((omega arith, omega arith), tt)) k b h;
}

muniq_unterminated_example : muniq 64 10 1 (b'a' ∷ b'b' ∷ []) ≡ ok (b'a' ∷ b'b' ∷ 0 ∷ [], false)
muniq_unterminated_example =
    muniq_unterminated 64 (b'a' ∷ b'b' ∷ []) (omega arith) ab-IsUnterminated 10 1 (omega arith)
      (omega arith)
