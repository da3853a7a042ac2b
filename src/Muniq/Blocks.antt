-- ===== src/Muniq/Blocks.antt =====
-- Blocks of the lines of a file, as lists, for tools/muniq/muniq.c.
use myclib.Prelude.{
  drop_step, get_elem?-some, ℕ, zero, suc, ◌+◌, ◌≤◌, ◌<◌, ◌≡◌, ◌≢◌, refl, ◌∙◌, inl, inr, Bool-cases,
  List, [], ◌∷◌, ◌++◌, ◌==◌, ltb, if◌then◌else◌, length, take, drop, get_elem?, arith,
}
use myclib.Outcome.{ok}
use myclib.Muniq.{newline, read, map_file}
use myclib.Muniq.Lines.{newlines, load-ok, Readable}

-- the number of newlines
unfoldable pub count_lines : List ℕ → ℕ
count_lines [] = 0
count_lines (x ∷ xs) = let rest = count_lines xs in if x == newline then 1 + rest else rest

-- No block of `least` to `most` lines stands twice at the beginning, but perhaps an empty line.
abbrev pub Unrepeated : ℕ → ℕ → List ℕ → Type 0
Unrepeated least most xs =
    (c rest : List ℕ)
    → c ≢ []
    → least ≤ count_lines c + 1
    → count_lines c + 1 ≤ most
    → xs ≢ (c ++ newline ∷ []) ++ ((c ++ newline ∷ []) ++ rest)

-- `ys` is `xs` with repeated blocks of lines dropped, each of `least` lines or more and at most
-- `most`. A line is taken alone only where no block stands twice. A block may be followed, at the
-- end, by its repetition without the last newline.
pub data Deduplicated (least most : ℕ) : List ℕ → List ℕ → Type 0 where
  finish : Deduplicated least most [] []
  line :
      {xs ys : List ℕ} (c rest out : List ℕ)
      → count_lines c ≡ 0
      → Unrepeated least most xs
      → xs ≡ (c ++ newline ∷ []) ++ rest
      → ys ≡ (c ++ newline ∷ []) ++ out
      → Deduplicated least most rest out
      → Deduplicated least most xs ys
  repeat :
      {xs ys : List ℕ} (c rest out : List ℕ)
      → least ≤ count_lines c + 1
      → count_lines c + 1 ≤ most
      → xs ≡ (c ++ newline ∷ []) ++ ((c ++ newline ∷ []) ++ rest)
      → ys ≡ (c ++ newline ∷ []) ++ out
      → Deduplicated least most rest out
      → Deduplicated least most xs ys
  cut_repeat :
      {xs ys : List ℕ} (c : List ℕ)
      → least ≤ count_lines c + 1
      → count_lines c + 1 ≤ most
      → xs ≡ (c ++ newline ∷ []) ++ c
      → ys ≡ c ++ newline ∷ []
      → Deduplicated least most xs ys

module _ (mapped : ℕ) (file : List ℕ) where
  pub map_file-get : (k : ℕ) → k < length file → map_file mapped file k ≡ get_elem? file k
  map_file-get k h = ground arith

  pub map_file-Readable : length file < mapped → Readable (map_file mapped file) (length file)
  map_file-Readable room k h = elim (Bool-cases (ltb k (length file))) [
    | inl e ↦ let (b, here) = get_elem?-some k file (ground arith) in (b, rw e here)
    | inr e ↦ (0, ground arith)
  ]

  pub read-take :
      (n p : ℕ) → p + n ≤ length file → read (map_file mapped file) p n ≡ ok (take n (drop p file))
  unfolding read
  read-take zero p h = refl
  read-take (suc n) p h =
      let (b, here) = get_elem?-some p file (omega arith) in
      rw (load-ok (map_file mapped file) p b (map_file-get p (omega arith) ∙ here))
        (rw (read-take n (p + 1) (omega arith)) (rw (drop_step p file b here) refl))

  pub newlines-take :
      (n p : ℕ)
      → p + n ≤ length file
      → newlines (map_file mapped file) p n ≡ count_lines (take n (drop p file))
  unfolding newlines count_lines
  newlines-take zero p h = refl
  newlines-take (suc n) p h =
      let (b, here) = get_elem?-some p file (omega arith) in
      let at_p = map_file-get p (omega arith) ∙ here in
      rw (drop_step p file b here) (ground (arith, newlines-take n (p + 1), at_p))

pub count_lines-snoc : (c : List ℕ) → count_lines (c ++ newline ∷ []) ≡ count_lines c + 1
unfolding count_lines
count_lines-snoc [] = omega arith
count_lines-snoc (x ∷ c) = ground (arith, count_lines-snoc c)
