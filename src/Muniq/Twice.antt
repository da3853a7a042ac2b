-- ===== src/Muniq/Twice.antt =====
-- A block at the beginning of what is left of a file, and once more behind it, for
-- tools/muniq/muniq.c.
use myclib.Prelude.{
  drop-drop, get_elem?-append, get_elem?-append_right, take-append, drop-append, ℕ, ◌+◌, ◌-◌, ◌≤◌,
  ◌<◌, ◌≡◌, ◌≢◌, refl, ap, ◌∙◌, sym, Option, some, List, [], ◌∷◌, ◌++◌, length, take, drop,
  get_elem?, arith, length-drop, get_elem?-drop, length-append,
}
use myclib.Muniq.{newline, map_file}
use myclib.Muniq.Lines.{newlines, newlines-add, Readable}
use myclib.Muniq.Found.{Twice}
use myclib.Muniq.Blocks.{count_lines, map_file-get, newlines-take, count_lines-snoc}

not_empty : (c : List ℕ) → c ≢ [] → 0 < length c
not_empty [] h = absurd (h refl)
not_empty (x ∷ c) h = omega arith

module _ (mapped : ℕ) (file : List ℕ) (readable : Readable (map_file mapped file) (length file))
    (p : ℕ) (c rest : List ℕ)
    (twice : drop p file ≡ (c ++ newline ∷ []) ++ ((c ++ newline ∷ []) ++ rest)) where
  abbrev m : ℕ → Option ℕ
  m = map_file mapped file

  abbrev block : List ℕ
  block = c ++ newline ∷ []

  block_length : length block ≡ length c + 1
  block_length = length-append c (newline ∷ [])

  long : p + (length c + 1 + (length c + 1)) ≤ length file
  long = omega (
    arith,
    length-drop p file,
    ap length twice,
    length-append block (block ++ rest),
    length-append block rest,
    block_length,
  )

  -- an octet of the first block, and one of the second
  first_octet : (k : ℕ) → k ≤ length c → m (p + k) ≡ get_elem? block k
  first_octet k h =
      map_file-get mapped file (p + k) (omega (arith, long))
      ∙ sym (get_elem?-drop p file k)
      ∙ ap (λ (xs : List ℕ). get_elem? xs k) twice
      ∙ get_elem?-append block (block ++ rest) k (omega (arith, block_length))

  second_octet : (k : ℕ) → k ≤ length c → m (p + length c + 1 + k) ≡ get_elem? block k
  second_octet k h =
      let e : p + length c + 1 + k ≡ p + (length block + k) = omega (arith, block_length) in
      ap m e
      ∙ map_file-get mapped file (p + (length block + k)) (omega (arith, long, block_length))
      ∙ sym (get_elem?-drop p file (length block + k))
      ∙ ap (λ (xs : List ℕ). get_elem? xs (length block + k)) twice
      ∙ get_elem?-append_right block (block ++ rest) k
      ∙ get_elem?-append block rest k (omega (arith, block_length))

  last_octet : get_elem? block (length c) ≡ some newline
  last_octet =
      let e : length c ≡ length c + 0 = omega arith in
      ap (get_elem? block) e ∙ get_elem?-append_right c (newline ∷ []) 0

  first_lines : newlines m p (length block) ≡ count_lines c + 1
  first_lines =
      newlines-take mapped file (length block) p (omega (arith, long, block_length))
      ∙ ap (λ (xs : List ℕ). count_lines (take (length block) xs)) twice
      ∙ ap count_lines (take-append block (block ++ rest))
      ∙ count_lines-snoc c

  second_lines : newlines m (p + length block) (length block) ≡ count_lines c + 1
  second_lines =
      newlines-take mapped file (length block) (p + length block)
        (omega (arith, long, block_length))
      ∙ ap (λ (xs : List ℕ). count_lines (take (length block) xs))
          (sym (drop-drop p (length block) file)
            ∙ ap (drop (length block)) twice
            ∙ drop-append block (block ++ rest))
      ∙ ap count_lines (take-append block rest)
      ∙ count_lines-snoc c

  pub block_lines : newlines m p (p + length c + 1 - p) ≡ count_lines c + 1
  block_lines =
      let e : p + length c + 1 - p ≡ length block = omega (arith, block_length) in rw e first_lines

  pub block-Twice : c ≢ [] → Twice m (length file) readable p (p + length c)
  block-Twice nonempty =
      let n = length c in
      let e : p + n - p ≡ n = omega arith in
      record {
        start = omega (arith, not_empty c nonempty);
        within = omega (arith, long);
        ends = first_octet n (omega arith) ∙ last_octet;
        ends_again = rw e (second_octet n (omega arith) ∙ last_octet);
        same = λ k lt. first_octet k (omega arith) ∙ sym (second_octet k (omega arith));
        same_lines =
            let f : p + n + 1 + (p + n - p) + 1 - p ≡ length block + length block =
              omega (arith, block_length) in
            let g : p + n + 1 - p ≡ length block = omega (arith, block_length) in
            rw f (
              rw g (
                newlines-add m (length block) (length block) p
                ∙ ap (λ (k : ℕ). newlines m p (length block) + k)
                    (second_lines ∙ sym first_lines)));
      }
