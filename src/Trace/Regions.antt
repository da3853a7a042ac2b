-- ===== src/Trace/Regions.antt =====
-- `get_task_maps` of src/trace.c on the lines that the system writes.
use mathlib.Core.Path.{subst}
use myclib.Prelude.{
  ℕ, zero, suc, ◌+◌, ◌*◌, ◌≤◌, ◌<◌, ◌≡◌, refl, ap, ◌∙◌, sym, true, false, Option, none, some, List,
  [], ◌∷◌, ◌++◌, append_assoc, length, drop, min, arith, All, length-append, get_elem?-append_right,
  drop-append, take-append, drop-drop,
}
use myclib.Trace.{
  Region, starts_with, contains, executable, is_text, hex_digit, ulong_max, read_hex, octet,
  is_separator, step_back, copy_name, read_range, read_second, parse_line,
}
use myclib.Trace.Numbers.{place, hex_value, digits, read_hex-digits}

-- A region as the system describes it: the digits of its first and its last address, what stands
-- between them and the name, and the last part of the name of the file.
pub record Entry : Type 0 where
  pub begin_digits : List ℕ
  pub end_digits : List ℕ
  pub fields : List ℕ
  pub name : List ℕ

-- its line: the fields end with the rest of the path
abbrev pub entry_line : Entry → List ℕ
entry_line e =
    digits e.begin_digits
    ++ (b'-'
        ∷ (digits e.end_digits
            ++ (b' ' ∷ (executable ++ (b' ' ∷ (e.fields ++ (b'/' ∷ (e.name ++ 10 ∷ []))))))))

pub record IsEntry (e : Entry) : Type 0 where
  pub begin_digits : All (λ d. d < 16) e.begin_digits
  pub end_digits : All (λ d. d < 16) e.end_digits
  pub begin_fits : hex_value e.begin_digits ≤ ulong_max
  pub end_fits : hex_value e.end_digits ≤ ulong_max
  pub name : All (λ c. is_separator c ≡ false) e.name

abbrev pub entry_region : Entry → Region
entry_region e = record {
  name = e.name;
  begin = hex_value e.begin_digits;
  end = hex_value e.end_digits;
}

starts_with-append : (ps xs : List ℕ) → starts_with ps (ps ++ xs) ≡ true
unfolding starts_with
starts_with-append [] xs = refl
starts_with-append (p ∷ ps) xs = ground (arith, starts_with-append ps xs)

contains-prefix : (ps xs : List ℕ) → starts_with ps xs ≡ true → contains ps xs ≡ true
unfolding contains
contains-prefix ps [] h = h
contains-prefix ps (x ∷ xs) h = rw h refl

contains-append : (ps xs ys : List ℕ) → contains ps ys ≡ true → contains ps (xs ++ ys) ≡ true
unfolding contains
contains-append ps [] ys h = h
contains-append ps (x ∷ xs) ys h = ground (arith, contains-append ps xs ys)

step_back-hit :
    (line : List ℕ) (n : ℕ) → is_separator (octet line n) ≡ true → step_back line n ≡ some n
unfolding step_back
step_back-hit line zero h = rw h refl
step_back-hit line (suc n) h = rw h refl

octet-All :
    (xs : List ℕ) (k : ℕ) → All (λ c. is_separator c ≡ false) xs → is_separator (octet xs k) ≡ false
octet-All [] k all = refl
octet-All (x ∷ xs) zero all = all.0
octet-All (x ∷ xs) (suc k) all = octet-All xs k all.1

-- A text and its last separator.
module _ (before after : List ℕ) (c : ℕ) (sep : is_separator c ≡ true)
    (plain : All (λ c. is_separator c ≡ false) after) where
  abbrev pub text : List ℕ
  text = before ++ (c ∷ after)

  octet_line : (k : ℕ) → octet text (length before + k) ≡ octet (c ∷ after) k
  octet_line k =
      ap (λ (o : Option ℕ). elim o as (λ x. ℕ) [ none ↦ 0 | some b ↦ b ])
        (get_elem?-append_right before (c ∷ after) k)

  pub octet_last : octet text (length before) ≡ c
  octet_last =
      let e : length before ≡ length before + 0 = omega arith in ap (octet text) e ∙ octet_line 0

  step_back_from : (k : ℕ) → step_back text (length before + k) ≡ some (length before)
  unfolding step_back
  step_back_from zero =
      let e : length before + 0 ≡ length before = omega arith in
      rw e (step_back-hit text (length before) (ap is_separator octet_last ∙ sep))
  step_back_from (suc k) =
      let e : length before + suc k ≡ suc (length before + k) = omega arith in
      let miss : is_separator (octet text (suc (length before + k))) ≡ false =
        rw (← e) (ap is_separator (octet_line (suc k)) ∙ octet-All after k plain) in
      rw e (rw miss (step_back_from k))

  pub step_back_line : step_back text (length text) ≡ some (length before)
  step_back_line = rw (length-append before (c ∷ after)) (step_back_from (length (c ∷ after)))

  drop_line : drop (length before + 1) text ≡ after
  drop_line = sym (drop-drop (length before) 1 text) ∙ ap (drop 1) (drop-append before (c ∷ after))

All-snoc :
    (xs : List ℕ) (c : ℕ)
    → All (λ x. is_separator x ≡ false) xs
    → is_separator c ≡ false
    → All (λ x. is_separator x ≡ false) (xs ++ c ∷ [])
All-snoc [] c all h = (h, tt)
All-snoc (x ∷ xs) c all h = (all.0, All-snoc xs c all.1 h)

copy_name-snoc : (xs : List ℕ) (c : ℕ) → copy_name (xs ++ c ∷ []) ≡ some xs
unfolding copy_name
copy_name-snoc [] c = refl
copy_name-snoc (x ∷ xs) c =
    let e : length (xs ++ c ∷ []) ≡ suc (length xs) = omega (arith, length-append xs (c ∷ [])) in
    rw e (rw (take-append xs (c ∷ [])) refl)

abbrev before_name : Entry → List ℕ
before_name e =
    digits e.begin_digits
    ++ (b'-' ∷ (digits e.end_digits ++ (b' ' ∷ (executable ++ (b' ' ∷ e.fields)))))

entry_line-split : (e : Entry) → entry_line e ≡ before_name e ++ (b'/' ∷ (e.name ++ 10 ∷ []))
entry_line-split e = simp (append_assoc)

parse_line-region :
    (line name : List ℕ) (i begin end : ℕ)
    → step_back line (length line) ≡ some i
    → octet line i ≡ b'/'
    → copy_name (drop (i + 1) line) ≡ some name
    → read_range line ≡ some (begin, end)
    → parse_line line ≡ some (some (record { name = name; begin = begin; end = end }))
unfolding parse_line
parse_line-region line name i begin end back slash copied range =
    rw back (rw slash (rw copied (rw range refl)))

pub entry-is_text : (e : Entry) → is_text (entry_line e) ≡ true
unfolding is_text
entry-is_text e =
    let rest = b' ' ∷ (e.fields ++ (b'/' ∷ (e.name ++ 10 ∷ []))) in
    let here =
      contains-prefix executable (executable ++ rest) (starts_with-append executable rest) in
    contains-append executable (digits e.begin_digits) _ (
      contains-append executable (b'-' ∷ []) _ (
        contains-append executable (digits e.end_digits) _
          (contains-append executable (b' ' ∷ []) _ here)))

fits_lem : (p n : ℕ) → n ≤ ulong_max → min (0 * p + n) ulong_max ≡ n
fits_lem p n h = let e : 0 * p ≡ 0 = grind arith in omega (arith, e)

read_range-some :
    (line : List ℕ) (begin c : ℕ) (cs : List ℕ) (end : ℕ) (rest : List ℕ)
    → read_hex 0 line ≡ (begin, c ∷ cs)
    → read_hex 0 cs ≡ (end, rest)
    → read_range line ≡ some (begin, end)
unfolding read_range
read_range-some line begin c cs end rest p q =
    ap read_second p ∙ ap (λ (r : ℕ × List ℕ). some (begin, r.0)) q

entry-read_range :
    (e : Entry)
    → IsEntry e
    → read_range (entry_line e) ≡ some (hex_value e.begin_digits, hex_value e.end_digits)
unfolding hex_digit
entry-read_range e valid =
    let rest = executable ++ (b' ' ∷ (e.fields ++ (b'/' ∷ (e.name ++ 10 ∷ [])))) in
    let first =
      read_hex-digits e.begin_digits 0 b'-' (digits e.end_digits ++ (b' ' ∷ rest))
        valid.begin_digits refl in
    let second = read_hex-digits e.end_digits 0 b' ' rest valid.end_digits refl in
    let a : min (0 * place e.begin_digits + hex_value e.begin_digits) ulong_max
        ≡ hex_value e.begin_digits =
      fits_lem (place e.begin_digits) (hex_value e.begin_digits) valid.begin_fits in
    let b : min (0 * place e.end_digits + hex_value e.end_digits) ulong_max
        ≡ hex_value e.end_digits =
      fits_lem (place e.end_digits) (hex_value e.end_digits) valid.end_fits in
    read_range-some (entry_line e) (hex_value e.begin_digits) b'-' _ (hex_value e.end_digits) _
      (first ∙ ap (λ (n : ℕ). (n, b'-' ∷ (digits e.end_digits ++ (b' ' ∷ rest)))) a)
      (second ∙ ap (λ (n : ℕ). (n, b' ' ∷ rest)) b)

pub parse_line-entry :
    (e : Entry) → IsEntry e → parse_line (entry_line e) ≡ some (some (entry_region e))
parse_line-entry e valid =
    let after = e.name ++ 10 ∷ [] in
    let plain = All-snoc e.name 10 valid.name refl in
    let back = step_back_line (before_name e) after b'/' refl plain in
    let slash = octet_last (before_name e) after b'/' refl plain in
    let name =
      ap copy_name (drop_line (before_name e) after b'/' refl plain) ∙ copy_name-snoc e.name 10 in
    let split = sym (entry_line-split e) in
    parse_line-region (entry_line e) e.name (length (before_name e)) (hex_value e.begin_digits)
      (hex_value e.end_digits)
      (subst (λ l. step_back l (length l) ≡ some (length (before_name e))) split back)
      (subst (λ l. octet l (length (before_name e)) ≡ b'/') split slash)
      (subst (λ l. copy_name (drop (length (before_name e) + 1) l) ≡ some e.name) split name)
      (entry-read_range e valid)

-- A line whose last separator is a blank has no region.
pub parse_line-blank :
    (before after : List ℕ)
    → All (λ c. is_separator c ≡ false) after
    → parse_line (before ++ (b' ' ∷ after)) ≡ some none
unfolding parse_line
parse_line-blank before after plain =
    let last = octet_last before after b' ' refl plain in
    rw (step_back_line before after b' ' refl plain) (rw last refl)
