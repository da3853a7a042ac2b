-- ===== src/Trie/Domain.antt =====
-- The labels of a domain in src/trie.c.
use myclib.Prelude.{
  ℕ, ◌≡◌, ◌≢◌, refl, ap, ◌∙◌, Bool, true, false, List, [], ◌∷◌, ◌++◌, ◌==◌, if◌then◌else◌, All,
  arith, Bool-cases, inl, inr,
}
use mathlib.Core.List.{reverse, reverse_aux, reverse-reverse}
use myclib.Trie.{Label, split, domain_arr_new}

-- labels with dots between them
abbrev pub join : List Label → List ℕ
join [] = []
join (label ∷ labels) = elim labels [ [] ↦ label | next ∷ more ↦ label ++ b'.' ∷ join labels ]

abbrev pub undotted : Label → Bool
undotted [] = true
undotted (c ∷ cs) = let later = undotted cs in if c == b'.' then false else later

-- What `split` puts in front of the labels of the rest of a domain.
abbrev extended : ℕ → List Label → List Label
extended c later =
    if c == b'.'
    then [] ∷ later
    else elim later [ [] ↦ (c ∷ []) ∷ [] | label ∷ labels ↦ (c ∷ label) ∷ labels ]

abbrev Splits : List ℕ → List Label → Type 0
Splits domain labels = (join labels ≡ domain) × All (λ l. undotted l ≡ true) labels

extended-Splits :
    (c : ℕ) (cs : List ℕ) (later : List Label)
    → Splits cs later
    → later ≢ []
    → Splits (c ∷ cs) (extended c later)
extended-Splits c cs [] s n = absurd (n refl)
extended-Splits c cs (l ∷ []) s n = elim (Bool-cases (c == b'.')) [
  | inl e ↦ rw e (ground (arith, ap (λ ds. b'.' ∷ ds) s.0), (refl, s.1))
  | inr e ↦ rw e (ap (λ ds. c ∷ ds) s.0, (rw e (s.1.0), s.1.1))
]
extended-Splits c cs (l ∷ l' ∷ ls) s n = elim (Bool-cases (c == b'.')) [
  | inl e ↦ rw e (ground (arith, ap (λ ds. b'.' ∷ ds) s.0), (refl, s.1))
  | inr e ↦ rw e (ap (λ ds. c ∷ ds) s.0, (rw e (s.1.0), s.1.1))
]

extended-ne-nil : (c : ℕ) (later : List Label) → extended c later ≢ []
extended-ne-nil c [] e = ground arith
extended-ne-nil c (l ∷ ls) e = ground arith

split-ne-nil : (domain : List ℕ) → split domain ≢ []
unfolding split
split-ne-nil [] e = cc
split-ne-nil (c ∷ cs) e = extended-ne-nil c (split cs) e

-- Splitting a domain and joining its labels with dots gives the domain back, and no label has a dot.
split_lem : (domain : List ℕ) → Splits domain (split domain)
unfolding split
split_lem [] = (refl, (refl, tt))
split_lem (c ∷ cs) = extended-Splits c cs (split cs) (split_lem cs) (split-ne-nil cs)

All-reverse_aux :
    (ls ms : List Label)
    → All (λ l. undotted l ≡ true) ls
    → All (λ l. undotted l ≡ true) ms
    → All (λ l. undotted l ≡ true) (reverse_aux ls ms)
All-reverse_aux [] ms h k = k
All-reverse_aux (l ∷ ls) ms h k = All-reverse_aux ls (l ∷ ms) h.1 (h.0, k)

-- The array that `domain_arr_new` makes of a domain holds labels without dots; from the last one to the
-- first, with dots between them, they are the domain.
pub domain_arr_new-join :
    (domain : List ℕ)
    → (join (reverse (domain_arr_new domain)) ≡ domain)
      × All (λ l. undotted l ≡ true) (domain_arr_new domain)
unfolding domain_arr_new
domain_arr_new-join domain =
    let (joined, undotted_labels) = split_lem domain in
    (
      ap join (reverse-reverse (split domain)) ∙ joined,
      All-reverse_aux (split domain) [] undotted_labels tt,
    )

reverse_aux-cons :
    (ls : List Label) (m : Label) (ms : List Label)
    → (key : Label) × (labels : List Label) × (reverse_aux ls (m ∷ ms) ≡ key ∷ labels)
reverse_aux-cons [] m ms = (m, ms, refl)
reverse_aux-cons (l ∷ ls) m ms = reverse_aux-cons ls l (m ∷ ms)

reverse_some :
    (ls : List Label)
    → ls ≢ []
    → (key : Label) × (labels : List Label) × (reverse ls ≡ key ∷ labels)
reverse_some [] n = absurd (n refl)
reverse_some (l ∷ ls) n = reverse_aux-cons ls l []

-- A domain has a label.
pub domain_arr_new-cons :
    (domain : List ℕ)
    → (key : Label) × (labels : List Label) × (domain_arr_new domain ≡ key ∷ labels)
unfolding domain_arr_new
domain_arr_new-cons domain = reverse_some (split domain) (split-ne-nil domain)
