-- ===== src/Trie/Paths.antt =====
-- What a trie of src/trie.c stands for: a value for each path of labels.
use myclib.Prelude.{
  ℕ, ◌≡◌, refl, sym, ap, ◌∙◌, Bool, true, false, ◌&&◌, List, [], ◌∷◌, if◌then◌else◌, arith,
  Bool-cases, inl, inr,
}
use myclib.Trie.{Label, same, Forest, nil, tree}

pub same-eq : (a b : Label) → same a b ≡ true → a ≡ b
same-eq [] [] h = refl
same-eq [] (d ∷ ds) h = cc
same-eq (c ∷ cs) [] h = cc
same-eq (c ∷ cs) (d ∷ ds) h = ground (arith, same-eq cs ds)

pub same_self : (a : Label) → same a a ≡ true
same_self [] = refl
same_self (c ∷ cs) = ground (arith, same_self cs)

pub same_comm : (a b : Label) → same a b ≡ same b a
same_comm [] [] = refl
same_comm [] (d ∷ ds) = refl
same_comm (c ∷ cs) [] = refl
same_comm (c ∷ cs) (d ∷ ds) = ground (arith, same_comm cs ds)

-- Whether two paths, of a label and the labels behind it, are the same.
abbrev pub same_path : Label → List Label → Label → List Label → Bool
same_path a [] b [] = same a b
same_path a [] b (y ∷ ys) = false
same_path a (x ∷ xs) b [] = false
same_path a (x ∷ xs) b (y ∷ ys) = same a b && same_path x xs y ys

-- the value at the end of a path
abbrev pub lookup : Forest → Label → List Label → ℕ
lookup nil key domain = 0
lookup (tree k value child rest) key domain =
    let later = lookup rest key domain in
    if same k key
    then (elim domain [ [] ↦ value | key' ∷ domain' ↦ lookup child key' domain' ])
    else later

-- From one label to another, by way of a third.
pub same-via : (k a b : Label) → same k a ≡ true → same k b ≡ same a b
same-via k a b h = ap (λ x. same x b) (same-eq k a h)

pub same_other : (k a b : Label) → same k a ≡ false → same k b ≡ true → same a b ≡ false
same_other k a b h e = elim (Bool-cases (same a b)) [
  | inl t ↦
      let again : same k a ≡ true =
        ap (λ x. same k x) (same-eq a b t ∙ sym (same-eq k b e)) ∙ same_self k in
      absurd (cc)
  | inr f ↦ f
]

-- no child has this key
abbrev pub Lacks : Label → Forest → Type 0
Lacks key nil = Unit
Lacks key (tree k value child rest) = (same k key ≡ false) × Lacks key rest

-- siblings have different keys, at every node
abbrev pub Distinct : Forest → Type 0
Distinct nil = Unit
Distinct (tree k value child rest) = Lacks k rest × Distinct child × Distinct rest

pub Lacks-same : (a b : Label) (f : Forest) → same a b ≡ true → Lacks a f → Lacks b f
Lacks-same a b nil h l = tt
Lacks-same a b (tree k value child rest) h l =
    (ap (λ x. same k x) (sym (same-eq a b h)) ∙ l.0, Lacks-same a b rest h l.1)
