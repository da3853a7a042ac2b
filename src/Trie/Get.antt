-- ===== src/Trie/Get.antt =====
-- `_trie_get` of src/trie.c on the paths of a trie, and its wildcards.
use mathlib.Core.Path.{subst}
use myclib.Prelude.{
  ℕ, ◌≡◌, ◌≢◌, refl, sym, ap, ◌∙◌, true, false, ◌&&◌, some, List, [], ◌∷◌, ◌==◌, if◌then◌else◌,
  arith, Bool-cases, inl, inr, ◌⊎◌,
}
use myclib.Trie.{
  Label, same, Forest, nil, tree, star, get_loop, trie_get, trie_get_domain, insert_label,
  trie_insert_arr, trie_insert_domain,
}
use myclib.Trie.Domain.{domain_arr_new-cons}
use myclib.Trie.Insert.{insert_label-lookup, insert_label-old}
use myclib.Trie.Paths.{same_comm, same_self, same_path, lookup, Lacks, Distinct, Lacks-same}

-- A value at the path itself is what `_trie_get` finds, whatever wildcards there are.
pub get_loop-lookup :
    (f : Forest) (key : Label) (domain : List Label) (w : ℕ)
    → lookup f key domain ≢ 0
    → (get_loop f key domain w).0 ≡ lookup f key domain
unfolding get_loop
get_loop-lookup nil key domain w h = absurd (h refl)
get_loop-lookup (tree k v c rest) key [] w h =
    ground (arith, get_loop-lookup rest key [] w, get_loop-lookup rest key [] v)
get_loop-lookup (tree k v c rest) key (x ∷ xs) w h = ground (
  arith,
  get_loop-lookup rest key (x ∷ xs) w,
  get_loop-lookup rest key (x ∷ xs) v,
  get_loop-lookup c x xs w,
)

-- `v` stands at the path, or at a child `*` of a node on the way.
abbrev pub Covers : ℕ → Forest → Label → List Label → Type 0
Covers v nil key domain = ⊥
Covers v (tree k x child rest) key domain =
    ((same k star ≡ true) × (x ≡ v))
    ⊎ ((same k key ≡ true) × (elim domain as (λ ls. Type 0) [
      | [] ↦ x ≡ v
      | key' ∷ domain' ↦ Covers v child key' domain'
    ]))
    ⊎ Covers v rest key domain

-- A result is the wildcard `w` that the loop was given, or stands in the trie.
abbrev pub Explained : ℕ → ℕ → Forest → Label → List Label → Type 0
Explained r w f key domain = (r ≡ w) ⊎ Covers r f key domain

module _ (r w : ℕ) (k : Label) (v : ℕ) (c rest : Forest) (key : Label) (domain : List Label) where
  from_rest : Explained r w rest key domain → Explained r w (tree k v c rest) key domain
  from_rest (inl e) = inl e
  from_rest (inr h) = inr (inr (inr h))

  from_star :
      same k star ≡ true
      → Explained r v rest key domain
      → Explained r w (tree k v c rest) key domain
  from_star s (inl e) = inr (inl (s, sym e))
  from_star s (inr h) = inr (inr (inr h))

by_equation :
    (f : Forest) (key : Label) (domain : List Label) (r' : ℕ) {r w : ℕ}
    → r ≡ r'
    → Explained r' w f key domain
    → Explained r w f key domain
by_equation f key domain r' {r} {w} e h = subst (λ x. Explained x w f key domain) (sym e) h

-- Where no child has the key, the loop only looks at the wildcards, whatever the array holds.
wildcards :
    (f : Forest) (key : Label) (left domain : List Label) (w : ℕ)
    → Lacks key f
    → Explained (get_loop f key left w).0 w f key domain
unfolding get_loop
wildcards nil key left domain w l = inl refl
wildcards (tree k v c rest) key left domain w l = elim (Bool-cases (same k star)) [
  | inl s ↦
      by_equation (tree k v c rest) key domain (get_loop rest key left v).0 (rw (l.0, s))
        (from_star _ w k v c rest key domain s (wildcards rest key left domain v l.1))
  | inr s ↦
      by_equation (tree k v c rest) key domain (get_loop rest key left w).0 (rw (l.0, s))
        (from_rest _ w k v c rest key domain (wildcards rest key left domain w l.1))
]

-- With different keys for siblings, what the loop returns is the wildcard that it was given, or stands
-- at the path or at a `*` on the way.
pub get_loop-Explained :
    (f : Forest) (key : Label) (domain : List Label) (w : ℕ)
    → Distinct f
    → Explained (get_loop f key domain w).0 w f key domain
unfolding get_loop
get_loop-Explained nil key domain w d = inl refl
get_loop-Explained (tree k v c rest) key [] w d = elim (Bool-cases (same k key)) [
  | inl e ↦ elim (Bool-cases (v == 0)) [
    | inl z ↦ by_equation (tree k v c rest) key [] w (rw (e, z)) (inl refl)
    | inr z ↦ by_equation (tree k v c rest) key [] v (rw (e, z)) (inr (inr (inl (e, refl))))
  ]
  | inr e ↦ elim (Bool-cases (same k star)) [
    | inl s ↦
        by_equation (tree k v c rest) key [] (get_loop rest key [] v).0 (rw (e, s))
          (from_star _ w k v c rest key [] s (get_loop-Explained rest key [] v d.2))
    | inr s ↦
        by_equation (tree k v c rest) key [] (get_loop rest key [] w).0 (rw (e, s))
          (from_rest _ w k v c rest key [] (get_loop-Explained rest key [] w d.2))
  ]
]
get_loop-Explained (tree k v c rest) key (x ∷ xs) w d = elim (Bool-cases (same k key)) [
  | inl e ↦
      let ret = (get_loop c x xs w).0 in
      let left = (get_loop c x xs w).1 in
      elim (Bool-cases (ret == 0 && w == 0)) [
        | inl z ↦
            by_equation (tree k v c rest) key (x ∷ xs) (get_loop rest key left w).0
              (simp (e, z) refl)
              (from_rest _ w k v c rest key (x ∷ xs)
                (wildcards rest key left (x ∷ xs) w (Lacks-same k key rest e d.0)))
        | inr z ↦ elim (Bool-cases (ret == 0)) [
          | inl y ↦ by_equation (tree k v c rest) key (x ∷ xs) w (ground arith) (inl refl)
          | inr y ↦
              by_equation (tree k v c rest) key (x ∷ xs) ret (simp (e, y) refl)
                (elim (get_loop-Explained c x xs w d.1) [
                  | inl h ↦ inl h
                  | inr h ↦ inr (inr (inl (e, h)))
                ])
        ]
      ]
  | inr e ↦ elim (Bool-cases (same k star)) [
    | inl s ↦
        by_equation (tree k v c rest) key (x ∷ xs) (get_loop rest key (x ∷ xs) v).0 (rw (e, s))
          (from_star _ w k v c rest key (x ∷ xs) s (get_loop-Explained rest key (x ∷ xs) v d.2))
    | inr s ↦
        by_equation (tree k v c rest) key (x ∷ xs) (get_loop rest key (x ∷ xs) w).0 (rw (e, s))
          (from_rest _ w k v c rest key (x ∷ xs) (get_loop-Explained rest key (x ∷ xs) w d.2))
  ]
]

-- A node without a value hides a wildcard among the siblings behind it, and not one among those before
-- it: what `_trie_get` finds depends on the order in which the domains were inserted.
pub get_loop_order :
    (key : Label) (c d : Forest) (v : ℕ)
    → same key star ≡ false
    → v ≢ 0
    → ((get_loop (tree key 0 c (tree star v d nil)) key [] 0).0 ≡ 0)
      × ((get_loop (tree star v d (tree key 0 c nil)) key [] 0).0 ≡ v)
unfolding get_loop
get_loop_order key c d v h n = ground (arith, same_self key, same_self star, same_comm key star)

-- In a trie with different keys for siblings, what `trie_get_domain` returns is `NULL`, or a value that
-- stands at the path of the domain or at a child `*` of a node on the way.
pub trie_get-Explained :
    (root : Forest) (key : Label) (domain : List Label)
    → Distinct root
    → (r : ℕ) × (trie_get root (key ∷ domain) ≡ some r) × Explained r 0 root key domain
unfolding trie_get
trie_get-Explained root key domain d =
    ((get_loop root key domain 0).0, refl, get_loop-Explained root key domain 0 d)

same_path_self : (key : Label) (domain : List Label) → same_path key domain key domain ≡ true
same_path_self key [] = same_self key
same_path_self key (x ∷ xs) = ground (arith, same_self key, same_path_self x xs)

-- After an insertion of a value that is not `NULL` at a domain, a lookup of this domain gives the value
-- that was there before, and the new one if there was none, whatever the trie and the domain are.
pub trie_get_domain-insert :
    (root : Forest) (value : ℕ) (domain : List ℕ)
    → value ≢ 0
    → (old : ℕ) × (root' : Forest) × (trie_insert_domain root value domain ≡ some (old, root'))
      × (trie_get_domain root' domain ≡ some (if old == 0 then value else old))
unfolding trie_insert_domain trie_insert_arr trie_get_domain trie_get
trie_get_domain-insert root value domain n =
    let (key, labels, e) = domain_arr_new-cons domain in
    let (old, root') = insert_label root key labels value in
    let there : lookup root' key labels ≡ (if old == 0 then value else old) = ground (
      arith,
      insert_label-lookup root key labels value key labels,
      insert_label-old root key labels value,
      same_path_self key labels,
    ) in
    let found : (get_loop root' key labels 0).0 ≡ (if old == 0 then value else old) =
      get_loop-lookup root' key labels 0 (λ z. ground arith) ∙ there in
    (old, root', simp e refl, simp e (ap some found))
