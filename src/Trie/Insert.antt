-- ===== src/Trie/Insert.antt =====
-- `trie_insert_arr` of src/trie.c on the paths of a trie.
use myclib.Prelude.{
  ℕ, ◌≡◌, refl, ap, ◌∙◌, false, some, List, [], ◌∷◌, ◌==◌, if◌then◌else◌, arith, Bool-cases, inl,
  inr,
}
use myclib.Trie.{Label, same, Forest, nil, tree, branch, insert_label, trie_insert_arr}
use myclib.Trie.Paths.{same_comm, Lacks, Distinct, same_path, lookup, same-via, same_other}

branch-lookup :
    (key : Label) (domain : List Label) (value : ℕ) (key' : Label) (domain' : List Label)
    → lookup (branch key domain value) key' domain'
      ≡ (if same_path key domain key' domain' then value else 0)
unfolding branch
branch-lookup key [] value key' [] = ground arith
branch-lookup key [] value key' (y ∷ ys) = ground arith
branch-lookup key (x ∷ xs) value key' [] = ground arith
branch-lookup key (x ∷ xs) value key' (y ∷ ys) = ground (arith, branch-lookup x xs value y ys)

-- the map after an insertion
abbrev pub inserted : Forest → Label → List Label → ℕ → Label → List Label → ℕ
inserted f key domain value key' domain' =
    if same_path key domain key' domain'
    then (if lookup f key domain == 0 then value else lookup f key domain)
    else lookup f key' domain'

pub insert_label-old :
    (f : Forest) (key : Label) (domain : List Label) (value : ℕ)
    → (insert_label f key domain value).0 ≡ lookup f key domain
unfolding insert_label
insert_label-old nil key domain value = refl
insert_label-old (tree k v c rest) key [] value = ground (arith, insert_label-old rest key [] value)
insert_label-old (tree k v c rest) key (x ∷ xs) value =
    ground (arith, insert_label-old rest key (x ∷ xs) value, insert_label-old c x xs value)

pub insert_label-lookup :
    (f : Forest) (key : Label) (domain : List Label) (value : ℕ) (key' : Label)
    (domain' : List Label)
    → lookup (insert_label f key domain value).1 key' domain'
      ≡ inserted f key domain value key' domain'
unfolding insert_label
insert_label-lookup nil key domain value key' domain' = branch-lookup key domain value key' domain'
insert_label-lookup (tree k v c rest) key [] value key' [] = ground (
  arith,
  insert_label-lookup rest key [] value key' [],
  same-via k key key',
  same_other k key key',
)
insert_label-lookup (tree k v c rest) key [] value key' (y ∷ ys) = ground (
  arith,
  insert_label-lookup rest key [] value key' (y ∷ ys),
  same-via k key key',
  same_other k key key',
)
insert_label-lookup (tree k v c rest) key (x ∷ xs) value key' [] = ground (
  arith,
  insert_label-lookup rest key (x ∷ xs) value key' [],
  same-via k key key',
  same_other k key key',
)
insert_label-lookup (tree k v c rest) key (x ∷ xs) value key' (y ∷ ys) = ground (
  arith,
  insert_label-lookup rest key (x ∷ xs) value key' (y ∷ ys),
  insert_label-lookup c x xs value y ys,
  same-via k key key',
  same_other k key key',
)

branch-Distinct :
    (key : Label) (domain : List Label) (value : ℕ) → Distinct (branch key domain value)
unfolding branch
branch-Distinct key [] value = (tt, tt, tt)
branch-Distinct key (x ∷ xs) value = (tt, branch-Distinct x xs value, tt)

Lacks-insert_label :
    (f : Forest) (k key : Label) (domain : List Label) (value : ℕ)
    → same key k ≡ false
    → Lacks k f
    → Lacks k (insert_label f key domain value).1
unfolding insert_label branch
Lacks-insert_label nil k key [] value h l = (h, tt)
Lacks-insert_label nil k key (x ∷ xs) value h l = (h, tt)
Lacks-insert_label (tree k' v c rest) k key [] value h l = elim (Bool-cases (same k' key)) [
  | inl e ↦ simp e l
  | inr e ↦ simp e (l.0, Lacks-insert_label rest k key [] value h l.1)
]
Lacks-insert_label (tree k' v c rest) k key (x ∷ xs) value h l = elim (Bool-cases (same k' key)) [
  | inl e ↦ simp e l
  | inr e ↦ simp e (l.0, Lacks-insert_label rest k key (x ∷ xs) value h l.1)
]

-- An insertion keeps the keys of siblings different.
pub insert_label-Distinct :
    (f : Forest) (key : Label) (domain : List Label) (value : ℕ)
    → Distinct f
    → Distinct (insert_label f key domain value).1
unfolding insert_label
insert_label-Distinct nil key domain value d = branch-Distinct key domain value
insert_label-Distinct (tree k v c rest) key [] value d = elim (Bool-cases (same k key)) [
  | inl e ↦ simp e d
  | inr e ↦ simp e (
    Lacks-insert_label rest k key [] value (same_comm key k ∙ e) d.0,
    d.1,
    insert_label-Distinct rest key [] value d.2,
  )
]
insert_label-Distinct (tree k v c rest) key (x ∷ xs) value d = elim (Bool-cases (same k key)) [
  | inl e ↦ simp e (d.0, insert_label-Distinct c x xs value d.1, d.2)
  | inr e ↦ simp e (
    Lacks-insert_label rest k key (x ∷ xs) value (same_comm key k ∙ e) d.0,
    d.1,
    insert_label-Distinct rest key (x ∷ xs) value d.2,
  )
]

-- `trie_insert_arr` returns what the trie held at the path. Where this was `NULL`, the trie stands
-- afterwards for the map with the value at this path, else for the same map; the siblings keep different
-- keys.
pub trie_insert_arr_lem :
    (root : Forest) (value : ℕ) (key : Label) (domain : List Label)
    → Distinct root
    → (root' : Forest) × (trie_insert_arr root value (key ∷ domain)
        ≡ some (lookup root key domain, root'))
      × ((key' : Label) (domain' : List Label)
          → lookup root' key' domain' ≡ inserted root key domain value key' domain')
      × Distinct root'
unfolding trie_insert_arr
trie_insert_arr_lem root value key domain d =
    let (old, root') = insert_label root key domain value in
    (
      root',
      ap (λ o. some (o, root')) (insert_label-old root key domain value),
      insert_label-lookup root key domain value,
      insert_label-Distinct root key domain value d,
    )
