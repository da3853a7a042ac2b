-- ===== src/Trie/Remove.antt =====
-- `_trie_remove` of src/trie.c on the paths of a trie, and the values that it loses.
use myclib.Prelude.{
  ℕ, ◌≡◌, refl, sym, ap, ◌∙◌, Bool, true, false, ◌&&◌, List, [], ◌∷◌, if◌then◌else◌, arith,
}
use myclib.Trie.{Label, same, Forest, nil, tree, kept_value, prune, remove_label}
use myclib.Trie.Paths.{same-eq, same_comm, lookup, Lacks, Distinct, same-via, same_other}

-- `_trie_remove` returns the value at the path.
pub remove_label-old :
    (f : Forest) (key : Label) (domain : List Label)
    → (remove_label f key domain).0 ≡ lookup f key domain
unfolding remove_label
remove_label-old nil key domain = refl
remove_label-old (tree k v c rest) key [] = ground (arith, remove_label-old rest key [])
remove_label-old (tree k v c rest) key (x ∷ xs) =
    ground (arith, remove_label-old rest key (x ∷ xs), remove_label-old c x xs)

lookup-Lacks :
    (f : Forest) (key key' : Label) (domain : List Label)
    → same key key' ≡ true
    → Lacks key f
    → lookup f key' domain ≡ 0
lookup-Lacks nil key key' domain h l = refl
lookup-Lacks (tree k v c rest) key key' domain h l =
    let other : same k key' ≡ false = ap (λ x. same k x) (sym (same-eq key key' h)) ∙ l.0 in
    rw other (lookup-Lacks rest key key' domain h l.1)

-- A pruned node is as good as one without a value.
prune-lookup :
    (left : List Label) (k : Label) (v : ℕ) (child rest : Forest) (key' : Label)
    (domain' : List Label)
    → Lacks k rest
    → lookup (prune left k v child rest) key' domain'
      ≡ lookup (tree k (kept_value left v) child rest) key' domain'
unfolding prune
prune-lookup left k v nil rest key' [] l = ground (arith, lookup-Lacks rest k key' [])
prune-lookup left k v nil rest key' (y ∷ ys) l = ground (arith, lookup-Lacks rest k key' (y ∷ ys))
prune-lookup left k v (tree k' v' c r) rest key' domain' l = refl

-- whether the path `a`, `xs` is a beginning of the path `b`, `ys`
abbrev pub begins : Label → List Label → Label → List Label → Bool
begins a [] b ys = same a b
begins a (x ∷ xs) b [] = false
begins a (x ∷ xs) b (y ∷ ys) = same a b && begins x xs y ys

-- The path is in the trie.
abbrev pub there : Forest → Label → List Label → Bool
there nil key domain = false
there (tree k value child rest) key domain =
    let later = there rest key domain in
    if same k key
    then (elim domain [ [] ↦ true | key' ∷ domain' ↦ there child key' domain' ])
    else later

-- The array is empty when `_trie_remove` returns from a path that is in the trie.
remove_label-left :
    (f : Forest) (key : Label) (domain : List Label)
    → there f key domain ≡ true
    → (remove_label f key domain).1 ≡ []
unfolding remove_label
remove_label-left nil key domain h = cc
remove_label-left (tree k v c rest) key [] h = ground (arith, remove_label-left rest key [])
remove_label-left (tree k v c rest) key (x ∷ xs) h =
    ground (arith, remove_label-left rest key (x ∷ xs), remove_label-left c x xs)

-- In a trie with different keys for siblings, removing a path that is there leaves the map without all
-- values on the way: at the path itself, and at every beginning of it. All other values stay.
pub remove_label-lookup :
    (f : Forest) (key : Label) (domain : List Label) (key' : Label) (domain' : List Label)
    → Distinct f
    → there f key domain ≡ true
    → lookup (remove_label f key domain).2 key' domain'
      ≡ (if begins key' domain' key domain then 0 else lookup f key' domain')
unfolding remove_label
remove_label-lookup nil key domain key' domain' d h = cc
remove_label-lookup (tree k v c rest) key [] key' [] d h = ground (
  arith,
  prune-lookup [] k v c rest key' [],
  remove_label-lookup rest key [] key' [],
  same_comm key' key,
  same-via k key key',
  same_other k key key',
  same-via k key' key,
)
remove_label-lookup (tree k v c rest) key [] key' (y ∷ ys) d h = ground (
  arith,
  prune-lookup [] k v c rest key' (y ∷ ys),
  remove_label-lookup rest key [] key' (y ∷ ys),
  same_comm key' key,
  same-via k key key',
  same_other k key key',
  same-via k key' key,
)
remove_label-lookup (tree k v c rest) key (x ∷ xs) key' [] d h = ground (
  arith,
  prune-lookup (remove_label c x xs).1 k v (remove_label c x xs).2 rest key' [],
  remove_label-lookup rest key (x ∷ xs) key' [],
  same_comm key' key,
  same-via k key key',
  same_other k key key',
  same-via k key' key,
  remove_label-left c x xs,
)
remove_label-lookup (tree k v c rest) key (x ∷ xs) key' (y ∷ ys) d h = ground (
  arith,
  prune-lookup (remove_label c x xs).1 k v (remove_label c x xs).2 rest key' (y ∷ ys),
  remove_label-lookup rest key (x ∷ xs) key' (y ∷ ys),
  same_comm key' key,
  same-via k key key',
  same_other k key key',
  same-via k key' key,
  remove_label-left c x xs,
  remove_label-lookup c x xs y ys,
)
