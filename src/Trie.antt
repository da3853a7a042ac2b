-- ===== src/Trie.antt =====
-- src/trie.c and include/trie.h: a trie of domain names, with values at its nodes.
-- The children of a node are a forest: the first child, its own children, and the children behind it.
-- The root is its children. A string is the list of its bytes before the 0. A domain array is the list
-- of its labels in the order in which `arr_pop` takes them, the last label of the domain first. A value
-- is a pointer, 0 for `NULL`. Allocations succeed. A failed `assert` or a pop of an empty array is a
-- fault, `none`.
pub mod Domain
pub mod Paths
pub mod Insert
pub mod Get
pub mod Remove
mod Examples
use mathlib.Core.List.{reverse}
use myclib.Prelude.{
  ℕ, zero, suc, Bool, true, false, ◌&&◌, Option, none, some, List, [], ◌∷◌, ◌++◌, ◌==◌,
  if◌then◌else◌,
}

abbrev pub Label : Type 0
Label = List ℕ

-- `strcmp(a, b) == 0`
abbrev pub same : Label → Label → Bool
same [] [] = true
same [] (d ∷ ds) = false
same (c ∷ cs) [] = false
same (c ∷ cs) (d ∷ ds) = c == d && same cs ds

-- `child` of a `trie_node_t`
pub data Forest : Type 0 where
  nil : Forest
  tree : (key : Label) (value : ℕ) (child rest : Forest) → Forest

abbrev pub star : Label
star = b'*' ∷ []

-- The loop of `domain_arr_new`: the labels of what is left of the string, in order, with the bytes of
-- the current label read so far in front of its first.
pub split : List ℕ → List Label
split [] = [] ∷ []
split (c ∷ cs) =
    let later = split cs in
    if c == b'.'
    then [] ∷ later
    else elim later [ [] ↦ (c ∷ []) ∷ [] | label ∷ labels ↦ (c ∷ label) ∷ labels ]

unfoldable pub domain_arr_new : List ℕ → List Label
unfolding split
domain_arr_new domain = reverse (split domain)

-- `ret == NULL ? wildcard_value : ret`
abbrev pub or_wildcard : ℕ → ℕ → ℕ
or_wildcard ret wildcard_value = if ret == 0 then wildcard_value else ret

-- The loop of `_trie_get` over the children that are left, for a label that was popped. The second part
-- of the result is the array, which the call leaves shorter.
pub get_loop : Forest → Label → List Label → ℕ → ℕ × List Label
get_loop nil key domain wildcard_value = (wildcard_value, domain)
get_loop (tree k value child rest) key domain wildcard_value =
    let next = get_loop rest key domain wildcard_value in
    let wild = get_loop rest key domain value in
    if same k key
    then (elim domain [
      | [] ↦ (or_wildcard value wildcard_value, [])
      | key' ∷ domain' ↦
          let (ret, left) = get_loop child key' domain' wildcard_value in
          let again = get_loop rest key left wildcard_value in
          if ret == 0 && wildcard_value == 0 then again else (or_wildcard ret wildcard_value, left)
    ])
    else if same k star
    then wild
    else next

unfoldable pub trie_get : Forest → List Label → Option ℕ
unfolding get_loop
trie_get root [] = none
trie_get root (key ∷ domain) = some (get_loop root key domain 0).0

unfoldable pub trie_get_domain : Forest → List ℕ → Option ℕ
unfolding trie_get domain_arr_new
trie_get_domain root domain = trie_get root (domain_arr_new domain)

-- The nodes that `trie_insert_arr` makes below a node without children.
pub branch : Label → List Label → ℕ → Forest
branch key [] value = tree key value nil nil
branch key (key' ∷ domain) value = tree key 0 (branch key' domain value) nil

-- `trie_insert_arr` for a label that was popped: the old value, and the children.
pub insert_label : Forest → Label → List Label → ℕ → ℕ × Forest
insert_label nil key domain value = (0, branch key domain value)
insert_label (tree k old child rest) key domain value =
    let (old', rest') = insert_label rest key domain value in
    if same k key
    then (elim domain [
      | [] ↦ (old, tree k (if old == 0 then value else old) child rest)
      | key' ∷ domain' ↦
          let (old'', child') = insert_label child key' domain' value in
          (old'', tree k old child' rest)
    ])
    else (old', tree k old child rest')

unfoldable pub trie_insert_arr : Forest → ℕ → List Label → Option (ℕ × Forest)
unfolding insert_label branch
trie_insert_arr root value [] = none
trie_insert_arr root value (key ∷ domain) = some (insert_label root key domain value)

unfoldable pub trie_insert_domain : Forest → ℕ → List ℕ → Option (ℕ × Forest)
unfolding trie_insert_arr domain_arr_new
trie_insert_domain root value domain = trie_insert_arr root value (domain_arr_new domain)

abbrev pub is_nil : Forest → Bool
is_nil nil = true
is_nil (tree k value child rest) = false

-- The value of the child that was found once `_trie_remove` returns to it: `NULL` if the array is empty.
abbrev pub kept_value : List Label → ℕ → ℕ
kept_value [] value = 0
kept_value (label ∷ left) value = value

-- The end of `_trie_remove` at the child that was found, with the array and the child as they are then.
pub prune : List Label → Label → ℕ → Forest → Forest → Forest
prune left k value child rest =
    if is_nil child && kept_value left value == 0
    then rest
    else tree k (kept_value left value) child rest

-- `_trie_remove` for a label that was popped: the result, the array, and the children.
pub remove_label : Forest → Label → List Label → ℕ × List Label × Forest
remove_label nil key domain = (0, domain, nil)
remove_label (tree k value child rest) key domain =
    let (ret, left, rest') = remove_label rest key domain in
    if same k key
    then (elim domain [
      | [] ↦ (value, [], prune [] k value child rest)
      | key' ∷ domain' ↦
          let (ret', left', child') = remove_label child key' domain' in
          (ret', left', prune left' k value child' rest)
    ])
    else (ret, left, tree k value child rest')

unfoldable pub trie_remove : Forest → List Label → Option (ℕ × Forest)
unfolding remove_label prune
trie_remove root [] = none
trie_remove root (key ∷ domain) =
    let (ret, left, root') = remove_label root key domain in some (ret, root')

unfoldable pub trie_remove_domain : Forest → List ℕ → Option (ℕ × Forest)
unfolding trie_remove domain_arr_new
trie_remove_domain root domain = trie_remove root (domain_arr_new domain)

-- The values that `trie_map` hands to its callback, in order. The callback leaves the trie alone.
pub trie_map : Forest → List ℕ
trie_map nil = []
trie_map (tree k value child rest) =
    (if value == 0 then [] else value ∷ []) ++ trie_map child ++ trie_map rest
