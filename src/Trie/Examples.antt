-- ===== src/Trie/Examples.antt =====
-- The functions of src/trie.c at a trie of a few domains.
use myclib.Prelude.{ℕ, ◌≡◌, refl, some, List, [], ◌∷◌, ◌==◌, if◌then◌else◌, arith}
use myclib.Trie.{
  Label, Forest, nil, tree, star, trie_get, trie_get_domain, trie_insert_arr, trie_insert_domain,
  remove_label, trie_remove_domain, trie_map,
}
use myclib.Trie.Paths.{lookup, Distinct}
use myclib.Trie.Insert.{inserted, trie_insert_arr_lem}
use myclib.Trie.Get.{Explained, trie_get-Explained, trie_get_domain-insert}
use myclib.Trie.Remove.{begins, remove_label-lookup}

abbrev co : Label
co = b'c' ∷ b'o' ∷ []

abbrev www : Label
www = b'w' ∷ []

-- `co` with the value 1, `*.co` with 2 and `w.co` with 3
abbrev domains : Forest
domains = tree co 1 (tree star 2 nil (tree www 3 nil nil)) nil

get_wildcard : trie_get_domain domains (b'x' ∷ b'.' ∷ b'c' ∷ b'o' ∷ []) ≡ some 2
unfolding trie_get_domain
get_wildcard = refl

-- Removing `w.co` loses the value of `co`.
remove_run :
    trie_remove_domain domains (b'w' ∷ b'.' ∷ b'c' ∷ b'o' ∷ [])
    ≡ some (3, tree co 0 (tree star 2 nil nil) nil)
unfolding trie_remove_domain
remove_run = refl

map_run : trie_map domains ≡ 1 ∷ 2 ∷ 3 ∷ []
unfolding trie_map
map_run = refl

domains-Distinct : Distinct domains
domains-Distinct = (tt, ((refl, tt), tt, (tt, tt, tt)), tt)

trie_insert_arr_lem_example :
    (root' : Forest) × (trie_insert_arr domains 9 (co ∷ (b'y' ∷ []) ∷ []) ≡ some (0, root'))
    × ((key' : Label) (domain' : List Label)
        → lookup root' key' domain' ≡ inserted domains co ((b'y' ∷ []) ∷ []) 9 key' domain')
    × Distinct root'
trie_insert_arr_lem_example = trie_insert_arr_lem domains 9 co ((b'y' ∷ []) ∷ []) domains-Distinct

trie_get-Explained_example :
    (r : ℕ) × (trie_get domains (co ∷ www ∷ []) ≡ some r) × Explained r 0 domains co (www ∷ [])
trie_get-Explained_example = trie_get-Explained domains co (www ∷ []) domains-Distinct

trie_get_domain-insert_example :
    (old : ℕ) × (root' : Forest) × (trie_insert_domain domains 9 (b'y' ∷ b'.' ∷ b'c' ∷ b'o' ∷ [])
      ≡ some (old, root'))
    × (trie_get_domain root' (b'y' ∷ b'.' ∷ b'c' ∷ b'o' ∷ []) ≡ some (if old == 0 then 9 else old))
trie_get_domain-insert_example =
    trie_get_domain-insert domains 9 (b'y' ∷ b'.' ∷ b'c' ∷ b'o' ∷ []) (omega arith)

remove_label-lookup_example :
    lookup (remove_label domains co (www ∷ [])).2 co []
    ≡ (if begins co [] co (www ∷ []) then 0 else lookup domains co [])
remove_label-lookup_example = remove_label-lookup domains co (www ∷ []) co [] domains-Distinct refl
