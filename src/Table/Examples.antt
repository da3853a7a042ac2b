-- ===== src/Table/Examples.antt =====
-- The functions of src/table.c at a table of three buckets, with the keys of its own test: numbers
-- that are compared and hashed as they are, as `cmp_int` and `hash_int` do.
use myclib.Prelude.{
  ℕ, zero, suc, ◌+◌, ◌*◌, ◌%◌, ◌^◌, ◌≡◌, ◌≢◌, refl, Bool, true, none, some, List, [], ◌∷◌, arith,
  ◌==◌, if◌then◌else◌, ◌>>=◌, All,
}
use myclib.Table.{
  Ptr, null, Entry, Chain, Table, entry_find, unlink, table_put, table_get, table_remove,
}
use myclib.Table.View.{Distinct, KeyLaws, IsValid, total, count, view, update}
use myclib.Table.Put.{table_put_lem}
use myclib.Table.Remove.{table_remove_lem}
use myclib.Table.Destroy.{Heap, free_buckets, free_buckets_lem}

abbrev cmp_int : Ptr → Ptr → Bool
cmp_int a b = a == b

abbrev hash_int : Ptr → ℕ
hash_int a = a % 2 ^ 32

int_laws : KeyLaws cmp_int hash_int
int_laws = record {
  same_refl = λ a. ground arith;
  same_symm = λ a b. ground arith;
  same_trans = λ a b c p q. ground arith;
  hash-same = λ a b p. ground arith;
}

abbrev entry : Ptr → Ptr → Entry
entry k v = record { key = k; value = v }

-- the keys 4 and 1 share a bucket
abbrev chains : ℕ → Chain
chains zero = []
chains (suc zero) = entry 4 40 ∷ entry 1 10 ∷ []
chains (suc (suc zero)) = entry 2 20 ∷ []
chains (suc (suc (suc i))) = []

abbrev table : Table
table = record { size = 3; length = 3; buckets = chains }

table-placed : (i : ℕ) → All (λ e. (hash_int e.key % 3 ≡ i) × (e.value ≢ null)) (chains i)
table-placed zero = tt
table-placed (suc zero) = omega arith
table-placed (suc (suc zero)) = omega arith
table-placed (suc (suc (suc i))) = tt

table-Distinct : (i : ℕ) → Distinct cmp_int hash_int (chains i)
unfolding entry_find
table-Distinct zero = tt
table-Distinct (suc zero) = (refl, (refl, tt))
table-Distinct (suc (suc zero)) = (refl, tt)
table-Distinct (suc (suc (suc i))) = tt

table-IsValid : IsValid cmp_int hash_int table
unfolding count
table-IsValid = record {
  sized = omega arith;
  placed = table-placed;
  distinct = table-Distinct;
  counted = refl;
}

-- the map of the table, at each key
abbrev held : Ptr → Ptr
held = view cmp_int hash_int table

-- a removal from the middle of a chain
remove_and_get :
    (table_remove cmp_int hash_int table 1 >>= λ (ret, tb). table_get cmp_int hash_int tb 4)
    ≡ some 40
unfolding table_remove unlink table_get entry_find
remove_and_get = refl

-- a new key in the bucket of 4 and 1
table_put_lem_example :
    let (ret, tb) = table_put cmp_int hash_int table 7 70 in
    (ret ≡ held 7)
    × IsValid cmp_int hash_int tb
    × ((q : Ptr)
        → view cmp_int hash_int tb q
          ≡ (if held 7 == null then update cmp_int held 7 70 q else held q))
    × (total tb ≡ total table + (if held 7 == null then 1 else 0))
table_put_lem_example = table_put_lem int_laws 7 70 table-IsValid (omega arith)

table_remove_lem_example :
    (tb : Table) × (table_remove cmp_int hash_int table 1 ≡ some (10, tb))
    × IsValid cmp_int hash_int tb
    × ((q : Ptr) → view cmp_int hash_int tb q ≡ update cmp_int held 1 null q)
    × (total tb + 1 ≡ 3)
unfolding entry_find count
table_remove_lem_example = table_remove_lem int_laws 1 table-IsValid (omega arith)

-- each value is doubled, and the keys are collected
abbrev visit : Ptr → Ptr → List Ptr → Ptr × List Ptr
visit k v seen = (v * 2, k ∷ seen)

-- every address is allocated
abbrev heap : Heap
heap p = true

free_buckets_lem_example : free_buckets ((5 ∷ []) ∷ (6 ∷ 7 ∷ []) ∷ []) heap ≡ none
free_buckets_lem_example = free_buckets_lem ((5 ∷ []) ∷ (6 ∷ 7 ∷ []) ∷ []) heap (ground arith)
