-- ===== src/Table/Destroy.antt =====
-- `table_free` of src/table.c over the addresses of the entries.
use myclib.Prelude.{
  ◌≡◌, ◌≢◌, refl, All, Bool, true, false, Option, none, some, List, [], ◌∷◌, ◌==◌, arith,
  if◌then◌else◌, check, ◌>>=◌,
}
use myclib.Table.{Ptr, null}

-- which addresses `malloc` has handed out and `free` has not taken back
abbrev pub Heap : Type 0
Heap = Ptr → Bool

-- `free(p)`: nothing at `NULL`, a fault at an address that is not allocated.
abbrev pub free : Ptr → Heap → Option Heap
free p h = if p == null then some h else check (h p) (some (λ q. if q == p then false else h q))

-- the address of the first entry of a chain, that of each entry in order
abbrev pub head : List Ptr → Ptr
head [] = null
head (p ∷ rest) = p

-- `for (entry = bucket->entrys; entry; entry = tmp) { tmp = entry->next; free(tmp); }`: the read of
-- `entry->next` is a fault where the entry is not allocated.
unfoldable pub free_chain : List Ptr → Heap → Option Heap
free_chain [] h = some h
free_chain (p ∷ rest) h = check (h p) (free (head rest) h >>= free_chain rest)

unfoldable pub free_buckets : List (List Ptr) → Heap → Option Heap
unfolding free_chain
free_buckets [] h = some h
free_buckets (c ∷ cs) h = free_chain c h >>= free_buckets cs

abbrev Allocated : Heap → List Ptr → Type 0
Allocated h = All (λ p. (p ≢ null) × (h p ≡ true))

-- no chain has two entries
abbrev pub short : List (List Ptr) → Bool
short [] = true
short ([] ∷ cs) = short cs
short ((p ∷ []) ∷ cs) = short cs
short ((p ∷ q ∷ rest) ∷ cs) = false

-- Where all entries are allocated, the loops of `table_free` run into a read of a freed entry as soon
-- as one chain has two entries; and where no chain has two they end with no entry freed at all.
pub free_buckets_lem :
    (cs : List (List Ptr)) (h : Heap)
    → All (Allocated h) cs
    → free_buckets cs h ≡ (if short cs then some h else none)
unfolding free_buckets
free_buckets_lem [] h live = refl
free_buckets_lem ([] ∷ cs) h live = free_buckets_lem cs h live.1
free_buckets_lem ((p ∷ []) ∷ cs) h live = rw (live.0.0.1, ◌>>=◌) (free_buckets_lem cs h live.1)
free_buckets_lem ((p ∷ q ∷ rest) ∷ cs) h live = ground (arith, live.0)
