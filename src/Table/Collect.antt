-- ===== src/Table/Collect.antt =====
-- `table_new`, `table_length`, `table_to_array` and `table_map` of src/table.c.
use myclib.Prelude.{
  ℕ, zero, suc, ◌+◌, ◌*◌, ◌^◌, ◌≤◌, ◌<◌, ◌≡◌, ◌⊎◌, refl, inl, inr, Bool-cases, Bool, some, List, [],
  ◌∷◌, ◌++◌, arith, length, All, map, append-nil, append_assoc, length-append, ◌>>=◌, ltb,
}
use myclib.Arr.{Arr, arr_new, arr_push}
use myclib.Arr.Contents.{Holds, arr_new-Holds}
use myclib.Arr.Push.{arr_push-room}
use myclib.Table.{
  Ptr, null, Entry, Chain, Table, int_max, primes, entry_find, bucket_count, table_new,
  table_length, put_value, push_chain, push_loop, table_to_array,
}
use myclib.Table.View.{count, total, view, IsValid}

count_empty : (n i : ℕ) → count (λ j. []) n i ≡ 0
unfolding count
count_empty zero i = refl
count_empty (suc n) i = omega (arith, count_empty n (i + 1))

-- the list goes up from `previous`, to at least `hint`
abbrev Rises : ℕ → ℕ → List ℕ → Type 0
Rises hint previous [] = hint ≤ previous
Rises hint previous (p ∷ ps) = (previous ≤ p) × Rises hint p ps

abbrev Chosen : ℕ → ℕ → List ℕ → Type 0
Chosen hint n ps = All (λ p. (p ≤ n) ⊎ (hint ≤ p)) ps

all_beyond : (hint n p : ℕ) (ps : List ℕ) → hint ≤ p → Rises hint p ps → Chosen hint n ps
all_beyond hint n p [] h r = tt
all_beyond hint n p (q ∷ ps) h r = (inr (omega arith), all_beyond hint n q ps (omega arith) r.1)

bucket_count_lem :
    (hint previous p : ℕ) (ps : List ℕ)
    → previous ≤ p
    → Rises hint p ps
    → (n : ℕ) × (bucket_count previous (p ∷ ps) hint ≡ some n)
      × ((n < hint) ⊎ (n ≡ previous))
      × (previous ≤ n)
      × Chosen hint n (p ∷ ps)
unfolding bucket_count
bucket_count_lem hint previous p [] le r =
    (previous, ground arith, inr refl, omega arith, (inr r, tt))
bucket_count_lem hint previous p (q ∷ ps) le r = elim (Bool-cases (ltb p hint)) [
  | inl more ↦
      let (n, run, below, up, chosen) = bucket_count_lem hint p q ps r.0 r.1 in
      (n, rw more run, ground arith, omega arith, (inl up, chosen))
  | inr done ↦
      let beyond : hint ≤ p = ground arith in
      (
        previous,
        rw done,
        inr refl,
        omega arith,
        (inr beyond, all_beyond hint previous p (q ∷ ps) beyond r),
      )
]

-- `table_new` at a hint that is an `int` makes a valid table with no entry. Its number of buckets is
-- the largest number of the list that is below the hint, and 1 where there is none.
pub table_new_lem :
    (same : Ptr → Ptr → Bool) (hash : Ptr → ℕ) (hint : ℕ)
    → hint ≤ int_max
    → (tb : Table) × (table_new hint ≡ some tb)
      × IsValid same hash tb
      × ((q : Ptr) → view same hash tb q ≡ null)
      × (total tb ≡ 0)
      × ((tb.size < hint) ⊎ (tb.size ≡ 1))
      × All (λ p. (p ≤ tb.size) ⊎ (hint ≤ p)) primes
unfolding table_new entry_find
table_new_lem same hash hint h =
    let (n, run, below, up, chosen) =
      bucket_count_lem hint 1 3
        (11 ∷ 509 ∷ 1021 ∷ 2053 ∷ 4093 ∷ 8191 ∷ 16381 ∷ 32771 ∷ 65521 ∷ int_max ∷ []) (omega arith)
        (omega arith) in
    (
      record { size = n; length = 0; buckets = λ i. [] },
      rw (run, ◌>>=◌) refl,
      record {
        sized = up;
        placed = λ i. tt;
        distinct = λ i. tt;
        counted = omega (arith, count_empty n 0);
      },
      λ q. refl,
      count_empty n 0,
      below,
      (inl up, chosen),
    )

-- `table_length` is the number of entries, as long as an `int` can hold it.
pub table_length-total :
    (same : Ptr → Ptr → Bool) (hash : Ptr → ℕ) {tb : Table}
    → IsValid same hash tb
    → total tb ≤ int_max
    → table_length tb ≡ total tb
unfolding table_length
table_length-total same hash valid h = omega (arith, valid.counted)

-- the values of the entries in `n` buckets from `i` on, bucket after bucket, each chain from its head
unfoldable pub values : (ℕ → Chain) → ℕ → ℕ → List Ptr
values buckets zero i = []
values buckets (suc n) i = map (λ e. e.value) (buckets i) ++ values buckets n (i + 1)

push_value-Holds :
    {a : Arr Ptr} {xs : List Ptr} (granted : Bool) (v : Ptr)
    → Holds a xs
    → a.nelts < a.nalloc
    → (a' : Arr Ptr) × ((arr_push granted a >>= put_value v) ≡ some a')
      × Holds a' (xs ++ v ∷ [])
      × (a'.nalloc ≡ a.nalloc)
unfolding put_value
push_value-Holds granted v h lt =
    let (p, m, run, inside, held, same) = arr_push-room granted v h lt in
    (_, rw (run, ◌>>=◌) (ground arith), held, same)

push_chain-Holds :
    (granted : Bool) (c : Chain) {a : Arr Ptr} {xs : List Ptr}
    → Holds a xs
    → length xs + length c ≤ a.nalloc
    → (a' : Arr Ptr) × (push_chain granted c a ≡ some a')
      × Holds a' (xs ++ map (λ e. e.value) c)
      × (a'.nalloc ≡ a.nalloc)
unfolding push_chain
push_chain-Holds granted [] {a} {xs} h room = (a, refl, rw append-nil h, refl)
push_chain-Holds granted (e ∷ c) {a} {xs} h room =
    let (m, run, held, same) = push_value-Holds granted e.value h (omega (arith, h.count)) in
    let (a', run', held', same') =
      push_chain-Holds granted c held (omega (arith, length-append xs (e.value ∷ []))) in
    (a', rw (run, ◌>>=◌) run', rw append_assoc at held', omega arith)

push_loop-Holds :
    (granted : Bool) (n i : ℕ) (buckets : ℕ → Chain) {a : Arr Ptr} {xs : List Ptr}
    → Holds a xs
    → length xs + count buckets n i ≤ a.nalloc
    → (a' : Arr Ptr) × (push_loop granted n i buckets a ≡ some a')
      × Holds a' (xs ++ values buckets n i)
unfolding push_loop count values
push_loop-Holds granted zero i buckets {a} h room = (a, refl, rw append-nil h)
push_loop-Holds granted (suc n) i buckets {a} {xs} h room =
    let (m, run, held, same) = push_chain-Holds granted (buckets i) h (omega arith) in
    let (a', run', held') = push_loop-Holds granted n (i + 1) buckets held (
      omega
        (arith, length-append xs (map (λ e. e.value) (buckets i)), length-values (buckets i))) in
    (a', rw (run, ◌>>=◌) run', rw append_assoc at held')
  where
    length-values : (c : Chain) → length (map (λ (e : Entry). e.value) c) ≡ length c
    length-values [] = refl
    length-values (e ∷ c) = omega (arith, length-values c)

-- `table_to_array` succeeds, and the array that it returns holds the values of all entries, bucket
-- after bucket; it allocates only once, so that a later failure of `malloc` does not matter. The
-- bytes of the array must fit an `unsigned int`.
pub table_to_array-values :
    (same : Ptr → Ptr → Bool) (hash : Ptr → ℕ) (granted : Bool) {tb : Table}
    → IsValid same hash tb
    → total tb * 8 < 2 ^ 32
    → (a : Arr Ptr) × (table_to_array granted tb ≡ some a) × Holds a (values tb.buckets tb.size 0)
unfolding table_to_array
table_to_array-values same hash granted {tb} valid small =
    let size : tb.length ≡ total tb = omega (arith, valid.counted) in
    push_loop-Holds granted tb.size 0 tb.buckets
      (arr_new-Holds tb.length 8 (omega arith) (omega arith)) (unfold arr_new in omega arith)
