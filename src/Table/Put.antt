-- ===== src/Table/Put.antt =====
-- `table_put` and `table_get` of src/table.c against the map that the table stands for.
use myclib.Prelude.{
  ℕ, ◌+◌, ◌%◌, ◌≡◌, ◌≢◌, refl, inl, inr, Bool-cases, Bool, true, false, none, some, [], ◌∷◌, ◌==◌,
  arith, if◌then◌else◌, All,
}
use myclib.Table.{Ptr, null, Chain, Table, entry_find, value_of, table_put, table_get}
use myclib.Table.View.{
  KeyLaws, count-set_bucket, set_bucket_keeps, total, view, Distinct, IsValid, update,
}

-- An entry that is found has a value, where all entries have one.
pub entry_find-none :
    (same : Ptr → Ptr → Bool) (hash : Ptr → ℕ) (n i : ℕ) (c : Chain) (k : Ptr)
    → All (λ e. (hash e.key % n ≡ i) × (e.value ≢ null)) c
    → value_of (entry_find same c k) ≡ null
    → entry_find same c k ≡ none
unfolding entry_find
entry_find-none same hash n i [] k all h = refl
entry_find-none same hash n i (e ∷ c) k all h = ground (arith, entry_find-none same hash n i c k)

module _ {same : Ptr → Ptr → Bool} {hash : Ptr → ℕ} (laws : KeyLaws same hash) where
  pub entry_find_congr :
      (c : Chain) (a b : Ptr) → same a b ≡ true → entry_find same c a ≡ entry_find same c b
  unfolding entry_find
  entry_find_congr [] a b h = refl
  entry_find_congr (e ∷ c) a b h = ground (
    arith,
    entry_find_congr c a b,
    laws.same_trans e.key a b,
    laws.same_trans e.key b a,
    laws.same_symm a b,
  )

  table_put-present :
      (tb : Table) (k v : Ptr)
      → (view same hash tb k == null) ≡ false
      → table_put same hash tb k v ≡ (view same hash tb k, tb)
  unfolding table_put
  table_put-present tb k v h = ground arith

  table_put-absent :
      {tb : Table} (k v : Ptr)
      → IsValid same hash tb
      → view same hash tb k ≡ null
      → v ≢ null
      → let (ret, tb') = table_put same hash tb k v in
        (ret ≡ null)
        × IsValid same hash tb'
        × ((q : Ptr) → view same hash tb' q ≡ update same (view same hash tb) k v q)
        × (total tb' ≡ total tb + 1)
  unfolding table_put entry_find
  table_put-absent {tb} k v valid absent value =
      let i = hash k % tb.size in
      let old = tb.buckets i in
      let new : Chain = record { key = k; value = v } ∷ old in
      let none_there = entry_find-none same hash tb.size i old k (valid.placed i) absent in
      let more = count-set_bucket tb.buckets new tb.size 0 i in
      rw absent (
        refl,
        record {
          sized = valid.sized;
          placed =
              set_bucket_keeps (λ j. All (λ e. (hash e.key % tb.size ≡ j) × (e.value ≢ null)))
                tb.buckets i new valid.placed ((refl, value), valid.placed i);
          distinct =
              set_bucket_keeps (λ j. Distinct same hash) tb.buckets i new valid.distinct
                (none_there, valid.distinct i);
          counted = ground (arith, valid.counted, valid.sized, more);
        },
        λ q. ground (arith, laws.hash-same k q),
        ground (arith, valid.sized, more),
      )

  -- `table_put` with a value that is not `NULL` keeps the table valid and returns what the map holds
  -- at the key. If this is `NULL`, afterwards the table stands for the map with the value at this key
  -- and every other key untouched, and it has one entry more; otherwise nothing has changed.
  pub table_put_lem :
      {tb : Table} (k v : Ptr)
      → IsValid same hash tb
      → v ≢ null
      → let f = view same hash tb in
        let (ret, tb') = table_put same hash tb k v in
        (ret ≡ f k)
        × IsValid same hash tb'
        × ((q : Ptr) → view same hash tb' q ≡ (if f k == null then update same f k v q else f q))
        × (total tb' ≡ total tb + (if f k == null then 1 else 0))
  table_put_lem {tb} k v valid value = elim (Bool-cases (view same hash tb k == null)) [
    | inl absent ↦
        let (ret, valid', reads, more) = table_put-absent k v valid (ground arith) value in
        (ground arith, valid', rw absent reads, rw absent more)
    | inr present ↦
        rw (table_put-present tb k v present) (refl, valid, λ q. ground arith, ground arith)
  ]

  -- `table_get` returns what the map holds at the key, unless the key is `NULL`.
  pub table_get-view :
      (tb : Table) (k : Ptr) → k ≢ null → table_get same hash tb k ≡ some (view same hash tb k)
  unfolding table_get
  table_get-view tb k h = ground arith

  -- `table_put` of `NULL` at a key that the table holds no value for adds an entry each time, which no
  -- `table_get` can tell from an absent one: the map is as before and the entries are one more.
  pub table_put-null :
      {tb : Table} (k : Ptr)
      → IsValid same hash tb
      → view same hash tb k ≡ null
      → let (ret, tb') = table_put same hash tb k null in
        (ret ≡ null)
        × ((q : Ptr) → view same hash tb' q ≡ view same hash tb q)
        × (total tb' ≡ total tb + 1)
  unfolding table_put entry_find
  table_put-null {tb} k valid absent =
      let i = hash k % tb.size in
      let new : Chain = record { key = k; value = null } ∷ tb.buckets i in
      let more = count-set_bucket tb.buckets new tb.size 0 i in
      rw absent (
        refl,
        λ q. ground (arith, laws.hash-same k q, entry_find_congr (tb.buckets i) k q),
        ground (arith, valid.sized, more),
      )
