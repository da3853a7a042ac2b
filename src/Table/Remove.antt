-- ===== src/Table/Remove.antt =====
-- `table_remove` of src/table.c against the map that the table stands for.
use myclib.Prelude.{
  ℕ, ◌+◌, ◌-◌, ◌%◌, ◌^◌, ◌≡◌, ◌≢◌, refl, Bool, true, false, none, some, [], ◌∷◌, ◌==◌, arith,
  if◌then◌else◌, u32, length, All, inl, inr, Bool-cases,
}
use myclib.Table.{
  Ptr, null, Entry, Chain, Table, set_bucket, entry_find, value_of, unlink, table_remove,
}
use myclib.Table.View.{
  KeyLaws, count-set_bucket, set_bucket_keeps, total, view, Distinct, IsValid, update,
}
use myclib.Table.Put.{entry_find_congr}

-- What the loop of `table_remove` returns: the value that `entry_find` would lead to.
unlink-value :
    (same : Ptr → Ptr → Bool) (c : Chain) (k : Ptr)
    → (unlink same c k).0 ≡ value_of (entry_find same c k)
unfolding unlink entry_find
unlink-value same [] k = refl
unlink-value same (e ∷ c) k = ground (arith, unlink-value same c k)

unlink-found :
    (same : Ptr → Ptr → Bool) (c : Chain) (k : Ptr)
    → length (unlink same c k).2 + (if (unlink same c k).1 then 1 else 0) ≡ length c
unfolding unlink
unlink-found same [] k = refl
unlink-found same (e ∷ c) k = ground (arith, unlink-found same c k)

unlink_found :
    (same : Ptr → Ptr → Bool) (hash : Ptr → ℕ) (n i : ℕ) (c : Chain) (k : Ptr)
    → All (λ e. (hash e.key % n ≡ i) × (e.value ≢ null)) c
    → (unlink same c k).1 ≡ true
    → (unlink same c k).0 ≢ null
unfolding unlink
unlink_found same hash n i [] k all h = cc
unlink_found same hash n i (e ∷ c) k all h = ground (arith, unlink_found same hash n i c k)

unlink-All :
    (P : Entry → Type 0) (same : Ptr → Ptr → Bool) (c : Chain) (k : Ptr)
    → All P c
    → All P (unlink same c k).2
unfolding unlink
unlink-All P same [] k all = tt
unlink-All P same (e ∷ c) k all = elim (Bool-cases (same e.key k)) [
  | inl hit ↦ rw hit all.1
  | inr miss ↦ rw miss (all.0, unlink-All P same c k all.1)
]

module _ {same : Ptr → Ptr → Bool} {hash : Ptr → ℕ} (laws : KeyLaws same hash) where
  unlink_absent :
      (c : Chain) (k q : Ptr)
      → entry_find same c q ≡ none
      → entry_find same (unlink same c k).2 q ≡ none
  unfolding unlink entry_find
  unlink_absent [] k q h = refl
  unlink_absent (e ∷ c) k q h = ground (arith, unlink_absent c k q)

  unlink-find :
      (c : Chain) (k q : Ptr)
      → Distinct same hash c
      → entry_find same (unlink same c k).2 q ≡ (if same k q then none else entry_find same c q)
  unfolding unlink entry_find
  unlink-find [] k q d = ground arith
  unlink-find (e ∷ c) k q d = ground (
    arith,
    unlink-find c k q,
    laws.same_trans e.key k q,
    laws.same_trans k e.key q,
    laws.same_symm e.key k,
    laws.same_symm e.key q,
    laws.same_trans e.key q k,
    laws.same_symm k q,
    entry_find_congr laws c e.key q,
  )

  unlink-Distinct :
      (c : Chain) (k : Ptr) → Distinct same hash c → Distinct same hash (unlink same c k).2
  unfolding unlink
  unlink-Distinct [] k d = tt
  unlink-Distinct (e ∷ c) k d = elim (Bool-cases (same e.key k)) [
    | inl hit ↦ rw hit d.1
    | inr miss ↦ rw miss (unlink_absent c k e.key d.0, unlink-Distinct c k d.1)
  ]

  unlink_kept : (c : Chain) (k : Ptr) → (unlink same c k).1 ≡ false → entry_find same c k ≡ none
  unfolding unlink entry_find
  unlink_kept [] k h = refl
  unlink_kept (e ∷ c) k h = ground (arith, unlink_kept c k)

  -- `table_remove` at a key that is not `NULL` returns the value that the table held there, `NULL` if
  -- none; afterwards the table is valid and stands for the map without this key, every other key
  -- untouched, and it has one entry less exactly if there was a value.
  pub table_remove_lem :
      {tb : Table} (k : Ptr)
      → IsValid same hash tb
      → k ≢ null
      → (tb' : Table) × (table_remove same hash tb k ≡ some (view same hash tb k, tb'))
        × IsValid same hash tb'
        × ((q : Ptr) → view same hash tb' q ≡ update same (view same hash tb) k null q)
        × (total tb' + (if view same hash tb k == null then 0 else 1) ≡ total tb)
  unfolding table_remove
  table_remove_lem {tb} k valid nonnull =
      let i = hash k % tb.size in
      let old = tb.buckets i in
      let new = (unlink same old k).2 in
      let value = unlink-value same old k in
      let shorter = unlink-found same old k in
      let more = count-set_bucket tb.buckets new tb.size 0 i in
      elim (Bool-cases (unlink same old k).1) [
        | inr kept ↦
            let absent = unlink_kept old k kept in
            (
              tb,
              ground arith,
              valid,
              λ q. ground (arith, laws.hash-same k q, entry_find_congr laws old k q),
              ground arith,
            )
        | inl found ↦ (
          record tb {
            length = u32 (tb.length + 2 ^ 32 - 1);
            buckets = set_bucket tb.buckets i new;
          },
          ground arith,
          record {
            sized = valid.sized;
            placed =
                set_bucket_keeps (λ j. All (λ e. (hash e.key % tb.size ≡ j) × (e.value ≢ null)))
                  tb.buckets i new valid.placed (unlink-All _ same old k (valid.placed i));
            distinct =
                set_bucket_keeps (λ j. Distinct same hash) tb.buckets i new valid.distinct
                  (unlink-Distinct old k (valid.distinct i));
            counted = ground (arith, valid.counted, valid.sized);
          },
          λ q. ground (arith, laws.hash-same k q, unlink-find old k q (valid.distinct i)),
          ground (arith, valid.sized, unlink_found same hash tb.size i old k (valid.placed i)),
        )
      ]
