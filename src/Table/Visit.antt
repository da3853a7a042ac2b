-- ===== src/Table/Visit.antt =====
-- `table_map` of src/table.c: the order in which the entries are visited, and what is kept.
use myclib.Prelude.{ℕ, zero, suc, ◌+◌, ◌<◌, ◌≡◌, refl, [], ◌∷◌, ◌++◌, arith, ◌∙◌, ap, map}
use myclib.Table.{Ptr, Chain, Table, set_bucket, map_chain, map_loop, table_map}

-- the entries of `n` buckets from `i` on, bucket after bucket, each chain from its head
unfoldable pub entries : (ℕ → Chain) → ℕ → ℕ → Chain
entries buckets zero i = []
entries buckets (suc n) i = buckets i ++ entries buckets n (i + 1)

entries_outside :
    (buckets : ℕ → Chain) (c : Chain) (n i j : ℕ)
    → j < i
    → entries (set_bucket buckets j c) n i ≡ entries buckets n i
unfolding entries
entries_outside buckets c zero i j h = refl
entries_outside buckets c (suc n) i j h = ground (arith, entries_outside buckets c n (i + 1) j)

module _ {S : Type 0} (apply : Ptr → Ptr → S → Ptr × S) where
  map_chain-append :
      (c d : Chain) (cl : S)
      → let (c', cl') = map_chain apply c cl in
        let (d', cl'') = map_chain apply d cl' in map_chain apply (c ++ d) cl ≡ (c' ++ d', cl'')
  unfolding map_chain
  map_chain-append [] d cl = refl
  map_chain-append (e ∷ c) d cl =
      let cl' = (apply e.key e.value cl).1 in rw (map_chain-append c d cl')

  map_loop_lem :
      (n i : ℕ) (buckets : ℕ → Chain) (cl : S)
      → let (after, cl') = map_loop apply n i buckets cl in
        ((entries after n i, cl') ≡ map_chain apply (entries buckets n i) cl)
        × ((j : ℕ) → j < i → after j ≡ buckets j)
  unfolding map_loop map_chain entries
  map_loop_lem zero i buckets cl = (refl, λ j lt. refl)
  map_loop_lem (suc n) i buckets cl =
      let (c, cl') = map_chain apply (buckets i) cl in
      let (rest, kept) = map_loop_lem n (i + 1) (set_bucket buckets i c) cl' in
      let later = entries_outside buckets c n (i + 1) i (omega arith) in
      let here = kept i (omega arith) in
      (
        ground
            (arith, map_chain-append (buckets i) (entries buckets n (i + 1)) cl, rest, later, here),
        λ j lt. ground (arith, kept j),
      )

  map_chain-keys :
      (c : Chain) (cl : S) → map (λ e. e.key) (map_chain apply c cl).0 ≡ map (λ e. e.key) c
  unfolding map_chain
  map_chain-keys [] cl = refl
  map_chain-keys (e ∷ c) cl = ap (λ r. e.key ∷ r) (map_chain-keys c (apply e.key e.value cl).1)

  -- `table_map` calls `apply` once for each entry, bucket after bucket and each chain from its head,
  -- handing the caller's data from call to call; each value is replaced by what its call leaves, and
  -- the keys, their order and the fields of the table stay.
  pub table_map_lem :
      (tb : Table) (cl : S)
      → let all = entries tb.buckets tb.size 0 in
        let (tb', cl') = table_map apply tb cl in
        let after = entries tb'.buckets tb'.size 0 in
        ((after, cl') ≡ map_chain apply all cl)
        × (map (λ e. e.key) after ≡ map (λ e. e.key) all)
        × (tb'.size ≡ tb.size)
        × (tb'.length ≡ tb.length)
  unfolding table_map
  table_map_lem tb cl =
      let (same, kept) = map_loop_lem tb.size 0 tb.buckets cl in
      (
        same,
        ap (λ p. map (λ e. e.key) p.0) same ∙ map_chain-keys (entries tb.buckets tb.size 0) cl,
        refl,
        refl,
      )
