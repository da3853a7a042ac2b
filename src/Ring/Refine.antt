-- ===== src/Ring/Refine.antt =====
-- A valid ring of ring.h against the queue of the elements that it holds.
use myclib.Prelude.{
  ℕ, zero, suc, ◌+◌, ◌-◌, ◌*◌, ◌^◌, ◌≤◌, ◌<◌, ◌≡◌, refl, sym, some, List, [], ◌∷◌, ◌++◌, arith, ltb,
  ◌==◌, if◌then◌else◌, inl, inr, Bool-cases, ◌>>=◌, length, get_elem?, drop, length-append,
  length-drop, get_elem?-snoc, get_elem?-drop,
}
use myclib.Ring.{
  Ring, ring_new, make_room, advance, ring_push, ring_push_h, ring_tighten, walk, ring_for_each_idx,
}
use myclib.Ring.Bounds.{
  slot, IsValid, CanGrow, offset_in, ring_new-IsValid, expanded, ring_expand_lem, expanded-IsValid,
  ring_tighten-IsValid,
}

module _ {A : Type 0} where
  -- the ring is valid and its elements, the oldest first, are `xs`
  pub record Holds (r : Ring A) (xs : List A) : Type 0 where
    pub valid : IsValid r
    pub count : length xs ≡ r.nelts
    pub elements : (k : ℕ) → k < r.nelts → r.elts.cell (slot r k) ≡ get_elem? xs k

  expanded-Holds :
      {r : Ring A} {xs : List A} → Holds r xs → CanGrow r → r.nelts ≡ r.cap → Holds (expanded r) xs
  expanded-Holds {r} h g full = record {
    valid = expanded-IsValid h.valid g full;
    count = h.count;
    elements = λ k lt. ground (arith, h.elements k, h.valid.end_at, h.valid.begin_in);
  }

  -- what `make_room` leaves: the same elements, and room for one more
  make_room-Holds :
      {r : Ring A} {xs : List A}
      → Holds r xs
      → (r.nelts ≡ r.cap → CanGrow r)
      → (r' : Ring A) × (make_room r ≡ some r')
        × Holds r' xs
        × (r'.nelts < r'.cap)
        × (r'.size ≡ r.size)
  unfolding make_room
  make_room-Holds {r} h g = elim (Bool-cases (r.nelts == r.cap)) [
    | inl full ↦
        let e : r.nelts ≡ r.cap = ground arith in
        let v = h.valid in
        let pos : 0 < r.cap = omega arith in
        (
          expanded r,
          rw full (ring_expand_lem v (g e) e),
          expanded-Holds h (g e) e,
          omega arith,
          refl,
        )
    | inr more ↦ (r, rw more, h, ground (arith, h.valid.count_in), refl)
  ]

  -- the write of `ring_push_h` and of the client of `ring_push`, at the index before `advance`
  abbrev write_end : Ring A → A → Ring A
  write_end r v = record r {
    elts = record {
      room = r.elts.room;
      cell = λ k. if k == r.idx_end then some v else r.elts.cell k;
    };
  }

  advance-Holds :
      {r : Ring A} {xs : List A} (v : A)
      → Holds r xs
      → r.nelts < r.cap
      → Holds (advance (write_end r v)) (xs ++ v ∷ [])
  unfolding advance
  advance-Holds {r} {xs} v h lt =
      let i = h.valid in
      record {
        valid = ground arith;
        count = ground (arith, h.count, length-append xs (v ∷ []));
        elements = λ k below. ground (
          arith,
          h.count,
          h.elements k,
          get_elem?-snoc xs v k,
          i.end_at,
          i.begin_in,
          i.count_in,
          i.small,
        );
      }

  -- `ring_push_h` succeeds, and appends the element: at the end of the queue, with the ring doubled
  -- first if it was full. What it needs is that the doubling, when there is one, overflows nothing.
  pub ring_push_h-append :
      {r : Ring A} {xs : List A} (v : A)
      → Holds r xs
      → (r.nelts ≡ r.cap → CanGrow r)
      → (r' : Ring A) × (ring_push_h r v ≡ some r') × Holds r' (xs ++ v ∷ []) × (r'.size ≡ r.size)
  unfolding ring_push_h advance
  ring_push_h-append v h g =
      let (m, run, hm, lt, same) = make_room-Holds h g in
      (
        advance (write_end m v),
        rw (run, ◌>>=◌)
            (ground (
              arith,
              offset_in m.idx_end hm.valid,
              hm.valid.storage,
              hm.valid.end_at,
              hm.valid.begin_in,
            )),
        advance-Holds v hm lt,
        same,
      )

  -- `ring_push` succeeds, and the address that it returns lies in the storage: once the caller has
  -- written an element there, the ring holds the queue with this element appended.
  pub ring_push-append :
      {r : Ring A} {xs : List A} (v : A)
      → Holds r xs
      → (r.nelts ≡ r.cap → CanGrow r)
      → (i : ℕ) × (r' : Ring A) × (ring_push r ≡ some (i, r'))
        × (i < r'.elts.room)
        × Holds
            (record r' {
              elts = record {
                room = r'.elts.room;
                cell = λ k. if k == i then some v else r'.elts.cell k;
              };
            })
            (xs ++ v ∷ [])
  unfolding ring_push advance
  ring_push-append v h g =
      let (m, run, hm, lt, same) = make_room-Holds h g in
      (
        m.idx_end,
        advance m,
        rw (run, ◌>>=◌)
            (ground (
              arith,
              offset_in m.idx_end hm.valid,
              hm.valid.storage,
              hm.valid.end_at,
              hm.valid.begin_in,
            )),
        ground (arith, hm.valid.storage, hm.valid.end_at, hm.valid.begin_in),
        advance-Holds v hm lt,
      )

  -- `ring_tighten` drops the `step` oldest elements, all of them if there are fewer.
  pub ring_tighten-drop :
      {r : Ring A} {xs : List A} (step : ℕ)
      → Holds r xs
      → Holds (ring_tighten r step) (drop step xs)
  unfolding ring_tighten
  ring_tighten-drop {r} {xs} step h =
      let i = h.valid in
      record {
        valid = ring_tighten-IsValid step h.valid;
        count = ground (arith, h.count, length-drop step xs);
        elements = λ k below. ground (
          arith,
          h.elements (step + k),
          get_elem?-drop step xs k,
          i.end_at,
          i.begin_in,
          i.count_in,
          i.small,
        );
      }

  walk_lem :
      (r : Ring A) (n pos : ℕ) (xs : List A)
      → pos < r.cap
      → r.cap ≡ r.elts.room
      → n ≤ r.cap
      → length xs ≡ n
      → ((k : ℕ)
          → k < n
          → r.elts.cell (if ltb (pos + k) r.cap then pos + k else pos + k - r.cap) ≡ get_elem? xs k)
      → walk r n pos ≡ some xs
  unfolding walk
  walk_lem r zero pos [] p q le e h = refl
  walk_lem r zero pos (x ∷ xs) p q le e h = absurd (omega arith)
  walk_lem r (suc n) pos [] p q le e h = absurd (omega arith)
  walk_lem r (suc n) pos (x ∷ xs) p q le e h =
      let next : ℕ = if pos + 1 == r.cap then 0 else pos + 1 in
      let ih =
        walk_lem r n next xs (ground arith) q (omega arith) (omega arith)
          (λ k lt. ground (arith, h (suc k))) in
      rw (ih) (ground (arith, h 0))

  -- The loop of `ring_for_each_idx` reads no cell outside the storage and none that was never
  -- written, and it sees the elements in the order in which they were pushed.
  pub ring_for_each_idx-Holds :
      {r : Ring A} {xs : List A} → Holds r xs → ring_for_each_idx r ≡ some xs
  unfolding ring_for_each_idx
  ring_for_each_idx-Holds {r} {xs} h =
      walk_lem r r.nelts r.idx_begin xs h.valid.begin_in (sym h.valid.storage) h.valid.count_in
        h.count h.elements

  pub ring_new-Holds :
      (cap size : ℕ)
      → 0 < cap
      → 0 < size
      → cap * size < 2 ^ 32
      → cap ≤ 2 ^ 31
      → Holds (ring_new {A = A} cap size) []
  ring_new-Holds cap size p q f s = record {
    valid = ring_new-IsValid cap size p q f s;
    count = unfold ring_new in refl;
    elements = λ k lt. unfold ring_new in elim lt [ ];
  }
