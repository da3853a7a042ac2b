-- ===== src/Arr/Push.antt =====
-- A valid array of src/arr.c against the list of its elements: `arr_push`.
use myclib.Prelude.{
  ℕ, ◌+◌, ◌-◌, ◌*◌, ◌/◌, u32, ◌^◌, ◌≤◌, ◌<◌, ◌≡◌, refl, true, false, inl, inr, none, some, Bool,
  List, [], ◌∷◌, ◌++◌, arith, ltb, ◌==◌, if◌then◌else◌, Bool-cases, ◌>>=◌, length-append,
  get_elem?-snoc,
}
use myclib.Arr.{Arr, grow, take_slot, arr_push}
use myclib.Arr.Contents.{IsValid, Holds, cells_in}

div_exact : (m s : ℕ) → 0 < s → m * s / s ≡ m
div_exact m s p = grind arith

-- The sizes that `arr_push` computes when it doubles the storage.
bytes_lem : (s n : ℕ) → 0 < s → n * 2 * s < 2 ^ 32 → u32 (s * n) / s ≡ n
bytes_lem s n p h = grind arith

twice_bytes : (s n : ℕ) → 0 < s → n * 2 * s < 2 ^ 32 → u32 (2 * u32 (s * n)) / s ≡ n * 2
twice_bytes s n p h =
    let e : u32 (2 * u32 (s * n)) ≡ n * 2 * s = omega arith in rw e (div_exact (n * 2) s p)

twice_lt : (s n : ℕ) → 0 < s → n * 2 * s < 2 ^ 32 → n * 2 < 2 ^ 32
twice_lt s n p h = grind arith

module _ {A : Type 0} where
  nalloc_lt : (a : Arr A) → 0 < a.size → a.nalloc * a.size < 2 ^ 32 → a.nalloc < 2 ^ 32
  nalloc_lt a p h = grind arith

  -- the array after the caller of `arr_push` has written an element through the returned pointer
  abbrev pub written : Arr A → ℕ → A → Arr A
  written a p v = record a {
    elts = record { room = a.elts.room; cell = λ k. if k == p then some v else a.elts.cell k };
  }

  -- the array that `grow` makes
  abbrev grown : Arr A → Arr A
  grown a = record a {
    elts = record {
      room = 2 * a.nalloc;
      cell = λ k. if ltb k a.nalloc then a.elts.cell (0 + (k - 0)) else none;
    };
    nalloc = a.nalloc * 2;
  }

  grow-Holds :
      {a : Arr A} {xs : List A}
      → Holds a xs
      → a.nalloc * 2 * a.size < 2 ^ 32
      → (a' : Arr A) × (grow a ≡ some a')
        × Holds a' xs
        × (a'.nalloc ≡ a.nalloc * 2)
        × (a'.nelts ≡ a.nelts)
  unfolding grow
  grow-Holds {a} {xs} h g =
      let v = h.valid in
      let small = twice_lt a.size a.nalloc v.sized g in
      (
        grown a,
        ground (arith, bytes_lem a.size a.nalloc v.sized g, twice_bytes a.size a.nalloc v.sized g),
        record {
          valid = record {
            sized = v.sized;
            fits = g;
            storage = omega arith;
            count_in = omega arith;
          };
          count = h.count;
          elements = λ k lt. ground (arith, h.elements k);
        },
        refl,
        refl,
      )

  take_slot-Holds :
      {a : Arr A} {xs : List A} (v : A)
      → Holds a xs
      → a.nelts < a.nalloc
      → let (p, a') = take_slot a in (p < a'.elts.room) × Holds (written a' p v) (xs ++ v ∷ [])
  unfolding take_slot
  take_slot-Holds {a} {xs} v h lt =
      let i = h.valid in
      let at = cells_in a.nelts i i.count_in in
      let small : a.nalloc < 2 ^ 32 = nalloc_lt a i.sized i.fits in
      (
        omega arith,
        record {
          valid = ground arith;
          count = ground (arith, h.count, length-append xs (v ∷ []));
          elements = λ k below. ground (arith, h.count, h.elements k, get_elem?-snoc xs v k);
        },
      )

  -- `arr_push` at an array with room, or with storage that can double: it succeeds when `malloc`
  -- does, the returned pointer lies in the storage, and once the caller has written an element
  -- there the array holds the list with this element appended.
  pub arr_push-append :
      {a : Arr A} {xs : List A} (v : A)
      → Holds a xs
      → 0 < a.nalloc
      → (a.nelts ≡ a.nalloc → a.nalloc * 2 * a.size < 2 ^ 32)
      → (p : ℕ) × (a' : Arr A) × (arr_push true a ≡ some (some p, a'))
        × (p < a'.elts.room)
        × Holds (written a' p v) (xs ++ v ∷ [])
  unfolding arr_push
  arr_push-append {a} v h pos g = elim (Bool-cases (a.nelts == a.nalloc)) [
    | inl full ↦
        let e : a.nelts ≡ a.nalloc = ground arith in
        let (m, run, hm, room, same) = grow-Holds h (g e) in
        let (inside, held) = take_slot-Holds v hm (omega arith) in
        ((take_slot m).0, (take_slot m).1, rw (full, run, ◌>>=◌) refl, inside, held)
    | inr more ↦
        let (inside, held) = take_slot-Holds v h (ground (arith, h.valid.count_in)) in
        ((take_slot a).0, (take_slot a).1, rw more refl, inside, held)
  ]

  -- With no memory for a full array `arr_push` returns `NULL` and changes nothing.
  pub arr_push-null : (a : Arr A) → a.nelts ≡ a.nalloc → arr_push false a ≡ some (none, a)
  unfolding arr_push
  arr_push-null a e = ground arith

  -- An array that was made for no element is never given storage: doubling 0 leaves 0, so that the
  -- pointer that `arr_push` returns lies outside the storage.
  pub arr_push-empty_room :
      {a : Arr A}
      → IsValid a
      → a.nalloc ≡ 0
      → (p : ℕ) × (a' : Arr A) × (arr_push true a ≡ some (some p, a')) × (a'.elts.room ≤ p)
  unfolding arr_push
  arr_push-empty_room {a} v e =
      let (m, run, hm, room, same) =
        grow-Holds {a = a} {xs = []}
          (record { valid = v; count = omega arith; elements = λ k lt. absurd (omega arith) })
          (grind arith) in
      ((take_slot m).0, (take_slot m).1, rw run (ground arith), omega (arith, hm.valid.storage))

  -- With room for one more element `arr_push` allocates nothing.
  pub arr_push-room :
      {a : Arr A} {xs : List A} (granted : Bool) (v : A)
      → Holds a xs
      → a.nelts < a.nalloc
      → (p : ℕ) × (a' : Arr A) × (arr_push granted a ≡ some (some p, a'))
        × (p < a'.elts.room)
        × Holds (written a' p v) (xs ++ v ∷ [])
        × (a'.nalloc ≡ a.nalloc)
  unfolding arr_push
  arr_push-room {a} granted v h lt =
      let (inside, held) = take_slot-Holds v h lt in
      ((take_slot a).0, (take_slot a).1, ground arith, inside, held, unfold take_slot in refl)
