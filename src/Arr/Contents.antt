-- ===== src/Arr/Contents.antt =====
-- A valid array of src/arr.c against the list of its elements: push, pop and iteration.
use myclib.Prelude.{
  ℕ, zero, suc, ◌+◌, ◌-◌, ◌*◌, ◌^◌, ◌≤◌, ◌<◌, ◌≡◌, refl, none, some, List, [], ◌∷◌, ◌++◌, arith,
  Block, load, length, get_elem?, length-append, get_elem?-snoc,
}
use myclib.Arr.{Arr, cells, arr_new, arr_pop, walk, arr_for_each}

pub cells_lem : (n size : ℕ) → 0 < size → n * size < 2 ^ 32 → cells n size ≡ n
unfolding cells
cells_lem n size p h = grind arith

pub record IsValid {A : Type 0} (a : Arr A) : Type 0 where
  pub sized : 0 < a.size
  pub fits : a.nalloc * a.size < 2 ^ 32
  pub storage : a.elts.room ≡ a.nalloc
  pub count_in : a.nelts ≤ a.nalloc

-- the array is valid and its elements are `xs`
pub record Holds {A : Type 0} (a : Arr A) (xs : List A) : Type 0 where
  pub valid : IsValid a
  pub count : length xs ≡ a.nelts
  pub elements : (k : ℕ) → k < a.nelts → a.elts.cell k ≡ get_elem? xs k

module _ {A : Type 0} where
  pub cells_in : {a : Arr A} (i : ℕ) → IsValid a → i ≤ a.nalloc → cells i a.size ≡ i
  cells_in {a} i v h = cells_lem i a.size v.sized (grind (arith, v.fits))

  pub arr_new-Holds :
      (n size : ℕ) → 0 < size → n * size < 2 ^ 32 → Holds (arr_new {A = A} n size) []
  unfolding arr_new
  arr_new-Holds n size p h = record {
    valid = record { sized = p; fits = h; storage = cells_lem n size p h; count_in = omega arith };
    count = refl;
    elements = λ k lt. elim lt [ ];
  }

  -- `arr_pop` returns a pointer to the last element, and the array is left with the others.
  pub arr_pop-snoc :
      {a : Arr A} {xs : List A} (v : A)
      → Holds a (xs ++ v ∷ [])
      → (p : ℕ) × (a' : Arr A) × (arr_pop a ≡ some (p, a'))
        × (load a'.elts p ≡ some v)
        × Holds a' xs
  unfolding arr_pop
  arr_pop-snoc {a} {xs} v h =
      let i = h.valid in
      let last : a.nelts ≡ length xs + 1 = omega (arith, h.count, length-append xs (v ∷ [])) in
      let at = cells_in (a.nelts - 1) i (omega arith) in
      (
        cells (a.nelts - 1) a.size,
        record a { nelts = a.nelts - 1 },
        ground arith,
        ground (arith, h.elements (length xs), get_elem?-snoc xs v (length xs)),
        record {
          valid = record {
            sized = i.sized;
            fits = i.fits;
            storage = i.storage;
            count_in = omega arith;
          };
          count = omega arith;
          elements = λ k lt. ground (arith, h.elements k, get_elem?-snoc xs v k);
        },
      )

  -- `arr_pop` at an empty array is a failed assertion.
  pub arr_pop-nil : {a : Arr A} → Holds a [] → arr_pop a ≡ none
  unfolding arr_pop
  arr_pop-nil h = ground (arith, h.count)

  walk_lem :
      (b : Block A) (n pos : ℕ) (xs : List A)
      → pos + n ≤ b.room
      → length xs ≡ n
      → ((k : ℕ) → k < n → b.cell (pos + k) ≡ get_elem? xs k)
      → walk b n pos ≡ some xs
  unfolding walk
  walk_lem b zero pos [] p e h = refl
  walk_lem b zero pos (x ∷ xs) p e h = absurd (omega arith)
  walk_lem b (suc n) pos [] p e h = absurd (omega arith)
  walk_lem b (suc n) pos (x ∷ xs) p e h =
      rw (walk_lem b n (pos + 1) xs (omega arith) (omega arith) (λ k lt. ground (arith, h (suc k))))
        (ground (arith, h 0))

  -- `arr_for_each` reads only cells in the storage that were written, and sees the elements in order.
  pub arr_for_each-Holds : {a : Arr A} {xs : List A} → Holds a xs → arr_for_each a ≡ some xs
  unfolding arr_for_each
  arr_for_each-Holds {a} {xs} h =
      walk_lem a.elts a.nelts 0 xs (omega (arith, h.valid.storage, h.valid.count_in)) h.count
        (λ k lt. ground (arith, h.elements k))
