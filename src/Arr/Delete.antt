-- ===== src/Arr/Delete.antt =====
-- `arr_del` of src/arr.c against the list of the elements.
use myclib.Prelude.{
  ℕ, zero, suc, ◌+◌, ◌-◌, ◌≤◌, ◌<◌, ◌≡◌, refl, Bool, false, ◌||◌, inl, inr, some, List, [], ◌∷◌,
  arith, ltb, leb, ◌&&◌, if◌then◌else◌, Bool-cases, length, get_elem?, cells-cons,
}
use myclib.Arr.{Arr, del_loop, arr_del}
use myclib.Arr.Contents.{cells_in, Holds}

module _ {A : Type 0} (same : A → Bool) where
  unfoldable pub contains : List A → Bool
  contains [] = false
  contains (x ∷ xs) = same x || contains xs

  -- without the first element that is the same
  unfoldable pub erase : List A → List A
  erase [] = []
  erase (x ∷ xs) = if same x then xs else x ∷ erase xs

  length-erase : (xs : List A) → length (erase xs) + (if contains xs then 1 else 0) ≡ length xs
  unfolding contains erase
  length-erase [] = refl
  length-erase (x ∷ xs) = ground (arith, length-erase xs)

  -- what the loop has done when it stops, with the elements `xs` left at `p`
  record Deleted (a : Arr A) (p : ℕ) (xs : List A) (a' : Arr A) : Type 0 where
    size : a'.size ≡ a.size
    nalloc : a'.nalloc ≡ a.nalloc
    room : a'.elts.room ≡ a.elts.room
    count : a'.nelts ≡ p + length (erase xs)
    before : (k : ℕ) → k < p → a'.elts.cell k ≡ a.elts.cell k
    after : (k : ℕ) → k < length (erase xs) → a'.elts.cell (p + k) ≡ get_elem? (erase xs) k

  del_loop-Deleted :
      (a : Arr A) (n p : ℕ) (xs : List A)
      → length xs ≡ n
      → a.nelts ≡ p + n
      → a.nelts ≤ a.elts.room
      → ((k : ℕ) → k < n → a.elts.cell (p + k) ≡ get_elem? xs k)
      → (a' : Arr A) × (del_loop same a n p ≡ some (contains xs, a')) × Deleted a p xs a'
  unfolding del_loop contains erase
  del_loop-Deleted a zero p [] e c r h = (
    a,
    refl,
    record {
      size = refl;
      nalloc = refl;
      room = refl;
      count = c;
      before = λ k lt. refl;
      after = λ k lt. elim lt [ ];
    },
  )
  del_loop-Deleted a zero p (x ∷ xs) e c r h = absurd (omega arith)
  del_loop-Deleted a (suc n) p [] e c r h = absurd (omega arith)
  del_loop-Deleted a (suc n) p (x ∷ xs) e c r h = elim (Bool-cases (same x)) [
    | inl hit ↦ (
      record a {
        elts = record a.elts {
          cell = λ k.
              if leb p k && ltb k (p + n) then a.elts.cell (p + 1 + (k - p)) else a.elts.cell k;
        };
        nelts = a.nelts - 1;
      },
      ground (arith, h 0),
      record {
        size = refl;
        nalloc = refl;
        room = refl;
        count = rw hit (omega arith);
        before = λ k lt. ground arith;
        after = rw hit (λ k lt. ground (arith, h (suc k)));
      },
    )
    | inr miss ↦
        let (a', run, d) =
          del_loop-Deleted a n (p + 1) xs (omega arith) (omega arith) r
            (λ k lt. ground (arith, h (suc k))) in
        (
          a',
          ground (arith, h 0),
          record {
            size = d.size;
            nalloc = d.nalloc;
            room = d.room;
            count = rw miss (omega (arith, d.count));
            before = λ k lt. d.before k (omega arith);
            after =
                rw miss (
                  cells-cons a'.elts.cell p x (erase xs) (ground (arith, h 0, d.before p)) d.after);
          },
        )
  ]

  -- `arr_del` removes the first element that `cmp` finds the same, says whether there was one, and
  -- keeps the other elements in order.
  pub arr_del-erase :
      {a : Arr A} {xs : List A}
      → Holds a xs
      → (a' : Arr A) × (arr_del same a ≡ some (contains xs, a')) × Holds a' (erase xs)
  unfolding arr_del
  arr_del-erase {a} {xs} h =
      let i = h.valid in
      let (a', run, d) =
        del_loop-Deleted a a.nelts 0 xs h.count (omega arith) (omega arith)
          (λ k lt. ground (arith, h.elements k)) in
      (
        a',
        rw (cells_in a.nelts i i.count_in) run,
        record {
          valid = record {
            sized = rw d.size i.sized;
            fits = rw (d.size, d.nalloc) i.fits;
            storage = omega (arith, d.room, d.nalloc);
            count_in = omega (arith, d.count, d.nalloc, length-erase xs, h.count);
          };
          count = omega (arith, d.count);
          elements = λ k lt. ground (arith, d.after k, d.count);
        },
      )
