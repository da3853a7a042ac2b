-- ===== src/Prelude/Slices.antt =====
-- Parts of lists: what is taken, dropped and read, from one list or from two in a row.
use Prim.Native.Nat.{ℕ, zero, suc, ◌+◌, ◌≤◌, ◌<◌}
use mathlib.Core.Path.{◌≡◌, refl, sym, ap, ◌∙◌}
use mathlib.Core.List.{List, [], ◌∷◌, ◌++◌}
use mathlib.Core.Option.{some}
use native.Mathlib.Omega.{arith}
use myclib.Prelude.Lists.{length, take, drop, get_elem?}

module _ {ℓ} {A : Type ℓ} where
  pub take-ext :
      (n : ℕ) (xs ys : List A)
      → n ≤ length xs
      → n ≤ length ys
      → ((k : ℕ) → k < n → get_elem? xs k ≡ get_elem? ys k)
      → take n xs ≡ take n ys
  take-ext zero xs ys h k same = refl
  take-ext (suc n) [] ys h k same = absurd (omega arith)
  take-ext (suc n) (x ∷ xs) [] h k same = absurd (omega arith)
  take-ext (suc n) (x ∷ xs) (y ∷ ys) h k same =
      let tails =
        take-ext n xs ys (omega arith) (omega arith) (λ i lt. same (suc i) (omega arith)) in
      let heads : some x ≡ some y = same 0 (omega arith) in cc

  pub take-snoc :
      (n : ℕ) (xs : List A) (x : A)
      → get_elem? xs n ≡ some x
      → take (suc n) xs ≡ take n xs ++ x ∷ []
  take-snoc zero [] x h = cc
  take-snoc zero (y ∷ xs) x h = cc
  take-snoc (suc n) [] x h = cc
  take-snoc (suc n) (y ∷ xs) x h = ap (λ zs. y ∷ zs) (take-snoc n xs x h)

  drop-nil : (n : ℕ) → drop {A = A} n [] ≡ []
  drop-nil zero = refl
  drop-nil (suc n) = refl

  pub drop-drop : (a b : ℕ) (xs : List A) → drop b (drop a xs) ≡ drop (a + b) xs
  drop-drop zero b xs = let e : 0 + b ≡ b = omega arith in rw e refl
  drop-drop (suc a) b [] = drop-nil b ∙ sym (drop-nil (suc a + b))
  drop-drop (suc a) b (x ∷ xs) =
      let e : suc a + b ≡ suc (a + b) = omega arith in rw e (drop-drop a b xs)

  pub drop_step :
      (p : ℕ) (xs : List A) (x : A) → get_elem? xs p ≡ some x → drop p xs ≡ x ∷ drop (p + 1) xs
  drop_step zero [] x h = cc
  drop_step zero (y ∷ xs) x h = let e : y ≡ x = cc in rw e refl
  drop_step (suc p) [] x h = cc
  drop_step (suc p) (y ∷ xs) x h =
      let e : suc p + 1 ≡ suc (p + 1) = omega arith in rw e (drop_step p xs x h)

  pub take_all : (n : ℕ) (xs : List A) → length xs ≤ n → take n xs ≡ xs
  take_all zero [] h = refl
  take_all zero (x ∷ xs) h = absurd (omega arith)
  take_all (suc n) [] h = refl
  take_all (suc n) (x ∷ xs) h = ap (λ ys. x ∷ ys) (take_all n xs (omega arith))

  pub drop_all : (n : ℕ) (xs : List A) → length xs ≤ n → drop n xs ≡ []
  drop_all zero [] h = refl
  drop_all zero (x ∷ xs) h = absurd (omega arith)
  drop_all (suc n) [] h = refl
  drop_all (suc n) (x ∷ xs) h = drop_all n xs (omega arith)

  pub get_elem?-some : (p : ℕ) (xs : List A) → p < length xs → (x : A) × (get_elem? xs p ≡ some x)
  get_elem?-some p [] h = absurd (omega arith)
  get_elem?-some zero (x ∷ xs) h = (x, refl)
  get_elem?-some (suc p) (x ∷ xs) h = get_elem?-some p xs (omega arith)

module _ {ℓ} {A : Type ℓ} where
  pub get_elem?-append :
      (xs ys : List A) (k : ℕ) → k < length xs → get_elem? (xs ++ ys) k ≡ get_elem? xs k
  get_elem?-append [] ys k h = absurd (omega arith)
  get_elem?-append (x ∷ xs) ys zero h = refl
  get_elem?-append (x ∷ xs) ys (suc k) h = get_elem?-append xs ys k (omega arith)

  pub get_elem?-append_right :
      (xs ys : List A) (k : ℕ) → get_elem? (xs ++ ys) (length xs + k) ≡ get_elem? ys k
  get_elem?-append_right [] ys k = let e : 0 + k ≡ k = omega arith in rw e refl
  get_elem?-append_right (x ∷ xs) ys k =
      let e : suc (length xs) + k ≡ suc (length xs + k) = omega arith in
      rw e (get_elem?-append_right xs ys k)

  pub take-append : (xs ys : List A) → take (length xs) (xs ++ ys) ≡ xs
  take-append [] ys = refl
  take-append (x ∷ xs) ys = ap (λ zs. x ∷ zs) (take-append xs ys)

  pub drop-append : (xs ys : List A) → drop (length xs) (xs ++ ys) ≡ ys
  drop-append [] ys = refl
  drop-append (x ∷ xs) ys = drop-append xs ys
