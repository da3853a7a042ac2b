-- ===== src/Prelude/Lists.antt =====
-- Lists measured and indexed by native numbers, under the library's names.
use Prim.Native.Nat.{ℕ, zero, suc, ◌+◌, ◌-◌, ◌≤◌, ◌<◌}
use mathlib.Core.Path.{◌≡◌, refl, ap}
use mathlib.Core.List.{List, [], ◌∷◌, ◌++◌, map, reverse_aux}
use mathlib.Core.Logic.{◌⊎◌, inl, inr}
use mathlib.Core.Option.{Option, none, some}
use native.Mathlib.Omega.{arith}
use myclib.Prelude.Tests.{◌==◌, if◌then◌else◌}

module _ {ℓ} {A : Type ℓ} where
  abbrev pub length : List A → ℕ
  length [] = 0
  length (x ∷ xs) = suc (length xs)

  abbrev pub get_elem? : List A → ℕ → Option A
  get_elem? [] i = none
  get_elem? (x ∷ xs) zero = some x
  get_elem? (x ∷ xs) (suc i) = get_elem? xs i

  abbrev pub take : ℕ → List A → List A
  take zero xs = []
  take (suc n) [] = []
  take (suc n) (x ∷ xs) = x ∷ take n xs

  abbrev pub drop : ℕ → List A → List A
  drop zero xs = xs
  drop (suc n) [] = []
  drop (suc n) (x ∷ xs) = drop n xs

  pub length-append : (xs ys : List A) → length (xs ++ ys) ≡ length xs + length ys
  length-append [] ys = omega arith
  length-append (x ∷ xs) ys = omega (arith, length-append xs ys)

  pub length-take : (n : ℕ) (xs : List A) → n ≤ length xs → length (take n xs) ≡ n
  length-take zero xs h = refl
  length-take (suc n) [] h = absurd (omega arith)
  length-take (suc n) (x ∷ xs) h = omega (arith, length-take n xs (omega arith))

  pub take-drop_lem : (n : ℕ) (xs : List A) → take n xs ++ drop n xs ≡ xs
  take-drop_lem zero xs = refl
  take-drop_lem (suc n) [] = refl
  take-drop_lem (suc n) (x ∷ xs) = ap (λ zs. x ∷ zs) (take-drop_lem n xs)

  pub length-drop : (n : ℕ) (xs : List A) → length (drop n xs) ≡ length xs - n
  length-drop zero xs = omega arith
  length-drop (suc n) [] = omega arith
  length-drop (suc n) (x ∷ xs) = omega (arith, length-drop n xs)

  pub get_elem?-snoc :
      (xs : List A) (v : A) (k : ℕ)
      → get_elem? (xs ++ v ∷ []) k ≡ (if k == length xs then some v else get_elem? xs k)
  get_elem?-snoc [] v zero = refl
  get_elem?-snoc [] v (suc k) = ground arith
  get_elem?-snoc (x ∷ xs) v zero = ground arith
  get_elem?-snoc (x ∷ xs) v (suc k) = ground (arith, get_elem?-snoc xs v k)

  pub get_elem?-drop :
      (n : ℕ) (xs : List A) (k : ℕ) → get_elem? (drop n xs) k ≡ get_elem? xs (n + k)
  get_elem?-drop zero xs k = ground arith
  get_elem?-drop (suc n) [] k = refl
  get_elem?-drop (suc n) (x ∷ xs) k = ground (arith, get_elem?-drop n xs k)

  pub get_elem?_beyond : (xs : List A) (k : ℕ) → length xs ≤ k → get_elem? xs k ≡ none
  get_elem?_beyond [] k h = refl
  get_elem?_beyond (x ∷ xs) zero h = absurd (omega arith)
  get_elem?_beyond (x ∷ xs) (suc k) h = get_elem?_beyond xs k (omega arith)

  -- cells from `p` on that agree with a list, given the first one and those behind it
  pub cells-cons :
      (c : ℕ → Option A) (p : ℕ) (x : A) (xs : List A)
      → c p ≡ some x
      → ((k : ℕ) → k < length xs → c (p + 1 + k) ≡ get_elem? xs k)
      → (k : ℕ) → k < length (x ∷ xs)
      → c (p + k) ≡ get_elem? (x ∷ xs) k
  cells-cons c p x xs e h zero lt = ground arith
  cells-cons c p x xs e h (suc k) lt = ground (arith, h k)

abbrev pub All {ℓ κ} : {A : Type ℓ} → (A → Type κ) → List A → Type κ
All P [] = Unit
All P (x ∷ xs) = P x × All P xs

-- some element has the property
abbrev pub Has {ℓ} : {A : Type ℓ} → (A → Type 0) → List A → Type 0
Has P [] = ⊥
Has P (x ∷ xs) = P x ⊎ Has P xs

module _ {ℓ} {A : Type ℓ} (P : A → Type 0) where
  pub Has-reverse_aux : (xs ys : List A) → Has P xs ⊎ Has P ys → Has P (reverse_aux xs ys)
  Has-reverse_aux [] ys (inl h) = absurd h
  Has-reverse_aux [] ys (inr h) = h
  Has-reverse_aux (x ∷ xs) ys (inl (inl h)) = Has-reverse_aux xs (x ∷ ys) (inr (inl h))
  Has-reverse_aux (x ∷ xs) ys (inl (inr h)) = Has-reverse_aux xs (x ∷ ys) (inl h)
  Has-reverse_aux (x ∷ xs) ys (inr h) = Has-reverse_aux xs (x ∷ ys) (inr (inr h))

pub length-map {ℓ κ} :
    {A : Type ℓ} {B : Type κ} (f : A → B) (xs : List A) → length (map f xs) ≡ length xs
length-map f [] = refl
length-map f (x ∷ xs) = omega (arith, length-map f xs)
