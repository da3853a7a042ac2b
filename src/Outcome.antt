-- ===== src/Outcome.antt =====
-- What a function of src/dns.c, src/crypto.c or tools/muniq/muniq.c can come to.
-- `bad` is the return of -1 or `NULL`; `fault` is an access outside a buffer, or a division by 0. A loop
-- that has used up its rounds is `out_of_fuel`.
use myclib.Prelude.{Bool, true, false, ◌≡◌, refl, if◌then◌else◌}

pub data Result {ℓ} (A : Type ℓ) : Type ℓ where
  ok : A → Result A
  bad : Result A
  fault : Result A
  out_of_fuel : Result A

infixl 5 ◌>>=◌
abbrev pub ◌>>=◌ {ℓ κ} : {A : Type ℓ} {B : Type κ} → Result A → (A → Result B) → Result B
ok a >>= f = f a
bad >>= f = bad
fault >>= f = fault
out_of_fuel >>= f = out_of_fuel

-- The code returns: with a result that has the property, or with -1.
abbrev pub Returns {ℓ} : {A : Type ℓ} → (A → Type 0) → Result A → Type 0
Returns P (ok a) = P a
Returns P bad = Unit
Returns P fault = ⊥
Returns P out_of_fuel = ⊥

pub Returns-bind :
    {A B : Type 0} (P : A → Type 0) (Q : B → Type 0) (m : Result A) (f : A → Result B)
    → Returns P m
    → ((a : A) → P a → Returns Q (f a))
    → Returns Q (m >>= f)
Returns-bind P Q (ok a) f h k = k a h
Returns-bind P Q bad f h k = tt
Returns-bind P Q fault f h k = absurd h
Returns-bind P Q out_of_fuel f h k = absurd h

pub Returns-mono :
    {A : Type 0} (P Q : A → Type 0) (m : Result A)
    → Returns P m
    → ((a : A) → P a → Q a)
    → Returns Q m
Returns-mono P Q (ok a) h k = k a h
Returns-mono P Q bad h k = tt
Returns-mono P Q fault h k = absurd h
Returns-mono P Q out_of_fuel h k = absurd h

pub Returns-if :
    {A : Type 0} (P : A → Type 0) (b : Bool) (x y : Result A)
    → (b ≡ true → Returns P x)
    → (b ≡ false → Returns P y)
    → Returns P (if b then x else y)
Returns-if P true x y h k = h refl
Returns-if P false x y h k = k refl
