-- ===== src/Tlv/Octets.antt =====
-- The octets of numbers and of memory, as include/tlv.h writes and reads them.
use myclib.Prelude.{
  ℕ, zero, suc, ◌^◌, ◌≤◌, ◌<◌, ◌≡◌, refl, ap, some, List, [], ◌∷◌, ◌++◌, length, take, drop, arith,
}
use myclib.Tlv.{set8, set16, set32, get8, get16, get32, copy, strncpy, strlen}

pub get8-set8 : (n : ℕ) (rest : List ℕ) → n < 2 ^ 8 → get8 (set8 n ++ rest) ≡ some (n, rest)
get8-set8 n rest h = ground arith

pub get16-set16 : (n : ℕ) (rest : List ℕ) → n < 2 ^ 16 → get16 (set16 n ++ rest) ≡ some (n, rest)
get16-set16 n rest h = ground arith

pub get32-set32 : (n : ℕ) (rest : List ℕ) → n < 2 ^ 32 → get32 (set32 n ++ rest) ≡ some (n, rest)
get32-set32 n rest h = ground arith

pub take-append : (n : ℕ) (xs ys : List ℕ) → n ≤ length xs → take n (take n xs ++ ys) ≡ take n xs
take-append zero xs ys h = refl
take-append (suc n) [] ys h = absurd (omega arith)
take-append (suc n) (x ∷ xs) ys h = ap (λ zs. x ∷ zs) (take-append n xs ys (omega arith))

pub drop-append : (n : ℕ) (xs ys : List ℕ) → n ≤ length xs → drop n (take n xs ++ ys) ≡ ys
drop-append zero xs ys h = refl
drop-append (suc n) [] ys h = absurd (omega arith)
drop-append (suc n) (x ∷ xs) ys h = drop-append n xs ys (omega arith)

le-append : (n : ℕ) (xs ys : List ℕ) → n ≤ length xs → n ≤ length (take n xs ++ ys)
le-append zero xs ys h = omega arith
le-append (suc n) [] ys h = absurd (omega arith)
le-append (suc n) (x ∷ xs) ys h = omega (arith, le-append n xs ys (omega arith))

pub copy_all : (n : ℕ) (xs : List ℕ) → n ≤ length xs → copy n xs ≡ some (take n xs)
copy_all n xs h = ground arith

-- What was copied from the beginning of some memory is copied again.
pub copy-append :
    (n : ℕ) (xs ys : List ℕ) → n ≤ length xs → copy n (take n xs ++ ys) ≡ some (take n xs)
copy-append n xs ys h = ground (arith, le-append n xs ys h, take-append n xs ys h)

pub le-strlen : (bytes : List ℕ) (n : ℕ) → strlen bytes ≡ some n → n ≤ length bytes
le-strlen [] n e = ground arith
le-strlen (c ∷ bytes) zero e = omega arith
le-strlen (c ∷ bytes) (suc n) e = ground (arith, le-strlen bytes n)

pub strncpy-append :
    (bytes ys : List ℕ) (n : ℕ)
    → strlen bytes ≡ some n
    → strncpy n (take n bytes ++ ys) ≡ some (take n bytes)
strncpy-append [] ys n e = ground arith
strncpy-append (c ∷ bytes) ys zero e = refl
strncpy-append (c ∷ bytes) ys (suc n) e = ground (arith, strncpy-append bytes ys n)
