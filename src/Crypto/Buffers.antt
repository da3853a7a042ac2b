-- ===== src/Crypto/Buffers.antt =====
-- Zeros in the buffers of src/crypto.c.
use myclib.Prelude.{
  ℕ, zero, suc, ◌+◌, ◌-◌, ◌≤◌, ◌<◌, ◌≡◌, ◌≢◌, refl, ap, ◌∙◌, true, List, [], ◌∷◌, ◌++◌,
  append_assoc, leb, length, length-append, take, drop, All, arith,
}
use myclib.Outcome.{ok}
use myclib.Crypto.{filled, write, read, strlen}

pub length-filled : (c n : ℕ) → length (filled c n) ≡ n
length-filled c zero = refl
length-filled c (suc n) = omega (arith, length-filled c n)

pub filled_add : (c m n : ℕ) → filled c (m + n) ≡ filled c m ++ filled c n
filled_add c zero n = ground arith
filled_add c (suc m) n =
    let e : suc m + n ≡ suc (m + n) = omega arith in rw e (ap (λ zs. c ∷ zs) (filled_add c m n))

pub take-append : (xs ys : List ℕ) → take (length xs) (xs ++ ys) ≡ xs
take-append [] ys = refl
take-append (x ∷ xs) ys = ap (λ zs. x ∷ zs) (take-append xs ys)

pub drop-append : (n : ℕ) (xs ys : List ℕ) → drop (length xs + n) (xs ++ ys) ≡ drop n ys
drop-append n [] ys = ground arith
drop-append n (x ∷ xs) ys =
    let e : suc (length xs) + n ≡ suc (length xs + n) = omega arith in rw e (drop-append n xs ys)

pub drop-filled : (c m n : ℕ) → drop m (filled c (m + n)) ≡ filled c n
drop-filled c zero n = ground arith
drop-filled c (suc m) n = let e : suc m + n ≡ suc (m + n) = omega arith in rw e (drop-filled c m n)

pub strlen_lem : (xs ys : List ℕ) → All (λ c. c ≢ 0) xs → strlen (xs ++ 0 ∷ ys) ≡ ok (length xs)
strlen_lem [] ys h = refl
strlen_lem (x ∷ xs) ys (h, hs) = ground (arith, strlen_lem xs ys hs)

pub All-take : (n : ℕ) (xs : List ℕ) → All (λ c. c ≢ 0) xs → All (λ c. c ≢ 0) (take n xs)
All-take zero xs h = tt
All-take (suc n) [] h = tt
All-take (suc n) (x ∷ xs) (h, hs) = (h, All-take n xs hs)

pub All-drop : (n : ℕ) (xs : List ℕ) → All (λ c. c ≢ 0) xs → All (λ c. c ≢ 0) (drop n xs)
All-drop zero xs h = h
All-drop (suc n) [] h = tt
All-drop (suc n) (x ∷ xs) (h, hs) = All-drop n xs hs

-- A write into the zeros behind what is there.
pub write-filled :
    (done bytes : List ℕ) (n : ℕ)
    → write (length done) bytes (done ++ filled 0 (length bytes + n))
      ≡ ok (done ++ bytes ++ filled 0 n)
write-filled done bytes n =
    let inside : leb (length done + length bytes) (length (done ++ filled 0 (length bytes + n)))
        ≡ true =
      ground (
        arith,
        length-append done (filled 0 (length bytes + n)),
        length-filled 0 (length bytes + n),
      ) in
    rw inside (
      rw (take-append done (filled 0 (length bytes + n))) (
        rw (drop-append (length bytes) done (filled 0 (length bytes + n)))
          (rw (drop-filled 0 (length bytes) n) refl)))

pub length-take_le : (n : ℕ) (xs : List ℕ) → length (take n xs) ≤ n
length-take_le zero xs = omega arith
length-take_le (suc n) [] = omega arith
length-take_le (suc n) (x ∷ xs) = omega (arith, length-take_le n xs)

pub drop_exact : (n : ℕ) (xs ys : List ℕ) → length xs ≡ n → drop n (xs ++ ys) ≡ ys
drop_exact zero [] ys e = refl
drop_exact (suc n) [] ys e = absurd (omega arith)
drop_exact zero (x ∷ xs) ys e = absurd (omega arith)
drop_exact (suc n) (x ∷ xs) ys e = drop_exact n xs ys (omega arith)

take_exact : (n : ℕ) (xs ys : List ℕ) → length xs ≡ n → take n (xs ++ ys) ≡ xs
take_exact zero [] ys e = refl
take_exact (suc n) [] ys e = absurd (omega arith)
take_exact zero (x ∷ xs) ys e = absurd (omega arith)
take_exact (suc n) (x ∷ xs) ys e = ap (λ zs. x ∷ zs) (take_exact n xs ys (omega arith))

pub read-append : (n : ℕ) (xs ys : List ℕ) → length xs ≡ n → read n (xs ++ ys) ≡ ok xs
read-append n xs ys e =
    let inside : leb n (length (xs ++ ys)) ≡ true = ground (arith, length-append xs ys) in
    rw inside (ap ok (take_exact n xs ys e))

-- A write into enough zeros, and the string that it leaves.
pub write_zeros :
    (done bytes : List ℕ) (n : ℕ)
    → length bytes ≤ n
    → write (length done) bytes (done ++ filled 0 n)
      ≡ ok (done ++ bytes ++ filled 0 (n - length bytes))
write_zeros done bytes n h =
    let e : n ≡ length bytes + (n - length bytes) = omega arith in
    ap (λ m. write (length done) bytes (done ++ filled 0 m)) e
    ∙ write-filled done bytes (n - length bytes)

pub strlen_zeros :
    (done bytes : List ℕ) (n : ℕ)
    → 0 < n
    → All (λ c. c ≢ 0) bytes
    → strlen (drop (length done) (done ++ bytes ++ filled 0 n)) ≡ ok (length bytes)
strlen_zeros done bytes zero h a = absurd (omega arith)
strlen_zeros done bytes (suc n) h a = rw (append_assoc done bytes (filled 0 (suc n))) (
    rw (drop_exact (length done) done (bytes ++ filled 0 (suc n)) refl)
      (strlen_lem bytes (filled 0 n) a))
