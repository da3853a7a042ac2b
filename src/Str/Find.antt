-- ===== src/Str/Find.antt =====
-- What `str_find` and `str_cmp` of src/str.c and include/str.h find.
use myclib.Prelude.{
  ℕ, zero, suc, ◌+◌, ◌-◌, ◌≤◌, ◌<◌, ◌≡◌, ◌≢◌, refl, sym, ap, ◌∙◌, Bool, true, false, Bool-cases,
  Option, none, some, List, ltb, leb, ◌==◌, length, length-drop, take, drop, min, arith, inl, inr,
}
use myclib.Str.{Str, equal, memcmp_zero, find_loop, str_find}

-- the sought bytes stand at `i`
abbrev pub at : List ℕ → List ℕ → ℕ → ℕ → Bool
at bytes sought len i = equal (take len (drop i bytes)) (take len sought)

-- The result is the first of the `n` places from `i` on, or -1 if there is none.
abbrev pub First : List ℕ → List ℕ → ℕ → (n i : ℕ) → Option ℕ → Type 0
First bytes sought len n i none = (k : ℕ) → i ≤ k → k < i + n → at bytes sought len k ≡ false
First bytes sought len n i (some m) =
    (i ≤ m)
    × (m < i + n)
    × (at bytes sought len m ≡ true)
    × ((k : ℕ) → i ≤ k → k < m → at bytes sought len k ≡ false)

First-cons :
    (bytes sought : List ℕ) (len n i : ℕ) (r : Option ℕ)
    → at bytes sought len i ≡ false
    → First bytes sought len n (i + 1) r
    → First bytes sought len (suc n) i r
First-cons bytes sought len n i none e h = λ k a b. elim (Bool-cases (k == i)) [
  | inl q ↦ ground arith
  | inr q ↦ h k (ground arith) (omega arith)
]
First-cons bytes sought len n i (some m) e (a, b, f, h) = (
  omega arith,
  omega arith,
  f,
  λ k c d. elim (Bool-cases (k == i)) [ inl q ↦ ground arith | inr q ↦ h k (ground arith) d ],
)

memcmp_zero-at :
    (bytes sought : List ℕ) (len i : ℕ)
    → i + len ≤ length bytes
    → len ≤ length sought
    → memcmp_zero (drop i bytes) sought len ≡ some (at bytes sought len i)
memcmp_zero-at bytes sought len i h k =
    let a : leb len (length (drop i bytes)) ≡ true = ground (arith, length-drop i bytes) in
    let b : leb len (length sought) ≡ true = ground arith in rw a (rw b refl)

find_loop-First :
    (bytes sought : List ℕ) (len n i : ℕ)
    → i + n + len ≤ length bytes + 1
    → len ≤ length sought
    → (r : Option ℕ) × (find_loop bytes sought len n i ≡ some r) × First bytes sought len n i r
unfolding find_loop
find_loop-First bytes sought len zero i h k = (none, refl, λ m a b. absurd (omega arith))
find_loop-First bytes sought len (suc n) i h k =
    let e = memcmp_zero-at bytes sought len i (omega arith) k in
    let (r, e', f) = find_loop-First bytes sought len n (i + 1) (omega arith) k in
    elim (Bool-cases (at bytes sought len i)) [
      | inl q ↦
          (some i, rw e (rw q refl), (omega arith, omega arith, q, λ m a b. absurd (omega arith)))
      | inr q ↦ (r, rw e (rw q e'), First-cons bytes sought len n i r q f)
    ]

-- For two strings that are not empty and two different indices, with every place that is compared inside
-- the object, `str_find` returns the first place from the lower index on and below the higher one where
-- the bytes of the second string stand, or -1 if there is none; the order of the indices does not matter.
pub str_find-First :
    (str astr : Str) (i j : ℕ) (bytes sought : List ℕ)
    → str.data_ptr ≡ some bytes
    → astr.data_ptr ≡ some sought
    → 0 < str.len
    → 0 < astr.len
    → astr.len ≤ length sought
    → i ≢ j
    → i + astr.len ≤ length bytes + 1
    → j + astr.len ≤ length bytes + 1
    → (r : Option ℕ) × (str_find str i j astr ≡ some r)
      × First bytes sought astr.len ((i - j) + (j - i)) (min i j) r
unfolding str_find
str_find-First str astr i j bytes sought e e' l l' k d h h' =
    let a : ltb 0 str.len ≡ true = ground arith in
    let a' : ltb 0 astr.len ≡ true = ground arith in
    let n = (i - j) + (j - i) in
    let (r, f, first) = find_loop-First bytes sought astr.len n (min i j) (omega arith) k in
    (
      r,
      elim (Bool-cases (ltb j i)) [
        | inl q ↦
            let rounds : n ≡ i - j = ground arith in
            let from : min i j ≡ j = ground arith in
            rw e (
              rw e' (
                rw a (
                  rw a' (
                    rw q (
                      ap (λ m. find_loop bytes sought astr.len m j) (sym rounds)
                      ∙ ap (λ m. find_loop bytes sought astr.len n m) (sym from)
                      ∙ f)))))
        | inr q ↦
            let rounds : n ≡ j - i = ground arith in
            let from : min i j ≡ i = ground arith in
            let q' : ltb i j ≡ true = ground arith in
            rw e (
              rw e' (
                rw a (
                  rw a' (
                    rw q (
                      rw q' (
                        ap (λ m. find_loop bytes sought astr.len m i) (sym rounds)
                        ∙ ap (λ m. find_loop bytes sought astr.len n m) (sym from)
                        ∙ f))))))
      ],
      first,
    )
