-- ===== src/Str.antt =====
-- src/str.c and include/str.h: strings with a length.
-- `data` is `NULL` or points to an object, which may be longer than `len`. An access behind an object and
-- a failed `assert` are a fault, `none`. Indices are not negative.
pub mod Find
mod Examples
use myclib.Prelude.{
  ℕ, zero, suc, ◌+◌, ◌-◌, Bool, true, false, ◌&&◌, Option, none, some, List, [], ◌∷◌, ltb, leb,
  ◌==◌, if◌then◌else◌, ◌>>=◌, check, length, take, drop,
}

-- `str_t`
pub record Str : Type 0 where
  pub len : ℕ
  pub data_ptr : Option (List ℕ)

abbrev pub equal : List ℕ → List ℕ → Bool
equal [] [] = true
equal [] (d ∷ ds) = false
equal (c ∷ cs) [] = false
equal (c ∷ cs) (d ∷ ds) = c == d && equal cs ds

-- `memcmp(p, q, n) == 0`
abbrev pub memcmp_zero : List ℕ → List ℕ → ℕ → Option Bool
memcmp_zero p q n =
    check (leb n (length p) && leb n (length q)) (some (equal (take n p) (take n q)))

-- The loop of `str_find`, with `n` rounds left. The inner option is the index, `none` for -1.
pub find_loop : List ℕ → List ℕ → ℕ → ℕ → ℕ → Option (Option ℕ)
find_loop bytes sought len zero i = some none
find_loop bytes sought len (suc n) i =
    let rest = find_loop bytes sought len n (i + 1) in
    memcmp_zero (drop i bytes) sought len >>= λ found. if found then some (some i) else rest

unfoldable pub str_find : Str → ℕ → ℕ → Str → Option (Option ℕ)
unfolding find_loop
str_find str i j astr = do
  bytes ← str.data_ptr
  sought ← astr.data_ptr
  check (ltb 0 str.len && ltb 0 astr.len) (
      if ltb j i
      then find_loop bytes sought astr.len (i - j) j
      else check (ltb i j) (find_loop bytes sought astr.len (j - i) i))

-- the sign of a comparison
pub data Sign : Type 0 where
  below : Sign
  zero_sign : Sign
  above : Sign

-- `strncmp`, which stops behind a 0
abbrev pub strncmp : ℕ → List ℕ → List ℕ → Option Sign
strncmp zero p q = some zero_sign
strncmp (suc n) (c ∷ p) (d ∷ q) =
    let rest = strncmp n p q in
    if ltb c d
    then some below
    else if ltb d c
    then some above
    else if c == 0
    then some zero_sign
    else rest
strncmp (suc n) _ _ = none

unfoldable pub str_cmp : Str → Str → Option Sign
str_cmp s1 s2 =
    if ltb s2.len s1.len
    then some above
    else if ltb s1.len s2.len
    then some below
    else (do p ← s1.data_ptr; q ← s2.data_ptr; strncmp s1.len p q)
