-- ===== src/Mpool/Free.antt =====
-- The large allocations of src/mpool.c: each is freed at most once.
use myclib.Prelude.{
  ℕ, suc, ◌≡◌, refl, ap, true, false, Option, none, some, ◌>>=◌, List, [], ◌∷◌, ◌++◌, map, ◌==◌,
  if◌then◌else◌, arith, Option-cases, inl, inr, Bool-cases,
}
use mathlib.Core.Path.{subst}
use myclib.Mpool.{Large, Pool, unlink_large, mpool_pfree}

-- how often an address stands in a list
abbrev pub count : ℕ → List ℕ → ℕ
count q [] = 0
count q (p ∷ ps) = let later = count q ps in if q == p then suc later else later

-- the addresses that the pool has of `malloc`
abbrev pub held : List Large → List ℕ
held = map (λ lg. lg.alloc)

-- what a search that removes `p` makes of a list
abbrev Unlinks : ℕ → List Large → Option (List Large) → Type 0
Unlinks p large none = count p (held large) ≡ 0
Unlinks p large (some large') = (q : ℕ) → count q (p ∷ held large') ≡ count q (held large)

unlink_later :
    (p : ℕ) (lg : Large) (rest : List Large) (found : Option (List Large))
    → p == lg.alloc ≡ false
    → Unlinks p rest found
    → Unlinks p (lg ∷ rest) (found >>= λ rest'. some (lg ∷ rest'))
unlink_later p lg rest none e u = ground (arith, u)
unlink_later p lg rest (some rest') e u = λ q. ground (arith, u q)

unlink_large-Unlinks : (p : ℕ) (large : List Large) → Unlinks p large (unlink_large p large)
unfolding unlink_large
unlink_large-Unlinks p [] = refl
unlink_large-Unlinks p (lg ∷ rest) = elim (Bool-cases (p == lg.alloc)) [
  | inl e ↦
      simp e (λ q. let same : p ≡ lg.alloc = ground arith in ap (λ a. count q (a ∷ held rest)) same)
  | inr e ↦ simp e (unlink_later p lg rest _ e (unlink_large-Unlinks p rest))
]

-- `mpool_pfree` returns 0 exactly where the pool holds the address. There it frees the address, once,
-- and elsewhere nothing. What it frees and what the pool still holds are together what the pool held,
-- each address as often: the address is unlinked once, and no other is lost.
pub mpool_pfree-count :
    (pool : Pool) (p q : ℕ)
    → let (done, freed, pool') = mpool_pfree pool p in
      (count q (freed ++ held pool'.large) ≡ count q (held pool.large))
      × (done ≡ (if count p (held pool.large) == 0 then false else true))
      × (freed ≡ (if count p (held pool.large) == 0 then [] else p ∷ []))
unfolding mpool_pfree
mpool_pfree-count pool p q =
    let found = unlink_large-Unlinks p pool.large in
    elim (Option-cases (unlink_large p pool.large)) [
      | inl e ↦
          let unlinks : Unlinks p pool.large none = subst (Unlinks p pool.large) e found in
          simp (e, unlinks, mpool_pfree) (refl, refl, refl)
      | inr (large, e) ↦
          let unlinks : Unlinks p pool.large (some large) = subst (Unlinks p pool.large) e found in
          simp (e, mpool_pfree) (unlinks q, ground (arith, unlinks p), ground (arith, unlinks p))
    ]
