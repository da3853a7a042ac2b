-- ===== src/Table/View.antt =====
-- What a table of src/table.c stands for, and its representation invariant.
use mathlib.Core.Path.{subst}
use myclib.Prelude.{
  inl, inr, Bool-cases, ℕ, zero, suc, ◌+◌, ◌%◌, ◌≤◌, ◌<◌, ◌≡◌, ◌≢◌, refl, Bool, true, none, [], ◌∷◌,
  ◌==◌, arith, if◌then◌else◌, u32, length, All,
}
use myclib.Table.{Ptr, null, Chain, Table, set_bucket, entry_find, value_of}

-- What the table relies on of `cmp` and `hash`: being the same is an equivalence, and keys that are
-- the same have one hash.
pub record KeyLaws (same : Ptr → Ptr → Bool) (hash : Ptr → ℕ) : Type 0 where
  pub same_refl : (a : Ptr) → same a a ≡ true
  pub same_symm : (a b : Ptr) → same a b ≡ same b a
  pub same_trans : (a b c : Ptr) → same a b ≡ true → same b c ≡ true → same a c ≡ true
  pub hash-same : (a b : Ptr) → same a b ≡ true → hash a ≡ hash b

-- the number of entries in `n` buckets from `i` on
unfoldable pub count : (ℕ → Chain) → ℕ → ℕ → ℕ
count buckets zero i = 0
count buckets (suc n) i = length (buckets i) + count buckets n (i + 1)

count_outside :
    (buckets : ℕ → Chain) (c : Chain) (n i j : ℕ)
    → j < i
    → count (set_bucket buckets j c) n i ≡ count buckets n i
unfolding count
count_outside buckets c zero i j h = refl
count_outside buckets c (suc n) i j h = ground (arith, count_outside buckets c n (i + 1) j)

pub count-set_bucket :
    (buckets : ℕ → Chain) (c : Chain) (n i j : ℕ)
    → i ≤ j
    → j < i + n
    → count (set_bucket buckets j c) n i + length (buckets j) ≡ count buckets n i + length c
unfolding count
count-set_bucket buckets c zero i j p q = absurd (omega arith)
count-set_bucket buckets c (suc n) i j p q =
    ground (arith, count-set_bucket buckets c n (i + 1) j, count_outside buckets c n (i + 1) j)

-- A property of each bucket survives the replacement of one that keeps it.
pub set_bucket_keeps {ℓ} :
    (P : ℕ → Chain → Type ℓ) (buckets : ℕ → Chain) (i : ℕ) (c : Chain)
    → ((j : ℕ) → P j (buckets j))
    → P i c
    → (j : ℕ) → P j (set_bucket buckets i c j)
set_bucket_keeps P buckets i c all new j = elim (Bool-cases (j == i)) [
  | inl e ↦ rw e (let same : i ≡ j = ground arith in subst (λ k. P k c) same new)
  | inr e ↦ rw e (all j)
]

abbrev pub total : Table → ℕ
total tb = count tb.buckets tb.size 0

module _ (same : Ptr → Ptr → Bool) (hash : Ptr → ℕ) where
  -- the map that the table stands for, with `NULL` where it holds no entry
  abbrev pub view : Table → Ptr → Ptr
  view tb q = value_of (entry_find same (tb.buckets (hash q % tb.size)) q)

  -- No two entries of a chain have the same key.
  abbrev pub Distinct : Chain → Type 0
  Distinct [] = Unit
  Distinct (e ∷ c) = (entry_find same c e.key ≡ none) × Distinct c

  pub record IsValid (tb : Table) : Type 0 where
    pub sized : 0 < tb.size
    pub placed : (i : ℕ) → All (λ e. (hash e.key % tb.size ≡ i) × (e.value ≢ null)) (tb.buckets i)
    pub distinct : (i : ℕ) → Distinct (tb.buckets i)
    pub counted : tb.length ≡ u32 (total tb)

-- the map `f` with `v` at every key that is the same as `k`
abbrev pub update : (Ptr → Ptr → Bool) → (Ptr → Ptr) → Ptr → Ptr → Ptr → Ptr
update same f k v q = if same k q then v else f q
