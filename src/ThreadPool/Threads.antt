-- ===== src/ThreadPool/Threads.antt =====
-- Threads numbered from 0: one changes its place, and weights of places summed over all.
use myclib.Prelude.{
  ℕ, zero, suc, ◌+◌, ◌≤◌, ◌<◌, ◌≡◌, refl, ◌==◌, if◌then◌else◌, arith, Bool-cases, inl, inr,
}

abbrev pub update {ℓ} : {A : Type ℓ} → (ℕ → A) → ℕ → A → ℕ → A
update f i a j = if j == i then a else f j

-- the sum of `w` over the places of the threads below `n`
abbrev pub weigh {ℓ} : {A : Type ℓ} → (A → ℕ) → ℕ → (ℕ → A) → ℕ
weigh w zero f = 0
weigh w (suc n) f = w (f n) + weigh w n f

module _ {ℓ} {A : Type ℓ} (w : A → ℕ) where
  weigh-update_above :
      (n : ℕ) (f : ℕ → A) (i : ℕ) (a : A) → n ≤ i → weigh w n (update f i a) ≡ weigh w n f
  weigh-update_above zero f i a h = refl
  weigh-update_above (suc n) f i a h = ground (arith, weigh-update_above n f i a)

  pub weigh-update :
      (n : ℕ) (f : ℕ → A) (i : ℕ) (a : A)
      → i < n
      → weigh w n (update f i a) + w (f i) ≡ weigh w n f + w a
  weigh-update zero f i a h = absurd (omega arith)
  weigh-update (suc n) f i a h = elim (Bool-cases (n == i)) [
    | inl e ↦ ground (arith, weigh-update_above n f i a)
    | inr e ↦ ground (arith, weigh-update n f i a)
  ]

  pub le-weigh : (n : ℕ) (f : ℕ → A) (i : ℕ) → i < n → w (f i) ≤ weigh w n f
  le-weigh zero f i h = absurd (omega arith)
  le-weigh (suc n) f i h = elim (Bool-cases (n == i)) [
    | inl e ↦ ground arith
    | inr e ↦ ground (arith, le-weigh n f i)
  ]

  pub weigh-le :
      (v : A → ℕ) → ((a : A) → w a ≤ v a) → (n : ℕ) (f : ℕ → A) → weigh w n f ≤ weigh v n f
  weigh-le v h zero f = omega arith
  weigh-le v h (suc n) f = omega (arith, h (f n), weigh-le v h n f)

  pub weigh_nothing : (n : ℕ) (f : ℕ → A) → ((i : ℕ) → w (f i) ≡ 0) → weigh w n f ≡ 0
  weigh_nothing zero f h = refl
  weigh_nothing (suc n) f h = omega (arith, h n, weigh_nothing n f h)

  pub weigh_all : (n : ℕ) (f : ℕ → A) → ((a : A) → w a ≤ 1) → weigh w n f ≤ n
  weigh_all zero f h = omega arith
  weigh_all (suc n) f h = omega (arith, h (f n), weigh_all n f h)
