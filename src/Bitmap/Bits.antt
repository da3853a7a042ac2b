-- ===== src/Bitmap/Bits.antt =====
-- The bits of a number, and those of a conjunction and a disjunction.
use Prim.Native.Nat.{bit_and, bit_or, bit_and-bitwise, bit_or-bitwise, digits, max}
use native.Mathlib.Numerals.{unary_clauses}
use myclib.Prelude.{
  ℕ, zero, suc, ◌+◌, ◌-◌, ◌*◌, ◌/◌, ◌%◌, ◌^◌, ◌≤◌, ◌<◌, ◌≡◌, refl, ap, min, false, ◌==◌,
  if◌then◌else◌, arith,
}

-- bit `k` of a number
unfoldable pub bit : ℕ → ℕ → ℕ
bit x zero = x % 2
bit x (suc k) = bit (x / 2) k

-- Digits to go beyond those of the first number change nothing.
digits_fuel :
    (z : ℕ → ℕ) (f : ℕ → ℕ → ℕ) (n m a b : ℕ) → a ≤ n → a ≤ m → digits z f n a b ≡ digits z f m a b
digits_fuel z f zero zero a b p q = refl
digits_fuel z f zero (suc m) zero b p q = refl
digits_fuel z f zero (suc m) (suc a) b p q = absurd (omega arith)
digits_fuel z f (suc n) zero zero b p q = refl
digits_fuel z f (suc n) zero (suc a) b p q = absurd (omega arith)
digits_fuel z f (suc n) (suc m) zero b p q = refl
digits_fuel z f (suc n) (suc m) (suc a) b p q =
    ap (λ (t : ℕ). t * 2 + f (suc a % 2) (b % 2))
      (digits_fuel z f n m (suc a / 2) (b / 2) (omega arith) (omega arith))

or_step : (a b : ℕ) → bit_or a b ≡ bit_or (a / 2) (b / 2) * 2 + max (a % 2) (b % 2)
or_step zero b = omega (arith, bit_or-bitwise 0 b, bit_or-bitwise 0 (b / 2))
or_step (suc a) b = omega (
  arith,
  bit_or-bitwise (suc a) b,
  bit_or-bitwise (suc a / 2) (b / 2),
  digits_fuel (λ x. x) max a (suc a / 2) (suc a / 2) (b / 2) (omega arith) (omega arith),
)

and_step : (a b : ℕ) → bit_and a b ≡ bit_and (a / 2) (b / 2) * 2 + min (a % 2) (b % 2)
and_step zero b = omega (arith, bit_and-bitwise 0 b, bit_and-bitwise 0 (b / 2))
and_step (suc a) b = omega (
  arith,
  bit_and-bitwise (suc a) b,
  bit_and-bitwise (suc a / 2) (b / 2),
  digits_fuel (λ x. 0) min a (suc a / 2) (suc a / 2) (b / 2) (omega arith) (omega arith),
)

pub bit-or : (k a b : ℕ) → bit (bit_or a b) k ≡ max (bit a k) (bit b k)
unfolding bit
bit-or zero a b = omega (arith, or_step a b)
bit-or (suc k) a b =
    let e : bit_or a b / 2 ≡ bit_or (a / 2) (b / 2) = omega (arith, or_step a b) in
    rw e (bit-or k (a / 2) (b / 2))

pub bit-and : (k a b : ℕ) → bit (bit_and a b) k ≡ min (bit a k) (bit b k)
unfolding bit
bit-and zero a b = omega (arith, and_step a b)
bit-and (suc k) a b =
    let e : bit_and a b / 2 ≡ bit_and (a / 2) (b / 2) = omega (arith, and_step a b) in
    rw e (bit-and k (a / 2) (b / 2))

pub bit-le : (k x : ℕ) → bit x k ≤ 1
unfolding bit
bit-le zero x = omega arith
bit-le (suc k) x = bit-le k (x / 2)

pub bit-zero : (k : ℕ) → bit 0 k ≡ 0
unfolding bit
bit-zero zero = refl
bit-zero (suc k) = bit-zero k

-- A number without bits is 0.
no_bits : (n x : ℕ) → x ≤ n → ((k : ℕ) → bit x k ≡ 0) → x ≡ 0
unfolding bit
no_bits zero x h none_set = omega arith
no_bits (suc n) zero h none_set = refl
no_bits (suc n) (suc x) h none_set =
    let rest = no_bits n (suc x / 2) (omega arith) (λ k. none_set (suc k)) in
    omega (arith, rest, none_set 0)

pub no_bits-zero : (x : ℕ) → ((k : ℕ) → bit x k ≡ 0) → x ≡ 0
no_bits-zero x h = no_bits x x (omega arith) h

twice : (j : ℕ) → 2 ^ suc j ≡ 2 * 2 ^ j
twice j = simp unary_clauses (omega arith)

power_pos : (n : ℕ) → 0 < 2 ^ n
power_pos zero = omega arith
power_pos (suc n) = omega (arith, twice n, power_pos n)

pub bit-power : (j k : ℕ) → bit (2 ^ j) k ≡ (if j == k then 1 else 0)
unfolding bit
bit-power zero zero = refl
bit-power zero (suc k) = let e : 0 == suc k ≡ false = ground arith in rw e (bit-zero k)
bit-power (suc j) zero = ground (arith, twice j)
bit-power (suc j) (suc k) =
    let e : 2 ^ suc j / 2 ≡ 2 ^ j = omega (arith, twice j) in rw e (ground (arith, bit-power j k))

pub power-lt : (j n : ℕ) → j < n → 2 ^ j < 2 ^ n
power-lt j zero h = absurd (omega arith)
power-lt zero (suc n) h = omega (arith, twice n, power_pos n)
power-lt (suc j) (suc n) h = omega (arith, twice j, twice n, power-lt j n (omega arith))

-- The bits of a complement are the opposite ones.
pub bit-complement : (n k x : ℕ) → x < 2 ^ n → k < n → bit (2 ^ n - 1 - x) k + bit x k ≡ 1
unfolding bit
bit-complement zero k x h lt = absurd (omega arith)
bit-complement (suc n) zero x h lt = omega (arith, twice n)
bit-complement (suc n) (suc k) x h lt =
    let e : (2 ^ suc n - 1 - x) / 2 ≡ 2 ^ n - 1 - x / 2 = omega (arith, twice n, h) in
    rw e (bit-complement n k (x / 2) (omega (arith, twice n, h)) (omega arith))
