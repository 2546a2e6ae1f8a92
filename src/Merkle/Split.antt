-- ===== src/Merkle/Split.antt =====
-- The split point of a tree with n leaves is the largest power of two below n.
use keel_verifier.Base.{
  ℕ, zero, suc, ◌+◌, ◌-◌, ◌*◌, ◌/◌, ◌^◌, ◌≤◌, ◌<◌, ◌≡◌, refl, arith, inl, inr, Bool-cases, ◌==◌,
  false, ap,
}
use native.Mathlib.Nat.{pow-suc}
use keel_verifier.Merkle.{bit_length_fuel, bit_length, split}

bit_length_fuel-zero : (f : ℕ) → bit_length_fuel f 0 ≡ 0
unfolding bit_length_fuel
bit_length_fuel-zero zero = refl
bit_length_fuel-zero (suc f) = refl

-- `b` is the bit length of n.
abbrev BitsOf : ℕ → ℕ → Type 0
BitsOf n b = (k : ℕ) × (b ≡ k + 1) × (2 ^ k ≤ n) × (n < 2 * 2 ^ k)

BitsOf-double : (n b : ℕ) → BitsOf (n / 2) b → BitsOf n (b + 1)
BitsOf-double n b (k, e, low, high) =
    (suc k, omega arith, omega (arith, pow-suc 2 k), omega (arith, pow-suc 2 k))

bit_length_fuel-BitsOf : (f n : ℕ) → 0 < n → n ≤ f → BitsOf n (bit_length_fuel f n)
unfolding bit_length_fuel
bit_length_fuel-BitsOf zero n p h = absurd (omega arith)
bit_length_fuel-BitsOf (suc f) n p h = elim (Bool-cases (n / 2 == 0)) [
  | inl small ↦
      let one : n ≡ 1 = ground arith in
      rw one (0, rw (bit_length_fuel-zero f), omega arith, omega arith)
  | inr large ↦
      let more : (n == 0) ≡ false = ground arith in
      rw more (BitsOf-double n _ (bit_length_fuel-BitsOf f (n / 2) (ground arith) (omega arith)))
]

abbrev pub PowerBelow : ℕ → ℕ → Type 0
PowerBelow m s = (k : ℕ) × (s ≡ 2 ^ k) × (2 ^ k ≤ m) × (m < 2 * 2 ^ k)

BitsOf-PowerBelow : (m b : ℕ) → BitsOf m b → PowerBelow m (2 ^ (b - 1))
BitsOf-PowerBelow m b (k, e, low, high) = (k, ap (λ (j : ℕ). 2 ^ j) (omega (arith, e)), low, high)

-- The split point of n leaves, n ≥ 2, is the power of two that lies below n and reaches half of n.
pub split-PowerBelow : (n : ℕ) → 2 ≤ n → PowerBelow (n - 1) (split n)
unfolding split bit_length
split-PowerBelow n h =
    BitsOf-PowerBelow (n - 1) _ (bit_length_fuel-BitsOf (n - 1) (n - 1) (omega arith) (omega arith))

PowerBelow-bounds : (n s : ℕ) → 2 ≤ n → PowerBelow (n - 1) s → (0 < s) × (s < n) × (n ≤ s + s)
PowerBelow-bounds n s h (k, e, low, high) = (omega arith, omega arith, omega arith)

pub split_bounds : (n : ℕ) → 2 ≤ n → (0 < split n) × (split n < n) × (n ≤ split n + split n)
split_bounds n h = PowerBelow-bounds n (split n) h (split-PowerBelow n h)
