-- ===== src/SuperTensor/Index/Power.antt =====
-- `is_power_of_two` of src/tensor/supertensor.rs tests what it says.
use native.Mathlib.Nat.{pow-suc, one-le-pow, mod_self}
use toutates.Base.{
  ℕ, zero, suc, ◌+◌, ◌-◌, ◌*◌, ◌/◌, ◌%◌, ◌^◌, ◌≤◌, ◌<◌, bit_and, ◌≡◌, ◌↔◌, true, arith, ℕ_discrete,
  ◌∙◌,
}
use toutates.Base.Bits.{bit_and_digit, bit_and_self, bit_and_low}
use toutates.SuperTensor.Index.{is_power_of_two}

-- Clearing the lowest one of an even number is clearing that of its half.
clear_even : (m : ℕ) → 0 < m → bit_and (m * 2) (m * 2 - 1) ≡ bit_and m (m - 1) * 2
clear_even m h = ground (arith, bit_and_digit (m * 2) (m * 2 - 1))

clear_odd : (m : ℕ) → bit_and (m * 2 + 1) (m * 2 + 1 - 1) ≡ m * 2
clear_odd m = ground (arith, bit_and_digit (m * 2 + 1) (m * 2 + 1 - 1), bit_and_self m)

abbrev IsPower : ℕ → Type 0
IsPower n = (k : ℕ) × (n ≡ 2 ^ k)

double-IsPower : {n m : ℕ} → n ≡ m * 2 → IsPower m → IsPower n
double-IsPower e (k, p) = (suc k, omega (arith, pow-suc 2 k))

IsPower-of_clear : (f n : ℕ) → n ≤ f → 0 < n → bit_and n (n - 1) ≡ 0 → IsPower n
IsPower-of_clear zero n h p e = absurd (omega arith)
IsPower-of_clear (suc f) n h p e = elim (ℕ_discrete (n % 2) 0) [
  | yes even ↦
      let q : n ≡ n / 2 * 2 = omega arith in
      double-IsPower q (
        IsPower-of_clear f (n / 2) (omega arith) (omega arith) (ground (arith, clear_even (n / 2))))
  | no odd ↦ (0, ground (arith, clear_odd (n / 2)))
]

is_power_of_two-pow : (k : ℕ) → is_power_of_two (2 ^ k) ≡ true
unfolding is_power_of_two
is_power_of_two-pow k =
    let cleared : bit_and (2 ^ k) (2 ^ k - 1) ≡ 0 = bit_and_low k (2 ^ k) ∙ mod_self (2 ^ k) in
    ground (arith, one-le-pow k 2)

-- `is_power_of_two` accepts exactly the powers of two.
pub is_power_of_two_iff : (n : ℕ) → (is_power_of_two n ≡ true) ↔ ((k : ℕ) × (n ≡ 2 ^ k))
unfolding is_power_of_two
is_power_of_two_iff n = (
  λ t. IsPower-of_clear n n (omega arith) (ground arith) (ground arith),
  λ (k, e). rw e (is_power_of_two-pow k),
)
