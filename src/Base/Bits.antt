-- ===== src/Base/Bits.antt =====
-- `&` at variables: its law for the lowest digit, masks of low bits as remainders, and the test
-- for a power of two.
use Prim.Native.Nat.{digits, bit_and-bitwise}
use native.Mathlib.Nat.{pow-suc, one-le-pow}
use toutates.Base.{
  ℕ, zero, suc, ◌+◌, ◌-◌, ◌*◌, ◌/◌, ◌%◌, ◌^◌, ◌≤◌, ◌<◌, min, bit_and, ◌≡◌, refl, sym, ap, ◌∙◌,
  arith, dec_le,
}

-- The digit recursion that the native operation stands for, on `n` units of fuel.
abbrev conj : ℕ → ℕ → ℕ → ℕ
conj n a b = digits (λ _. 0) min n a b

spare_unit : (n a b : ℕ) → a ≤ n → conj (suc n) a b ≡ conj n a b
spare_unit zero zero b h = refl
spare_unit (suc n) zero b h = refl
spare_unit zero (suc a) b h = absurd (omega arith)
spare_unit (suc n) (suc a) b h =
    ap (λ t. t * 2 + min (suc a % 2) (b % 2)) (spare_unit n (suc a / 2) (b / 2) (omega arith))

spare_fuel : (n a b : ℕ) → a ≤ n → conj n a b ≡ bit_and a b
spare_fuel zero zero b h = sym (λ i. bit_and-bitwise 0 b i)
spare_fuel zero (suc a) b h = absurd (omega arith)
spare_fuel (suc n) a b h = elim (dec_le a n) [
  | yes p ↦ spare_unit n a b p ∙ spare_fuel n a b p
  | no p ↦ let e : suc n ≡ a = omega arith in rw e (sym (λ i. bit_and-bitwise a b i))
]

pub bit_and_digit : (a b : ℕ) → bit_and a b ≡ bit_and (a / 2) (b / 2) * 2 + min (a % 2) (b % 2)
bit_and_digit zero b = omega (arith, bit_and-bitwise 0 b, bit_and-bitwise 0 (b / 2))
bit_and_digit (suc a) b =
    omega (arith, bit_and-bitwise (suc a) b, spare_fuel a (suc a / 2) (b / 2) (omega arith))

bit_and-zero_below : (n a : ℕ) → a ≤ n → bit_and a 0 ≡ 0
bit_and-zero_below n zero h = refl
bit_and-zero_below zero (suc a) h = absurd (omega arith)
bit_and-zero_below (suc n) (suc a) h =
    omega (arith, bit_and_digit (suc a) 0, bit_and-zero_below n (suc a / 2) (omega arith))

bit_and_self_below : (n a : ℕ) → a ≤ n → bit_and a a ≡ a
bit_and_self_below n zero h = refl
bit_and_self_below zero (suc a) h = absurd (omega arith)
bit_and_self_below (suc n) (suc a) h =
    omega (arith, bit_and_digit (suc a) (suc a), bit_and_self_below n (suc a / 2) (omega arith))

halve_mod : (q a : ℕ) → 0 < q → a / 2 % q * 2 + a % 2 ≡ a % (q * 2)
halve_mod q a h = grind arith

-- A mask of the `k` low bits takes the remainder by `2 ^ k`.
pub bit_and_low : (k a : ℕ) → bit_and a (2 ^ k - 1) ≡ a % 2 ^ k
bit_and_low zero a = omega (arith, bit_and-zero_below a a (omega arith))
bit_and_low (suc k) a = ground (
  arith,
  pow-suc 2 k,
  one-le-pow k 2,
  bit_and_digit a (2 ^ suc k - 1),
  bit_and_low k (a / 2),
  halve_mod (2 ^ k) a,
)

pub bit_and_self : (a : ℕ) → bit_and a a ≡ a
bit_and_self a = bit_and_self_below a a (omega arith)
