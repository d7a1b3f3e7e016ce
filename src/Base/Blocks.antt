-- ===== src/Base/Blocks.antt =====
-- Arithmetic of blocks: a number seen as a block number, and a place in a block.
use native.Mathlib.Nat.{
  pow-suc, pow-le-pow_right, mod-eq_of_lt, mod-lt, div-add-mod, add-mul-mod_self_right, mul-add-div,
  div-eq_of_lt,
}
use toutates.Base.{
  ℕ, zero, suc, ◌+◌, ◌*◌, ◌/◌, ◌%◌, ◌^◌, ◌<◌, ◌≡◌, sym, arith, ◌∙◌, ap, usize_mod, dec_le,
}

pub two-pow-add : (a b : ℕ) → 2 ^ (a + b) ≡ 2 ^ a * 2 ^ b
two-pow-add zero b = ground arith
two-pow-add (suc a) b =
    let e : suc a + b ≡ suc (a + b) = omega arith in
    rw e
      (omega (arith, two-pow-add a b, pow-suc 2 (a + b), ap (λ (t : ℕ). t * 2 ^ b) (pow-suc 2 a)))

pub exponent-lt : (k : ℕ) → 2 ^ k < usize_mod → k < 64
exponent-lt k h = elim (dec_le 64 k) [
  | yes p ↦ absurd (omega (arith, pow-le-pow_right {n = 2} (omega arith) p))
  | no p ↦ omega arith
]

pub block_lt : (b c s r : ℕ) → s < c → r < b → b * s + r < c * b
block_lt b c s r hs hr = grind arith

block_split : (b c n : ℕ) → b * (n / b % c) + n % b + n / b / c * (c * b) ≡ n
block_split b c n =
    let outer : b * (n / b) + n % b ≡ n = div-add-mod n b in
    let inner : c * (n / b / c) + n / b % c ≡ n / b = div-add-mod (n / b) c in
    omega (arith, ap (λ (t : ℕ). b * t) inner)

split_mod : (b c n : ℕ) → 0 < b → 0 < c → n % (c * b) ≡ b * (n / b % c) + n % b
split_mod b c n hb hc =
    ap (λ t. t % (c * b)) (sym (block_split b c n))
    ∙ add-mul-mod_self_right (b * (n / b % c) + n % b) (n / b / c) (c * b)
    ∙ mod-eq_of_lt (block_lt b c (n / b % c) (n % b) (mod-lt (n / b) hc) (mod-lt n hb))

-- Of `c` blocks of `b` places, the one that `n` falls into.
pub split_div : (b c n : ℕ) → 0 < b → 0 < c → n % (c * b) / b ≡ n / b % c
split_div b c n hb hc =
    ap (λ t. t / b) (split_mod b c n hb hc)
    ∙ mul-add-div hb (n / b % c) (n % b)
    ∙ omega (arith, div-eq_of_lt (mod-lt n hb))
