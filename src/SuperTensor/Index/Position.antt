-- ===== src/SuperTensor/Index/Position.antt =====
-- Where a counter points: the masks as remainders, also after the counter has wrapped.
use native.Mathlib.Nat.{one-le-pow, mod-mod_of_dvd, dvd-mul_left, dvd_trans, mod-le}
use toutates.Base.{
  ℕ, ◌+◌, ◌-◌, ◌*◌, ◌/◌, ◌%◌, ◌^◌, ◌<◌, bit_and, ◌≡◌, sym, true, arith, ◌∙◌, ap, usize_mod,
}
use toutates.Base.Bits.{bit_and_low}
use toutates.Base.Blocks.{two-pow-add, exponent-lt, split_div}
use toutates.SuperTensor.Index.{
  is_power_of_two, as_batch_slot_id, as_batch_id, as_absolute_batch_lower_bound,
  as_absolute_batch_higher_bound, masks_of,
}
use toutates.SuperTensor.Index.Power.{is_power_of_two_iff}

-- What `new_with_overrides` checks of its sizes, and that their product fits a `usize`.
pub record IsRing (capacity batch_size : ℕ) : Type 0 where
  pub capacity_power : is_power_of_two capacity ≡ true
  pub batch_power : is_power_of_two batch_size ≡ true
  pub fits : capacity * batch_size < usize_mod

-- The same in numbers: the ring divides 2 ^ 64.
pub record Shape (capacity batch_size : ℕ) : Type 0 where
  pub ring_exp : ℕ
  pub batch_exp : ℕ
  pub turns : ℕ
  pub ring_pow : capacity * batch_size ≡ 2 ^ ring_exp
  pub batch_pow : batch_size ≡ 2 ^ batch_exp
  pub batch_pos : 0 < batch_size
  pub capacity_pos : 0 < capacity
  pub whole : usize_mod ≡ turns * (capacity * batch_size)

Shape-of_exponents :
    (c b capacity batch_size : ℕ)
    → capacity ≡ 2 ^ c
    → batch_size ≡ 2 ^ b
    → capacity * batch_size < usize_mod
    → Shape capacity batch_size
Shape-of_exponents c b capacity batch_size ec eb fits = record {
  ring_exp = c + b;
  batch_exp = b;
  turns = 2 ^ (64 - (c + b));
  ring_pow = ring;
  batch_pow = eb;
  batch_pos = omega (arith, one-le-pow b 2 (omega arith));
  capacity_pos = omega (arith, one-le-pow c 2 (omega arith));
  whole = rw ring (ap (λ k. 2 ^ k) total ∙ two-pow-add (64 - (c + b)) (c + b));
}
  where
    ring : capacity * batch_size ≡ 2 ^ (c + b)
    ring = rw (ec, eb) (sym (two-pow-add c b))

    total : 64 ≡ 64 - (c + b) + (c + b)
    total = omega (arith, exponent-lt (c + b) (rw ring at fits))

pub IsRing-Shape :
    (capacity batch_size : ℕ) → IsRing capacity batch_size → Shape capacity batch_size
IsRing-Shape capacity batch_size r =
    let (c, ec) = (is_power_of_two_iff capacity).0 r.capacity_power in
    let (b, eb) = (is_power_of_two_iff batch_size).0 r.batch_power in
    Shape-of_exponents c b capacity batch_size ec eb r.fits

low_mask : (m k x : ℕ) → m ≡ 2 ^ k → bit_and x (m - 1) ≡ x % m
low_mask m k x e = rw e (bit_and_low k x)

module _ (capacity batch_size : ℕ) (ring : IsRing capacity batch_size) where
  open (IsRing-Shape capacity batch_size ring) use {
    ring_exp, batch_exp, turns, ring_pow, batch_pow, batch_pos, capacity_pos, whole,
  }

  ring_divides : (n : ℕ) → n % usize_mod % (capacity * batch_size) ≡ n % (capacity * batch_size)
  ring_divides n = rw whole (mod-mod_of_dvd (capacity * batch_size) n (dvd-mul_left _ _))

  batch_divides : (n : ℕ) → n % usize_mod % batch_size ≡ n % batch_size
  batch_divides n = rw whole (
      mod-mod_of_dvd batch_size n
        (dvd_trans batch_size (dvd-mul_left batch_size capacity) (dvd-mul_left _ _)))

  -- On a ring whose sizes are accepted, the slot of a counter that may have wrapped is the counter
  -- modulo the batch size.
  pub as_batch_slot_id-wrapped :
      (n : ℕ) → as_batch_slot_id (masks_of capacity batch_size) (n % usize_mod) ≡ n % batch_size
  unfolding as_batch_slot_id masks_of
  as_batch_slot_id-wrapped n =
      low_mask batch_size batch_exp (n % usize_mod) batch_pow ∙ batch_divides n

  -- On a ring whose sizes are accepted, the batch of a counter that may have wrapped is its quotient
  -- by the batch size, modulo the capacity.
  pub as_batch_id-wrapped :
      (n : ℕ)
      → as_batch_id (masks_of capacity batch_size) (n % usize_mod) ≡ n / batch_size % capacity
  unfolding as_batch_id masks_of
  as_batch_id-wrapped n =
      ap (λ t. t / batch_size)
        (low_mask (capacity * batch_size) ring_exp (n % usize_mod) ring_pow ∙ ring_divides n)
      ∙ split_div batch_size capacity n batch_pos capacity_pos

  -- On a ring whose sizes are accepted, the lower bound of a counter that may have wrapped is the
  -- first counter of its batch, wrapped.
  pub as_absolute_batch_lower_bound-wrapped :
      (n : ℕ)
      → as_absolute_batch_lower_bound (masks_of capacity batch_size) (n % usize_mod)
        ≡ (n - n % batch_size) % usize_mod
  unfolding as_absolute_batch_lower_bound
  as_absolute_batch_lower_bound-wrapped n =
      rw (as_batch_slot_id-wrapped n)
        (omega (arith, batch_divides n, mod-le (n % usize_mod) batch_size))

  -- On a ring whose sizes are accepted, the higher bound of a counter that may have wrapped is the
  -- first counter of the next batch, wrapped.
  pub as_absolute_batch_higher_bound-wrapped :
      (n : ℕ)
      → as_absolute_batch_higher_bound (masks_of capacity batch_size) (n % usize_mod)
        ≡ (n - n % batch_size + batch_size) % usize_mod
  unfolding as_absolute_batch_higher_bound masks_of
  as_absolute_batch_higher_bound-wrapped n = omega (arith, as_absolute_batch_lower_bound-wrapped n)
