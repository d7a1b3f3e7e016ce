-- ===== src/SuperTensor/Index.antt =====
-- `RingBufferIndex` and `PaddedAtomic` of src/tensor/supertensor.rs: from a counter that only
-- grows, modulo 2 ^ 64, to a batch of the ring and a slot within that batch.
pub mod Power
pub mod Position
use toutates.Base.{
  ℕ, ◌-◌, ◌*◌, ◌/◌, ◌==◌, Bool, not, ◌&&◌, bit_and, usize_mod, wrapping_add, wrapping_sub,
}

abbrev pub half_range : ℕ
half_range = (usize_mod - 1) / 2

pub is_power_of_two : ℕ → Bool
is_power_of_two n = not (n == 0) && (bit_and n (n - 1) == 0)

-- The fields of `PaddedAtomic` beside the counter; the three counters of a ring share them.
pub record Masks : Type 0 where
  pub ring_mask : ℕ
  pub batch_mask : ℕ
  pub batch_size : ℕ

-- `self.index & self.atomic_ref.batch_mask`
unfoldable pub as_batch_slot_id : Masks → ℕ → ℕ
as_batch_slot_id m index = bit_and index m.batch_mask

unfoldable pub as_batch_id : Masks → ℕ → ℕ
as_batch_id m index = bit_and index m.ring_mask / m.batch_size

unfoldable pub as_absolute_batch_lower_bound : Masks → ℕ → ℕ
unfolding as_batch_slot_id
as_absolute_batch_lower_bound m index = wrapping_sub index (as_batch_slot_id m index)

unfoldable pub as_absolute_batch_higher_bound : Masks → ℕ → ℕ
unfolding as_absolute_batch_lower_bound
as_absolute_batch_higher_bound m index =
    wrapping_add (as_absolute_batch_lower_bound m index) m.batch_size

-- The masks that `SuperTensorBuffer::new_with_overrides` stores.
unfoldable pub masks_of : ℕ → ℕ → Masks
masks_of capacity batch_size = record {
  ring_mask = capacity * batch_size - 1;
  batch_mask = batch_size - 1;
  batch_size = batch_size;
}
