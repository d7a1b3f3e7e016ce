-- ===== src/SuperTensor/Executor/Seal.antt =====
-- Sealing a batch: `seal_current_batch` of src/tensor/supertensor.rs on counters that may wrap.
use toutates.Base.{
  ℕ, ◌+◌, ◌-◌, ◌%◌, ◌≤◌, ◌<◌, ltb, ◌^◌, ok, panic, true, ◌≡◌, refl, ap, ◌∙◌, arith, usize_mod,
  wrapping_sub, wrapping_add,
}
use toutates.SuperTensor.Index.{
  half_range, masks_of, as_absolute_batch_lower_bound, as_absolute_batch_higher_bound,
}
use toutates.SuperTensor.Index.Position.{
  IsRing, as_absolute_batch_lower_bound-wrapped, as_absolute_batch_higher_bound-wrapped,
}
use toutates.SuperTensor.Buffer.{SuperTensorBuffer}
use toutates.SuperTensor.Executor.{seal_head, open_slots}

module _ (capacity batch_size : ℕ) (ring : IsRing capacity batch_size)
    (small : batch_size < half_range) where
  -- Sealing the batch whose first slot is the counter `p`, with the head at the counter `h`, less
  -- than 2 ^ 62 slots away on either side: a head before the batch is a panic, and otherwise the
  -- seal returns the slots that were still open, and leaves the head where it was or at the end of
  -- the batch, whichever is later.
  pub seal_head_lem :
      (p h idx : ℕ) (b : SuperTensorBuffer)
      → b.masks ≡ masks_of capacity batch_size
      → b.head ≡ h % usize_mod
      → idx ≡ p % usize_mod
      → p % batch_size ≡ 0
      → h < p + 2 ^ 62
      → p < h + 2 ^ 62
      → (h < p → seal_head idx b ≡ (b, panic))
        × (p ≤ h
            → seal_head idx b ≡ (
              record b { head = (h + (p + batch_size - h)) % usize_mod },
              ok (p + batch_size - h),
            ))
  unfolding seal_head open_slots
  seal_head_lem p h idx b em eh ei aligned near near' =
      let lower : as_absolute_batch_lower_bound b.masks idx ≡ p % usize_mod =
        rw (em, ei)
          (as_absolute_batch_lower_bound-wrapped capacity batch_size ring p
            ∙ ap (λ n. n % usize_mod) (omega (arith, aligned))) in
      let higher : as_absolute_batch_higher_bound b.masks idx ≡ (p + batch_size) % usize_mod =
        rw (em, ei)
          (as_absolute_batch_higher_bound-wrapped capacity batch_size ring p
            ∙ ap (λ n. n % usize_mod) (omega (arith, aligned))) in
      (
        λ before. ground arith,
        λ after.
            (let opened : open_slots (as_absolute_batch_higher_bound b.masks idx) b.head
                  ≡ p + batch_size - h =
                ground (arith, small) in
              let at_or_after : ltb
                    (wrapping_sub b.head (as_absolute_batch_lower_bound b.masks idx)) half_range
                  ≡ true =
                ground arith in
              let moved : wrapping_add b.head (p + batch_size - h)
                  ≡ (h + (p + batch_size - h)) % usize_mod =
                omega arith in
              rw (at_or_after, opened, moved, seal_head) refl),
      )
