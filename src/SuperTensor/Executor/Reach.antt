-- ===== src/SuperTensor/Executor/Reach.antt =====
-- Where the tail of src/tensor/supertensor.rs comes to stand, in counters that do not wrap.
use native.Mathlib.Nat.{add-mod_right}
use toutates.Base.{
  ℕ, zero, suc, ◌+◌, ◌/◌, ◌%◌, ◌^◌, ◌≤◌, ◌<◌, ◌==◌, get_elem?, some, false, ◌≡◌, ◌⊎◌, inl, inr,
  refl, ap, ◌∙◌, arith, usize_mod, wrapping_sub,
}
use toutates.SuperTensor.Index.{half_range, masks_of, as_batch_id, as_absolute_batch_higher_bound}
use toutates.SuperTensor.Index.Position.{
  IsRing, as_batch_id-wrapped, as_absolute_batch_higher_bound-wrapped,
}
use toutates.SuperTensor.Buffer.{DataTracker, SuperTensorBuffer}
use toutates.SuperTensor.Executor.{move_tail}
use toutates.SuperTensor.Executor.Tail.{done_batches, stop, go, look, freed, move_tail-IsStuck}

module _ (capacity batch_size : ℕ) (ring : IsRing capacity batch_size)
    (small : batch_size < half_range) where
  -- The tail stands at the counter `p`, the first slot of a batch, and the head at `h`, not before
  -- it and less than 2 ^ 62 slots ahead.
  pub record At (p h : ℕ) (b : SuperTensorBuffer) : Type 0 where
    pub ring_masks : b.masks ≡ masks_of capacity batch_size
    pub tail_at : b.tail ≡ p % usize_mod
    pub head_at : b.head ≡ h % usize_mod
    pub aligned : p % batch_size ≡ 0
    pub ordered : p ≤ h
    pub near : h < p + 2 ^ 62

  end_of_batch :
      (p h : ℕ) (b : SuperTensorBuffer)
      → At p h b
      → as_absolute_batch_higher_bound b.masks b.tail ≡ (p + batch_size) % usize_mod
  end_of_batch p h b a =
      rw (a.ring_masks, a.tail_at)
        (as_absolute_batch_higher_bound-wrapped capacity batch_size ring p
          ∙ ap (λ n. n % usize_mod) (omega (arith, a.aligned)))

  head_past :
      (p h : ℕ) (b : SuperTensorBuffer)
      → At p h b
      → half_range ≤ wrapping_sub (as_absolute_batch_higher_bound b.masks b.tail) b.head
      → p + batch_size < h
  head_past p h b a far = omega (arith, end_of_batch p h b a, a.head_at, a.ordered, a.near, small)

  head_within :
      (p h : ℕ) (b : SuperTensorBuffer)
      → At p h b
      → wrapping_sub (as_absolute_batch_higher_bound b.masks b.tail) b.head < half_range
      → h ≤ p + batch_size
  head_within p h b a close =
      omega (arith, end_of_batch p h b a, a.head_at, a.ordered, a.near, small)

  freed-At :
      (p h : ℕ) (b : SuperTensorBuffer) (t : DataTracker)
      → At p h b
      → half_range ≤ wrapping_sub (as_absolute_batch_higher_bound b.masks b.tail) b.head
      → At (p + batch_size) h (freed b t)
  freed-At p h b t a far = record {
    ring_masks = a.ring_masks;
    tail_at = end_of_batch p h b a;
    head_at = a.head_at;
    aligned = add-mod_right p batch_size ∙ a.aligned;
    ordered = omega (arith, head_past p h b a far);
    near = omega (arith, a.near);
  }

  -- The tail ends at the first slot of a batch, and moves past a batch only if the head is past it.
  move_tail-At :
      (fuel p h : ℕ) (b : SuperTensorBuffer)
      → At p h b
      → (q : ℕ) × At q h (move_tail fuel b) × (p ≤ q) × ((q ≡ p) ⊎ (q < h))
  unfolding move_tail
  move_tail-At zero p h b a = (p, a, omega arith, inl refl)
  move_tail-At (suc fuel) p h b a = elim (look b) [
    | stop stays stuck ↦ (p, rw (stays (suc fuel)) a, omega arith, inl refl)
    | go t behind found done step ↦
        (let past = head_past p h b a behind in
          let (q, there, later, kept) =
            move_tail-At fuel (p + batch_size) h (freed b t) (freed-At p h b t a behind) in
          (q, rw (step fuel) there, omega arith, inr (ground (arith, kept))))
  ]

  -- The tail at the first slot of a batch, the head not before it: with more fuel than there are
  -- batches done, the tail ends at the first slot of a batch, not before where it was and not past
  -- the head, and what stops it is the head, in that batch or at its end, or a batch that is not done.
  pub move_tail_lem :
      (fuel p h : ℕ) (b : SuperTensorBuffer)
      → At p h b
      → done_batches b.trackers < fuel
      → (q : ℕ) × At q h (move_tail fuel b)
        × (p ≤ q)
        × ((q ≡ p) ⊎ (q < h))
        × ((h ≤ q + batch_size)
            ⊎ ((t : DataTracker)
                → get_elem? ((move_tail fuel b).trackers) (q / batch_size % capacity) ≡ some t
                → (t.dirty == 2) ≡ false))
  move_tail_lem fuel p h b a enough =
      let (q, there, later, moved) = move_tail-At fuel p h b a in
      let tail_batch : as_batch_id ((move_tail fuel b).masks) ((move_tail fuel b).tail)
          ≡ q / batch_size % capacity =
        rw (there.ring_masks, there.tail_at) (as_batch_id-wrapped capacity batch_size ring q) in
      (
        q,
        there,
        later,
        moved,
        elim (move_tail-IsStuck fuel b enough) [
          | inl close ↦ inl (head_within q h (move_tail fuel b) there close)
          | inr running ↦ inr (rw tail_batch at running)
        ],
      )

  -- The last batch that the head has reached is not given back: the tail stays where it is.
  pub move_tail-last_batch :
      (fuel p h : ℕ) (b : SuperTensorBuffer) → At p h b → h ≤ p + batch_size → move_tail fuel b ≡ b
  move_tail-last_batch fuel p h b a last = elim (look b) [
    | stop stays stuck ↦ stays fuel
    | go t behind found done step ↦ absurd (omega (arith, head_past p h b a behind))
  ]
