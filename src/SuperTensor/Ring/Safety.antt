-- ===== src/SuperTensor/Ring/Safety.antt =====
-- What holds of a buffer of src/tensor/supertensor.rs in every state that its callers bring about, warmups being of a drained ring.
use toutates.Base.{
  ℕ, ◌*◌, ◌%◌, ◌≤◌, ◌^◌, List, [], get_elem?-bound, ok, ◌≡◌, refl, sym, ap, ◌∙◌, arith, usize_mod,
}
use toutates.Tensor.Element.{ElementType}
use toutates.Tensor.Bytes.{Bytes, Dims}
use toutates.SuperTensor.Index.Position.{IsRing}
use toutates.SuperTensor.Buffer.{SuperTensorBuffer}
use toutates.SuperTensor.Construct.{Outlet, Overrides, new_with_overrides}
use toutates.SuperTensor.Construct.Fresh.{new_with_overrides-IsFresh}
use toutates.SuperTensor.Ring.Distinct.{Distinct}
use toutates.SuperTensor.Ring.Ledger.{Ledger, IsSound}
use toutates.SuperTensor.Ring.Rep.{Rep}

-- Nothing handed out, nothing claimed.
abbrev pub empty_ledger : Ledger
empty_ledger = record { slots = 0; next = 0; oldest = 0; running = [] }

module _ (capacity batch_size : ℕ) where
  pub empty_ledger-IsSound : IsSound capacity batch_size empty_ledger
  empty_ledger-IsSound = record {
    claimed = omega arith;
    in_ring = omega arith;
    reached = omega arith;
    near = omega arith;
    window = tt;
    distinct = tt;
  }

module _ (zeroed : ElementType → Dims → Bytes) (inputs : List Outlet) (overrides : Overrides)
    (num_elements : Dims → ℕ) (capacity batch_size : ℕ) (fits : capacity * batch_size ≤ 2 ^ 61)
    (b : SuperTensorBuffer)
    (made : new_with_overrides zeroed capacity batch_size inputs overrides ≡ ok b) where
  pub accepted : IsRing capacity batch_size
  accepted =
      (new_with_overrides-IsFresh zeroed capacity batch_size inputs overrides b (omega arith)
        made).0

  pub new_with_overrides-Rep :
      Rep capacity batch_size accepted empty_ledger (record { buffer = b; running = [] })
  new_with_overrides-Rep =
      let (ring, masks, (ec, eb), (eh, ee, et), trackers, (tensors, _, fresh)) =
        new_with_overrides-IsFresh zeroed capacity batch_size inputs overrides b (omega arith)
          made in
      record {
        ring_masks = masks;
        ring_capacity = ec;
        ring_batch_size = eb;
        ring_trackers = trackers;
        head_at = eh;
        executor_head_at = ee ∙ sym (ap (λ n. n % usize_mod) zero_slots);
        tail_at = et ∙ sym (ap (λ n. n % usize_mod) zero_slots);
        running_at = refl;
        done = λ i u e d.
            let free_batch =
              (fresh i (omega (arith, trackers, get_elem?-bound b.trackers i u e))).tracker in
            absurd (ground (arith, free_batch, e, d));
      }
    where
      zero_slots : batch_size * 0 ≡ 0
      zero_slots = omega arith
