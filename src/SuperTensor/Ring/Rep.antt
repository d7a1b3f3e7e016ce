-- ===== src/SuperTensor/Ring/Rep.antt =====
-- How a buffer of src/tensor/supertensor.rs stands for a ledger: its counters are the ledger's,
-- wrapped, and a batch of the window that it marks as done is one that was claimed and is not running.
use native.Mathlib.Nat.{mul-div_cancel_left}
use toutates.Base.{
  ℕ, ◌+◌, ◌*◌, ◌%◌, ◌≤◌, ◌<◌, ◌==◌, map, get_elem?, length, some, ◌≡◌, ap, ◌∙◌, true, usize_mod,
}
use toutates.SuperTensor.Index.{masks_of, as_batch_id}
use toutates.SuperTensor.Index.Position.{IsRing, IsRing-Shape, as_batch_id-wrapped}
use toutates.SuperTensor.Buffer.{DataTracker, SuperTensorBuffer}
use toutates.SuperTensor.Ring.Distinct.{Fresh}
use toutates.SuperTensor.Ring.Ledger.{Ledger}
use toutates.SuperTensor.Ring.Steps.{System}
use toutates.SuperTensor.Ring.Calm.{IsCalm}

module _ (capacity batch_size : ℕ) (ring : IsRing capacity batch_size) where
  -- The counter of the first slot of batch `p`.
  abbrev pub counter : ℕ → ℕ
  counter p = batch_size * p % usize_mod

  -- The batches of the window that stand at place `i` of the ring are done.
  abbrev pub IsDone : Ledger → ℕ → Type 0
  IsDone l i =
      (p : ℕ)
      → l.oldest ≤ p
      → p < l.oldest + capacity
      → p % capacity ≡ i
      → (p < l.next) × Fresh p l.running

  pub record Rep (l : Ledger) (s : System) : Type 0 where
    pub ring_masks : s.buffer.masks ≡ masks_of capacity batch_size
    pub ring_capacity : s.buffer.capacity ≡ capacity
    pub ring_batch_size : s.buffer.batch_size ≡ batch_size
    pub ring_trackers : length s.buffer.trackers ≡ capacity
    pub head_at : s.buffer.head ≡ l.slots % usize_mod
    pub executor_head_at : s.buffer.executor_head ≡ counter l.next
    pub tail_at : s.buffer.tail ≡ counter l.oldest
    pub running_at : s.running ≡ map counter l.running
    pub done :
        (i : ℕ) (u : DataTracker)
        → get_elem? s.buffer.trackers i ≡ some u
        → (u.dirty == 2) ≡ true
        → IsDone l i

  pub as_batch_id-counter :
      (p : ℕ) → as_batch_id (masks_of capacity batch_size) (counter p) ≡ p % capacity
  as_batch_id-counter p =
      as_batch_id-wrapped capacity batch_size ring (batch_size * p)
      ∙ ap (λ t. t % capacity)
          (mul-div_cancel_left p ((IsRing-Shape capacity batch_size ring).batch_pos))

  pub Rep-calm :
      (l : Ledger) (s : System) (b : SuperTensorBuffer)
      → Rep l s
      → IsCalm s.buffer b
      → Rep l (record s { buffer = b })
  Rep-calm l s b r c = record {
    ring_masks = ap (λ f. f.masks) c.same_frame ∙ r.ring_masks;
    ring_capacity = ap (λ f. f.capacity) c.same_frame ∙ r.ring_capacity;
    ring_batch_size = ap (λ f. f.batch_size) c.same_frame ∙ r.ring_batch_size;
    ring_trackers = c.same_length ∙ r.ring_trackers;
    head_at = ap (λ f. f.head) c.same_frame ∙ r.head_at;
    executor_head_at = ap (λ f. f.executor_head) c.same_frame ∙ r.executor_head_at;
    tail_at = ap (λ f. f.tail) c.same_frame ∙ r.tail_at;
    running_at = r.running_at;
    done = λ i u e d. let (v, ev, dv) = c.done_before i u e d in r.done i v ev dv;
  }
