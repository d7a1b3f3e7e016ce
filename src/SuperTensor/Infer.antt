-- ===== src/SuperTensor/Infer.antt =====
-- `SuperTensorBuffer::infer` and `insert_tensors_at` of src/tensor/supertensor.rs.
pub mod Pieces
pub mod Keeps
pub mod Split
pub mod Claims
pub mod Rows
use toutates.Base.{
  ℕ, zero, suc, ◌+◌, ◌-◌, ◌*◌, min, ◌==◌, leb, if◌then◌else◌, List, [], ◌∷◌, get_elem?, set, Option,
  none, some, Result, ok, err, panic, Bool, true, false, ◌||◌, ◌&&◌, not, wrapping_add,
  wrapping_sub,
}
use toutates.Base
use toutates.Base.Int.{as_usize}
use toutates.Tensor.Errors.{InferError, ring_full}
use toutates.Tensor.Bytes.{Dims, TensorBytes, slice_dim0}
use toutates.Tensor.Copy.{BatchableTensor, copy_at_from_bytes}
use toutates.Tracing.{ClientTrace, record_inference_in_queue}
use toutates.SuperTensor.Index.{as_batch_slot_id, as_batch_id, as_absolute_batch_higher_bound}
use toutates.SuperTensor.Buffer.{
  SuperTensorBuffer, M, ◌>>=◌, ◌>>◌, pure, lift, tracker_at, state_at, put_tracker, put_state,
  set_once,
}

-- A claim on the slots `[start, end)` of the batch whose state is the cell `state`: the `Arc`s of
-- `output` and `trace` are those of that cell.
pub record WriteReservation : Type 0 where
  pub state : ℕ
  pub start : ℕ
  pub end : ℕ

-- Two milliseconds, in nanoseconds.
abbrev pub batch_delay : ℕ
batch_delay = 2000000

-- `WriteReservation::new`
unfoldable pub new_reservation : ℕ → ℕ → ℕ → M WriteReservation
new_reservation batch_id start end = do
  tracker ← tracker_at batch_id
  put_tracker batch_id (record tracker { written_slots = tracker.written_slots + (end - start) })
  pure (record { state = tracker.state; start = start; end = end })

-- The first write of a batch marks it and starts its clock.
unfoldable pub open_batch : ℕ → ℕ → M (Unit {0})
open_batch batch_id now = do
  tracker ← tracker_at batch_id
  put_tracker batch_id (record tracker { dirty = 1 })
  state ← state_at tracker.state
  deadline ← lift (set_once state.deadline (now + batch_delay))
  put_state tracker.state (record state { deadline = deadline })
  queue_start ← lift (set_once state.queue_start now)
  put_state tracker.state (record state { deadline = deadline; queue_start = queue_start })

-- `executor_notifier.notify_one()`
unfoldable pub notify_executor : ℕ → M (Unit {0})
notify_executor batch_id = do
  tracker ← tracker_at batch_id
  state ← state_at tracker.state
  put_state tracker.state (record state { executor_permit = true })

-- `Shape::num_elements` of the `ort` crate is the parameter `num_elements`.
module _ (num_elements : Dims → ℕ) where
  -- The loop over `self.input_tensors[batch_id]`: the inputs before a failing one are written.
  unfoldable pub copy_inputs :
      ℕ
      → ℕ
      → ℕ
      → List TensorBytes
      → List BatchableTensor
      → List BatchableTensor × Result InferError (Unit {0})
  unfolding slice_dim0 copy_at_from_bytes
  copy_inputs slot data_start data_end inputs [] = ([], ok tt)
  copy_inputs slot data_start data_end [] (t ∷ ts) = (t ∷ ts, panic)
  copy_inputs slot data_start data_end (input ∷ inputs) (t ∷ ts) =
      let (ts', rest) = copy_inputs slot data_start data_end inputs ts in
      elim (Base.◌>>=◌ (slice_dim0 input.content input.shape data_start data_end)
        (λ slice. copy_at_from_bytes num_elements t slot slice)) [
          | ok t' ↦ (t' ∷ ts', rest)
          | err e ↦ (t ∷ ts, err e)
          | panic ↦ (t ∷ ts, panic)
        ]

  unfoldable pub write_inputs : ℕ → ℕ → ℕ → ℕ → List TensorBytes → M (Unit {0})
  unfolding copy_inputs
  write_inputs batch_id slot data_start data_end inputs b =
      elim (get_elem? b.input_tensors batch_id) [
        | none ↦ (b, panic)
        | some ts ↦
            let (ts', r) = copy_inputs slot data_start data_end inputs ts in
            (record b { input_tensors = set b.input_tensors batch_id ts' }, r)
      ]

  unfoldable pub insert_tensors_at : ℕ → ℕ → ℕ → List TensorBytes → ℕ → M WriteReservation
  insert_tensors_at idx data_start data_end inputs now b =
      let batch_slot = as_batch_slot_id b.masks idx in
      let batch_id = as_batch_id b.masks idx in
      let end = batch_slot + (data_end - data_start) in
      let batch_size = b.batch_size in
      (do
        write_inputs batch_id batch_slot data_start data_end inputs
        if batch_slot == 0 then open_batch batch_id now else pure tt
        reservation ← new_reservation batch_id batch_slot end
        if (batch_slot == 0) || (end == batch_size) then notify_executor batch_id else pure tt
        pure reservation)
        b

  -- The loop of `infer` over the batches that a claim reaches. `none` in place of its fuel would
  -- not be a value of the code: fuel that runs out is a panic, and a claim of `n` slots needs `n`.
  unfoldable pub write_batches :
      ℕ → ℕ → ℕ → ℕ → List TensorBytes → ClientTrace → ℕ → M (List WriteReservation × ClientTrace)
  write_batches zero idx input_start client_batch_size inputs trace now b = (b, panic)
  write_batches (suc fuel) idx input_start client_batch_size inputs trace now b =
      let higher = as_absolute_batch_higher_bound b.masks idx in
      let to_write = min client_batch_size (wrapping_sub higher idx) in
      let input_end = input_start + to_write in
      let trace' = record_inference_in_queue now trace in
      let rest =
        write_batches fuel higher input_end (client_batch_size - to_write) inputs trace' now in
      (do
        reservation ← insert_tensors_at idx input_start input_end inputs now
        if client_batch_size - to_write == 0
            then pure (reservation ∷ [], trace')
            else (rest >>= (λ (more, last_trace). pure (reservation ∷ more, last_trace))))
        b

-- What a round of `infer` comes to. After `retry` the round has changed nothing.
pub data Claim : Type 0 where
  full : Claim
  no_input : Claim
  retry : Claim
  claimed : SuperTensorBuffer → ℕ → ℕ → Claim

-- One round of the outer loop of `infer`: the counters that the calling thread read, the buffer
-- when its exchange on `head` runs, and whether that weak exchange fails for no reason.
pub record Round : Type 0 where
  pub seen_head : ℕ
  pub seen_tail : ℕ
  pub buffer : SuperTensorBuffer
  pub spurious : Bool

-- `data[0].shape[0] as usize`
unfoldable pub client_batch_size : List TensorBytes → Option ℕ
client_batch_size [] = none
client_batch_size (t ∷ _) = first_dim t.shape
  where
    first_dim : Dims → Option ℕ
    first_dim [] = none
    first_dim (d ∷ _) = some (as_usize d)

-- The round up to its exchange, which hands out the slots from `head` on.
unfoldable pub claim_slots : List TensorBytes → Round → Claim
unfolding client_batch_size
claim_slots inputs r =
    let b = r.buffer in
    if leb (b.capacity * b.batch_size) (wrapping_sub r.seen_head r.seen_tail)
    then full
    else elim (client_batch_size inputs) [
      | none ↦ no_input
      | some n ↦
          if (b.head == r.seen_head) && not r.spurious
          then claimed (record b { head = wrapping_add r.seen_head n }) r.seen_head n
          else retry
    ]

-- `infer`: `none` while each of the rounds so far has lost its exchange.
unfoldable pub infer :
    (Dims → ℕ)
    → List TensorBytes
    → ClientTrace
    → ℕ
    → List Round
    → Option (SuperTensorBuffer × Result InferError (List WriteReservation × ClientTrace))
infer num_elements inputs trace now [] = none
infer num_elements inputs trace now (r ∷ rounds) = elim (claim_slots inputs r) [
  | full ↦ some (r.buffer, err ring_full)
  | no_input ↦ some (r.buffer, panic)
  | retry ↦ infer num_elements inputs trace now rounds
  | claimed b first n ↦ some (write_batches num_elements (suc n) first 0 n inputs trace now b)
]
