-- ===== src/SuperTensor/Shared/Served.antt =====
-- Requests that share the batches of src/tensor/supertensor.rs, from their claims to their replies.
use mathlib.Core.Path.{subst}
use toutates.Base.{ℕ, ◌*◌, ◌≤◌, ◌<◌, ◌≡◌, sym, ap, ◌∙◌, List, get_elem?, none, some, ok, usize_mod}
use toutates.Tensor.Bytes.{Bytes, Dims}
use toutates.Tensor.Copy.{HostTensor, BatchableTensor}
use toutates.SuperTensor.Index.{masks_of, as_batch_id}
use toutates.SuperTensor.Index.Position.{IsRing}
use toutates.SuperTensor.Buffer.{Output, BatchState, SuperTensorBuffer}
use toutates.SuperTensor.Infer.{WriteReservation}
use toutates.SuperTensor.Executor.{run_batch}
use toutates.SuperTensor.Shared.Quiet.{cell_at}
use toutates.SuperTensor.Shared.Inputs.{SameKinds-trans}
use toutates.SuperTensor.Shared.Writes.{Insert, run_inserts}
use toutates.SuperTensor.Shared.Answer.{IsRowwise, HasScalarOutputs, AllAnswered, run_batch-answers}
use toutates.SuperTensor.Shared.Ready.{tracker_of}
use toutates.SuperTensor.Shared.Runs.{AllReady, AllReady-AllSound, OwnCells, run_inserts-run}
use toutates.SuperTensor.Shared.Requests.{
  Request, AllAsk, all_rows, writes_of, Shuffle, writes_of-AllApart,
}

-- On a ring of accepted sizes, requests of at least one row each, whose claims follow one another and
-- have no more slots than the ring, are written by `insert_tensors_at` piece by piece, in whatever
-- order the calls come. Each has as many bytes a row as a slot of the batch's buffers, which are of
-- writable types and have the slots; each batch has a state of its own, whose clock is not started
-- before the call for the first slot. Then all calls succeed. If one of the batches, which nothing
-- has run or answered, is then run by a model that works row by row and whose
-- outputs have one element a row, the run succeeds too, and each
-- call on that batch gets by its reservation the model's answer on its own rows.
pub requests-served :
    (num_elements : Dims → ℕ) (capacity size first : ℕ) (qs : List Request) (ws : List Insert)
    (b : SuperTensorBuffer) (f : List HostTensor → Output) (g : List Bytes → List Bytes)
    (idx start_time end_time : ℕ) (ts : List BatchableTensor) (cell : ℕ) (s : BatchState)
    → IsRing capacity size
    → AllAsk qs
    → all_rows qs ≤ capacity * size
    → Shuffle (writes_of size first qs) ws
    → b.masks ≡ masks_of capacity size
    → AllReady num_elements (masks_of capacity size) b ws
    → OwnCells b
    → get_elem? b.input_tensors (as_batch_id (masks_of capacity size) idx) ≡ some ts
    → IsRowwise num_elements ts f g
    → HasScalarOutputs num_elements ts f
    → cell_at b (as_batch_id (masks_of capacity size) idx) ≡ some cell
    → get_elem? b.states cell ≡ some s
    → s.exec_start ≡ none
    → s.exec_end ≡ none
    → s.output ≡ none
    → b.executors_in_use < usize_mod
    → (c : SuperTensorBuffer) × (rs : List WriteReservation) × (items : ℕ) × (d : SuperTensorBuffer)
      × (run_inserts num_elements ws b ≡ (c, ok rs))
      × (run_batch f idx start_time end_time c ≡ (d, ok items))
      × AllAnswered num_elements
          (masks_of capacity size)
          (as_batch_id (masks_of capacity size) idx)
          g
          d.states
          ws
          rs
requests-served num_elements capacity size first qs ws b f g idx start_time end_time ts cell s ring
      asks within order masks ready own inputs rowwise scalar held there not_started not_ended
      no_output few =
    let m = masks_of capacity size in
    let apart = writes_of-AllApart capacity size first qs ws ring asks within order in
    let (c, rs, wrote, stays) = run_inserts-run num_elements m ws b masks apart ready own in
    let masks' : c.masks ≡ m = stays.same_masks ∙ masks in
    let (us, found, kinds) = stays.kinds (as_batch_id m idx) ts inputs in
    let (t, tracked, same_cell) =
      tracker_of c (as_batch_id m idx) cell (stays.same_cells (as_batch_id m idx) ∙ held) in
    let (s', there', (started, ended, output)) = stays.runs cell s there in
    let (d, ran, answered) =
      run_batch-answers num_elements m ws b c rs f g idx start_time end_time us t s' masks apart
        (AllReady-AllSound num_elements m b ws ready) wrote
        (ap (λ k. get_elem? c.input_tensors (as_batch_id k idx)) masks' ∙ found)
        (λ vs lo hi rows same.
          rowwise vs lo hi rows (SameKinds-trans num_elements ts us vs kinds same))
        (λ vs outs same. scalar vs outs (SameKinds-trans num_elements ts us vs kinds same))
        (ap (λ k. get_elem? c.trackers (as_batch_id k idx)) masks' ∙ tracked)
        (ap (λ k. get_elem? c.states k) same_cell ∙ there') (started ∙ not_started)
        (ended ∙ not_ended) (output ∙ no_output)
        (subst (λ n. n < usize_mod) (sym stays.same_users) few) in
    (
      c,
      rs,
      t.written_slots,
      d,
      wrote,
      ran,
      subst (λ k. AllAnswered num_elements m (as_batch_id k idx) g d.states ws rs) masks' answered,
    )
