-- ===== src/SuperTensor/Executor/Run.antt =====
-- The run of a batch in src/tensor/supertensor.rs: the reservations on it see its result, and the
-- batch gets a new state.
use toutates.Base.{
  ℕ, suc, ◌<◌, ◌≢◌, List, [], ◌∷◌, ◌++◌, map, get_elem?, set, length, length-set,
  get_elem?-set_self, get_elem?-append_left, get_elem?-append_last, get_elem?-bound, set-set, none,
  some, ok, ◌≡◌, refl, sym, ◌∙◌, arith, usize_mod, wrapping_add, wrapping_sub,
}
use toutates.Tensor.Copy.{HostTensor, BatchableTensor}
use toutates.SuperTensor.Index.{as_batch_id}
use toutates.SuperTensor.Buffer.{
  Output, BatchState, new_batch_state, DataTracker, SuperTensorBuffer,
}
use toutates.SuperTensor.Executor.{
  move_tail, execute_current_batch, reset_batch, enter_executor, leave_executor, free_batches,
  start_execution, run_batch, get_data_view, new_cell,
}
use toutates.SuperTensor.Executor.Kept.{move_tail-Kept}

module _ (id : ℕ) (b : SuperTensorBuffer) (t : DataTracker)
    (tracked : get_elem? b.trackers id ≡ some t) where
  start_execution-ok :
      (now : ℕ) (s : BatchState)
      → get_elem? b.states t.state ≡ some s
      → s.exec_start ≡ none
      → start_execution id now b
        ≡ (record b { states = set b.states t.state (record s { exec_start = some now }) }, ok tt)
  unfolding start_execution
  start_execution-ok now s held e = ground (arith, tracked, held, e)

  pub reset_batch-ok : reset_batch id b ≡ (
    record b {
      states = b.states ++ (new_batch_state ∷ []);
      trackers =
          set b.trackers id (record t { state = length b.states; written_slots = 0; dirty = 2 });
    },
    ok tt,
  )
  unfolding reset_batch new_cell
  reset_batch-ok = ground (arith, tracked)

  execute_current_batch-ok :
      (f : List HostTensor → Output) (idx now : ℕ) (s : BatchState) (ts : List BatchableTensor)
      → as_batch_id b.masks idx ≡ id
      → get_elem? b.input_tensors id ≡ some ts
      → get_elem? b.states t.state ≡ some s
      → s.exec_end ≡ none
      → s.output ≡ none
      → execute_current_batch f idx now b ≡ (
        record b {
          states =
              set b.states t.state (record s {
                exec_end = some now;
                output = some (f (map (λ i. i.inner_tensor) ts));
              });
        },
        ok tt,
      )
  unfolding execute_current_batch get_data_view
  execute_current_batch-ok f idx now s ts ei inputs held e o =
      ground (arith, tracked, ei, inputs, held, e, o)

-- The buffer when a batch has run and been reset, before batches are given back.
abbrev ran : ℕ → SuperTensorBuffer → DataTracker → BatchState → SuperTensorBuffer
ran id b t s = record b {
  states = set b.states t.state s ++ (new_batch_state ∷ []);
  trackers = set b.trackers id (record t { state = length b.states; written_slots = 0; dirty = 2 });
  executors_in_use = wrapping_add b.executors_in_use 1;
}

module _ (f : List HostTensor → Output) (idx start_time end_time : ℕ) (b : SuperTensorBuffer)
    (t : DataTracker) (s : BatchState) (ts : List BatchableTensor)
    (tracked : get_elem? b.trackers (as_batch_id b.masks idx) ≡ some t)
    (inputs : get_elem? b.input_tensors (as_batch_id b.masks idx) ≡ some ts)
    (held : get_elem? b.states t.state ≡ some s) (not_started : s.exec_start ≡ none)
    (not_ended : s.exec_end ≡ none) (no_output : s.output ≡ none) where
  started : BatchState
  started = record s { exec_start = some start_time }

  finished : BatchState
  finished = record s {
    exec_start = some start_time;
    exec_end = some end_time;
    output = some (f (map (λ i. i.inner_tensor) ts));
  }

  entered : SuperTensorBuffer
  entered = record b {
    states = set b.states t.state started;
    executors_in_use = wrapping_add b.executors_in_use 1;
  }

  executed : SuperTensorBuffer
  executed = record entered { states = set (set b.states t.state started) t.state finished }

  after : SuperTensorBuffer
  after = move_tail (suc b.capacity) (ran (as_batch_id b.masks idx) b t finished)

  run_batch-steps : run_batch f idx start_time end_time b ≡ (
    record after { executors_in_use = wrapping_sub after.executors_in_use 1 },
    ok t.written_slots,
  )
  unfolding run_batch enter_executor leave_executor free_batches started finished entered executed
      after
  run_batch-steps =
      let one =
        start_execution-ok (as_batch_id b.masks idx) b t tracked start_time s held not_started in
      let two =
        execute_current_batch-ok (as_batch_id b.masks idx) entered t tracked f idx end_time started
          ts refl inputs
          (get_elem?-set_self b.states t.state started (get_elem?-bound b.states t.state s held))
          not_ended no_output in
      let three : reset_batch (as_batch_id b.masks idx) executed
          ≡ (ran (as_batch_id b.masks idx) b t finished, ok tt) =
        rw
          (
            sym (length-set {0} b.states t.state finished),
            sym (set-set b.states t.state started finished),
          )
          (reset_batch-ok (as_batch_id b.masks idx) executed t tracked) in
      ground (arith, one, tracked, two, three)

  -- Running a sealed batch that nothing has run or answered yet: the call returns the number of its
  -- items; the state that its reservations hold has the result of the model on the batch's inputs
  -- and both times; the batch has a new, empty state and no writes; and the count of executors in
  -- use is what it was.
  pub run_batch_lem :
      b.executors_in_use < usize_mod
      → (c : SuperTensorBuffer) × (run_batch f idx start_time end_time b ≡ (c, ok t.written_slots))
        × (get_elem? c.states t.state
            ≡ some (record s {
              exec_start = some start_time;
              exec_end = some end_time;
              output = some (f (map (λ i. i.inner_tensor) ts));
            }))
        × ((u : DataTracker) × (get_elem? c.trackers (as_batch_id b.masks idx) ≡ some u)
            × (u.written_slots ≡ 0)
            × (u.state ≢ t.state)
            × (get_elem? c.states u.state ≡ some new_batch_state))
        × (c.executors_in_use ≡ b.executors_in_use)
  unfolding after finished
  run_batch_lem few =
      let bound = get_elem?-bound b.states t.state s held in
      let kept = move_tail-Kept (suc b.capacity) (ran (as_batch_id b.masks idx) b t finished) in
      let (u, eu, same_state, same_written) = kept.trackers (as_batch_id b.masks idx) _ (
        get_elem?-set_self b.trackers (as_batch_id b.masks idx) _
          (get_elem?-bound b.trackers (as_batch_id b.masks idx) t tracked)) in
      let size = length-set {0} b.states t.state finished in
      (
        record after { executors_in_use = wrapping_sub after.executors_in_use 1 },
        run_batch-steps,
        rw kept.states (
            get_elem?-append_left (set b.states t.state finished) _ t.state
              (omega (arith, size, bound))
            ∙ get_elem?-set_self b.states t.state finished bound),
        (
          u,
          eu,
          same_written,
          λ e. omega (arith, same_state, bound),
          rw (kept.states, same_state)
              (get_elem?-append_last (set b.states t.state finished) new_batch_state
                (length b.states) (sym size)),
        ),
        omega (arith, kept.executors_in_use),
      )
