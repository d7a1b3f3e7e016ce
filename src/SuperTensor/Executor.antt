-- ===== src/SuperTensor/Executor.antt =====
-- The executor's side of src/tensor/supertensor.rs: claiming a batch, sealing it, running the model
-- on it, and giving it back to the ring.
pub mod Tail
pub mod Reach
pub mod Kept
pub mod Run
pub mod OneBatch
pub mod Snapshot
pub mod Seal
use toutates.Base.{
  ℕ, zero, suc, min, ◌-◌, ◌*◌, ◌==◌, ltb, leb, if◌then◌else◌, List, [], ◌∷◌, ◌++◌, map, length,
  get_elem?, set, Option, none, some, Result, ok, panic, Bool, true, false, ◌&&◌, wrapping_add,
  wrapping_sub,
}
use toutates.Tensor.Errors.{InferError}
use toutates.Tensor.Copy.{HostTensor}
use toutates.SuperTensor.Index.{
  half_range, as_batch_id, as_absolute_batch_higher_bound, as_absolute_batch_lower_bound,
}
use toutates.SuperTensor.Buffer.{
  Output, new_batch_state, SuperTensorBuffer, M, ◌>>=◌, ◌>>◌, pure, modify, lift, tracker_at,
  state_at, put_tracker, put_state, set_once,
}

-- One round of the claim on `executor_head`: `none` while the ring is full, or the exchange is lost.
-- The counters are those that the round read; `b` is the buffer when the exchange runs.
unfoldable pub claim_batch : ℕ → ℕ → Bool → SuperTensorBuffer → Option (SuperTensorBuffer × ℕ)
claim_batch seen_executor_head seen_tail spurious b =
    if leb (b.capacity * b.batch_size) (wrapping_sub seen_executor_head seen_tail)
    then none
    else if (b.executor_head == seen_executor_head) && (if spurious then false else true)
    then some (
      record b { executor_head = wrapping_add seen_executor_head b.batch_size },
      seen_executor_head,
    )
    else none

-- Whether `head` is still inside the batch that ends at `higher`, and how many slots are then open.
unfoldable pub open_slots : ℕ → ℕ → ℕ
open_slots higher head =
    let dist_to_higher = wrapping_sub higher head in
    if ltb 0 dist_to_higher && ltb dist_to_higher half_range then dist_to_higher else 0

-- The first loop of `seal_current_batch`, in its last round: it moves `head` past the open slots of
-- the batch, and returns how many those were. Earlier rounds lose their exchange and change nothing.
unfoldable pub seal_head : ℕ → M ℕ
seal_head idx b =
    let lower = as_absolute_batch_lower_bound b.masks idx in
    let remaining = open_slots (as_absolute_batch_higher_bound b.masks idx) b.head in
    if ltb (wrapping_sub b.head lower) half_range
    then (record b { head = wrapping_add b.head remaining }, ok remaining)
    else (b, panic)

-- The second loop reads the counter of the writes until it is what the claims on the batch add up
-- to. A higher count panics.
pub data Writes : Type 0 where
  complete pending too_many : Writes

unfoldable pub check_writes : ℕ → ℕ → ℕ → Writes
check_writes batch_size remaining written =
    let expected = batch_size - remaining in
    if written == expected then complete else if ltb written expected then pending else too_many

-- `get_data_view`
unfoldable pub get_data_view : SuperTensorBuffer → ℕ → Result InferError (List HostTensor)
get_data_view b idx = elim (get_elem? b.input_tensors (as_batch_id b.masks idx)) [
  | none ↦ panic
  | some ts ↦ ok (map (λ t. t.inner_tensor) ts)
]

-- `execute_current_batch`: the result of `f` goes to the state that the reservations share.
unfoldable pub execute_current_batch : (List HostTensor → Output) → ℕ → ℕ → M (Unit {0})
execute_current_batch f idx now b =
    let batch_id = as_batch_id b.masks idx in
    (do
      inputs ← lift (get_data_view b idx)
      tracker ← tracker_at batch_id
      state ← state_at tracker.state
      exec_end ← lift (set_once state.exec_end now)
      output ← lift (set_once state.output (f inputs))
      put_state tracker.state (record state { exec_end = exec_end; output = output }))
      b

-- `BatchState::new`, in a new cell of the store.
unfoldable pub new_cell : M ℕ
new_cell b = (record b { states = b.states ++ (new_batch_state ∷ []) }, ok (length b.states))

-- `reset_batch`: the tracker gets a new state; the old one stays with its reservations.
unfoldable pub reset_batch : ℕ → M (Unit {0})
reset_batch batch_id = do
  tracker ← tracker_at batch_id
  cell ← new_cell
  put_tracker batch_id (record tracker { state = cell; written_slots = 0; dirty = 2 })

-- `move_tail_to_next_non_dirty_buffer`, on fuel: a round that goes on frees a finished batch, and
-- there are `capacity` of them. The exchanges are taken not to fail for no reason, as on x86.
unfoldable pub move_tail : ℕ → SuperTensorBuffer → SuperTensorBuffer
move_tail zero b = b
move_tail (suc fuel) b =
    let higher = as_absolute_batch_higher_bound b.masks b.tail in
    let id = as_batch_id b.masks b.tail in
    elim (ltb (wrapping_sub higher b.head) half_range) [
      | true ↦ b
      | false ↦ elim (get_elem? b.trackers id) [
        | none ↦ b
        | some t ↦ elim (t.dirty == 2) [
          | true ↦
              move_tail fuel
                (record b { tail = higher; trackers = set b.trackers id (record t { dirty = 0 }) })
          | false ↦ b
        ]
      ]
    ]

-- `execute_on_batch` after its claim, up to the seal. It waits for the first notification, which
-- takes the permit of the batch's state (`none`: there is no permit, and it goes on waiting).
unfoldable pub await_first_write : ℕ → M (Option (Unit {0}))
await_first_write idx b =
    (do
      tracker ← tracker_at (as_batch_id b.masks idx)
      state ← state_at tracker.state
      if state.executor_permit
          then (put_state tracker.state (record state { executor_permit = false })
              >> pure (some tt))
          else pure none)
      b

-- The deadline up to which it then waits for the batch to fill; `none` where it does not wait.
unfoldable pub fill_deadline : ℕ → M (Option ℕ)
fill_deadline idx b =
    (do
      tracker ← tracker_at (as_batch_id b.masks idx)
      state ← state_at tracker.state
      if ltb 0 (open_slots (as_absolute_batch_higher_bound b.masks idx) b.head)
          then pure state.deadline
          else pure none)
      b

-- `ExecutorsInUseGuard::new` and its `drop`: the counter wraps.
unfoldable pub enter_executor : M (Unit {0})
enter_executor = modify (λ b. record b { executors_in_use = wrapping_add b.executors_in_use 1 })

unfoldable pub leave_executor : M (Unit {0})
leave_executor = modify (λ b. record b { executors_in_use = wrapping_sub b.executors_in_use 1 })

unfoldable pub free_batches : M (Unit {0})
free_batches b = (move_tail (suc b.capacity) b, ok tt)

unfoldable pub start_execution : ℕ → ℕ → M (Unit {0})
start_execution batch_id now = do
  tracker ← tracker_at batch_id
  state ← state_at tracker.state
  exec_start ← lift (set_once state.exec_start now)
  put_state tracker.state (record state { exec_start = exec_start })

-- The run of a sealed batch whose writes are complete: the items it held.
unfoldable pub run_batch : (List HostTensor → Output) → ℕ → ℕ → ℕ → M ℕ
run_batch f idx start_time end_time b =
    let batch_id = as_batch_id b.masks idx in
    (do
      start_execution batch_id start_time
      tracker ← tracker_at batch_id
      let batch_items = tracker.written_slots
      enter_executor
      execute_current_batch f idx end_time
      reset_batch batch_id
      free_batches
      leave_executor
      pure batch_items)
      b

-- The rest of `execute_on_batch` once `seal_head` has returned `remaining`; `none` while writes of
-- the batch are still under way.
unfoldable pub finish_batch : (List HostTensor → Output) → ℕ → ℕ → ℕ → ℕ → M (Option ℕ)
finish_batch f idx remaining start_time end_time b =
    let batch_size = b.batch_size in
    (do
      tracker ← tracker_at (as_batch_id b.masks idx)
      elim (check_writes batch_size remaining tracker.written_slots) [
        | complete ↦ run_batch f idx start_time end_time >>= (λ items. pure (some items))
        | pending ↦ pure none
        | too_many ↦ lift panic
      ])
      b

-- `warmup`: a batch that no request writes to. The values that its session returns are dropped.
unfoldable pub warmup : M (Unit {0})
warmup b =
    let batch_start = b.head in
    let batch_id = as_batch_id b.masks batch_start in
    (do
      modify (λ c. record c {
        head = wrapping_add c.head c.batch_size;
        executor_head = wrapping_add c.executor_head c.batch_size;
      })
      tracker ← tracker_at batch_id
      put_tracker batch_id (record tracker { dirty = 1 })
      enter_executor
      _ ← lift (get_data_view b batch_start)
      reset_batch batch_id
      free_batches
      leave_executor)
      b

pub record SuperTensorMetricsSnapshot : Type 0 where
  pub inflight : ℕ
  pub capacity : ℕ
  pub executors_in_use : ℕ

-- `head.saturating_sub(tail)` is the subtraction of ℕ.
unfoldable pub metrics_snapshot : SuperTensorBuffer → SuperTensorMetricsSnapshot
metrics_snapshot b =
    let total_capacity = b.capacity * b.batch_size in
    record {
      inflight = min (b.head - b.tail) total_capacity;
      capacity = total_capacity;
      executors_in_use = b.executors_in_use;
    }
