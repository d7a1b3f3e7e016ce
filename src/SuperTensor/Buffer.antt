-- ===== src/SuperTensor/Buffer.antt =====
-- The state of src/tensor/supertensor.rs. Atomics are numbers. A `BatchState` is shared by `Arc`
-- between its tracker and the reservations on it, and outlives the reset of the tracker: the states
-- are cells of a store, and a tracker and a reservation hold the number of their cell.
use toutates.Base.{ℕ, List, get_elem?, set, Option, none, some, Result, ok, err, panic, Bool, false}
use toutates.Tensor.Errors.{InferError}
use toutates.Tensor.Copy.{HostTensor, BatchableTensor}
use toutates.SuperTensor.Index.{Masks}

-- `Result<SessionValues, InferError>`
pub data Output : Type 0 where
  values : List HostTensor → Output
  failed : InferError → Output

-- `BatchState` with the cells of its `ExecutionTrace`. `executor_notifier` stores at most one
-- permit; `response_ready_notifier` is only broadcast to, and those who wait look at `output` again.
pub record BatchState : Type 0 where
  pub deadline : Option ℕ
  pub output : Option Output
  pub executor_permit : Bool
  pub queue_start : Option ℕ
  pub exec_start : Option ℕ
  pub exec_end : Option ℕ

unfoldable pub new_batch_state : BatchState
new_batch_state = record {
  deadline = none;
  output = none;
  executor_permit = false;
  queue_start = none;
  exec_start = none;
  exec_end = none;
}

-- `dirty` is 0 for a free batch, 1 for one that is open or running, 2 for one that is done.
pub record DataTracker : Type 0 where
  pub dirty : ℕ
  pub written_slots : ℕ
  pub state : ℕ

pub record SuperTensorBuffer : Type 0 where
  pub input_tensors : List (List BatchableTensor)
  pub trackers : List DataTracker
  pub states : List BatchState
  pub masks : Masks
  pub batch_size : ℕ
  pub capacity : ℕ
  pub head : ℕ
  pub executor_head : ℕ
  pub tail : ℕ
  pub executors_in_use : ℕ

-- A call on the shared buffer: the buffer after it, and what it returns.
abbrev pub M : Type 0 → Type 0
M A = SuperTensorBuffer → SuperTensorBuffer × Result InferError A

-- What follows a call, by its result; `?` and a panic end the calls that follow.
abbrev pub resume :
    {A B : Type 0}
    → (A → M B)
    → SuperTensorBuffer
    → Result InferError A
    → SuperTensorBuffer × Result InferError B
resume f b (ok a) = f a b
resume f b (err e) = (b, err e)
resume f b panic = (b, panic)

infixl 5 ◌>>=◌ ◌>>◌
abbrev pub ◌>>=◌ : {A B : Type 0} → M A → (A → M B) → M B
◌>>=◌ m f b = let (b', r) = m b in resume f b' r

abbrev pub ◌>>◌ : {B : Type 0} → M (Unit {0}) → M B → M B
m >> k = m >>= λ _. k

abbrev pub pure : {A : Type 0} → A → M A
pure a b = (b, ok a)

abbrev pub lift : {A : Type 0} → Result InferError A → M A
lift r b = (b, r)

abbrev pub modify : (SuperTensorBuffer → SuperTensorBuffer) → M (Unit {0})
modify f b = (f b, ok tt)

-- `self.trackers.get(id).expect(…)`
abbrev pub tracker_at : ℕ → M DataTracker
tracker_at id b = (b, elim (get_elem? b.trackers id) [ none ↦ panic | some t ↦ ok t ])

-- `unsafe_borrow`: the cell that a tracker holds.
abbrev pub state_at : ℕ → M BatchState
state_at cell b = (b, elim (get_elem? b.states cell) [ none ↦ panic | some s ↦ ok s ])

abbrev pub put_tracker : ℕ → DataTracker → M (Unit {0})
put_tracker id t = modify (λ b. record b { trackers = set b.trackers id t })

abbrev pub put_state : ℕ → BatchState → M (Unit {0})
put_state cell s = modify (λ b. record b { states = set b.states cell s })

-- `OnceCell::set(…).expect(…)`
abbrev pub set_once : {A : Type 0} → Option A → A → Result InferError (Option A)
set_once none a = ok (some a)
set_once (some _) a = panic
