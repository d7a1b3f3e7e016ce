-- ===== src/SuperTensor/Ring/Steps.antt =====
-- The calls of src/tensor/supertensor.rs on one buffer, in any order: each step is one call that
-- changes the buffer, made by any of the threads that share it. A warmup is kept apart.
use toutates.Base.{
  ℕ, ◌≤◌, ◌<◌, ◌*◌, ◌^◌, List, [], ◌∷◌, get_elem?, some, ok, Bool, ◌≡◌, usize_mod, wrapping_sub,
}
use toutates.Tensor.Bytes.{Dims, TensorBytes}
use toutates.Tensor.Copy.{HostTensor}
use toutates.SuperTensor.Index.{as_batch_id}
use toutates.SuperTensor.Buffer.{Output, SuperTensorBuffer}
use toutates.SuperTensor.Infer.{Round, claimed, claim_slots, insert_tensors_at}
use toutates.SuperTensor.Executor.{
  claim_batch, seal_head, await_first_write, start_execution, execute_current_batch, reset_batch,
  move_tail, enter_executor, leave_executor, warmup,
}
use toutates.SuperTensor.Ring.Distinct.{remove}
use toutates.SuperTensor.Ring.Ledger.{max_claim}

-- The buffer, and the `current_executor_idx` of each executor between its claim and its reset.
pub record System : Type 0 where
  pub buffer : SuperTensorBuffer
  pub running : List ℕ

-- `tail` has moved on by less than 2 ^ 62 slots since a thread read the word `seen`.
abbrev pub IsRecent : SuperTensorBuffer → ℕ → Type 0
IsRecent b seen = (seen < usize_mod) × (wrapping_sub b.tail seen < 2 ^ 62)

-- Every slot handed out is in a batch that an executor has claimed, and the ring has another batch.
pub record IsDrained (b : SuperTensorBuffer) : Type 0 where
  pub same_heads : b.head ≡ b.executor_head
  pub has_room : wrapping_sub b.executor_head b.tail < b.capacity * b.batch_size

module _ (num_elements : Dims → ℕ) where
  -- A call by a request or by an executor.
  pub data Step : System → System → Type 0 where
    -- `infer`: the round that wins its exchange.
    reserve :
        (s : System) (inputs : List TensorBytes) (r : Round) (b : SuperTensorBuffer) (first n : ℕ)
        → r.buffer ≡ s.buffer
        → IsRecent s.buffer r.seen_tail
        → claim_slots inputs r ≡ claimed b first n
        → n ≤ max_claim
        → Step s (record s { buffer = b })
    -- `infer`: a write of one batch, of whatever slots.
    write :
        (s : System) (idx data_start data_end : ℕ) (inputs : List TensorBytes) (now : ℕ)
        → Step s (record s {
          buffer = (insert_tensors_at num_elements idx data_start data_end inputs now s.buffer).0;
        })
    -- `execute_on_batch`: the round that wins its exchange.
    claim :
        (s : System) (seen_executor_head seen_tail : ℕ) (spurious : Bool) (b : SuperTensorBuffer)
        (idx : ℕ)
        → IsRecent s.buffer seen_tail
        → claim_batch seen_executor_head seen_tail spurious s.buffer ≡ some (b, idx)
        → Step s (record { buffer = b; running = idx ∷ s.running })
    await :
        (s : System) (i idx : ℕ)
        → get_elem? s.running i ≡ some idx
        → Step s (record s { buffer = (await_first_write idx s.buffer).0 })
    seal :
        (s : System) (i idx remaining : ℕ) (b : SuperTensorBuffer)
        → get_elem? s.running i ≡ some idx
        → seal_head idx s.buffer ≡ (b, ok remaining)
        → Step s (record s { buffer = b })
    start :
        (s : System) (i idx now : ℕ)
        → get_elem? s.running i ≡ some idx
        → Step s (record s {
          buffer = (start_execution (as_batch_id s.buffer.masks idx) now s.buffer).0;
        })
    enter : (s : System) → Step s (record s { buffer = (enter_executor s.buffer).0 })
    execute :
        (s : System) (f : List HostTensor → Output) (i idx now : ℕ)
        → get_elem? s.running i ≡ some idx
        → Step s (record s { buffer = (execute_current_batch f idx now s.buffer).0 })
    reset :
        (s : System) (i idx : ℕ)
        → get_elem? s.running i ≡ some idx
        → Step s (record {
          buffer = (reset_batch (as_batch_id s.buffer.masks idx) s.buffer).0;
          running = remove s.running i;
        })
    -- `move_tail_to_next_non_dirty_buffer`, of any number of rounds.
    free : (s : System) (rounds : ℕ) → Step s (record s { buffer = move_tail rounds s.buffer })
    leave : (s : System) → Step s (record s { buffer = (leave_executor s.buffer).0 })

  -- The states that calls on `b`, before any executor has claimed a batch, can lead to. The code
  -- does not check when `warmup` is called; `load_model` calls it while nothing else has the buffer.
  -- Here it is called on a drained ring.
  pub data Reachable (b : SuperTensorBuffer) : System → Type 0 where
    start : Reachable b (record { buffer = b; running = [] })
    step : (s s' : System) → Reachable b s → Step s s' → Reachable b s'
    warm :
        (s : System) (c : SuperTensorBuffer)
        → Reachable b s
        → IsDrained s.buffer
        → warmup s.buffer ≡ (c, ok tt)
        → Reachable b (record s { buffer = c })
