-- ===== src/SuperTensor/Ring/Calls.antt =====
-- Which calls of src/tensor/supertensor.rs are calm: the writes of requests, and the executor's
-- calls other than its claim, the seal, the reset of its batch and the move of the tail.
use toutates.Base.{ℕ, ◌+◌, ◌-◌, List, ◌==◌, ◌||◌, refl, arith, none, some, false}
use toutates.Tensor.Bytes.{Dims, TensorBytes}
use toutates.Tensor.Copy.{HostTensor}
use toutates.SuperTensor.Index.{as_batch_id, as_batch_slot_id}
use toutates.SuperTensor.Buffer.{
  Output, SuperTensorBuffer, ◌>>=◌, state_at, lift, set_once, put_state,
}
use toutates.SuperTensor.Infer.{
  write_inputs, new_reservation, open_batch, notify_executor, batch_delay, insert_tensors_at,
}
use toutates.SuperTensor.Executor.{
  get_data_view, execute_current_batch, start_execution, await_first_write, enter_executor,
  leave_executor,
}
use toutates.SuperTensor.Ring.Calm.{
  IsCalm, IsCalm-same, Calm, calm_rules, Calm->>=, Calm-if, Calm-pure, Calm-lift, Calm-tracker_at,
  Calm-state_at, Calm-put_state, Calm-update_tracker,
}

Calm-new_reservation : (id start end : ℕ) → Calm (new_reservation id start end)
unfolding new_reservation
Calm-new_reservation id start end =
    Calm-update_tracker id (λ t. record t { written_slots = t.written_slots + (end - start) }) _
      (λ t d. d) (λ t. Calm-pure _)

Calm-open_batch : (id now : ℕ) → Calm (open_batch id now)
unfolding open_batch
Calm-open_batch id now =
    Calm-update_tracker id (λ t. record t { dirty = 1 })
      (λ t. state_at t.state >>= (λ s.
        lift (set_once s.deadline (now + batch_delay)) >>= (λ deadline.
          put_state t.state (record s { deadline = deadline }) >>= (λ _.
            lift (set_once s.queue_start now) >>= (λ queue_start.
              put_state t.state (record s { deadline = deadline; queue_start = queue_start }))))))
      (λ t d. absurd (ground arith)) (λ t. search calm_rules depth 16)

Calm-notify_executor : (id : ℕ) → Calm (notify_executor id)
unfolding notify_executor
Calm-notify_executor id = search calm_rules depth 12

Calm-start_execution : (id now : ℕ) → Calm (start_execution id now)
unfolding start_execution
Calm-start_execution id now = search calm_rules depth 12

pub start_execution-IsCalm :
    (id now : ℕ) (b : SuperTensorBuffer) → IsCalm b (start_execution id now b).0
start_execution-IsCalm id now b = (Calm-start_execution id now).calm b

pub execute_current_batch-IsCalm :
    (f : List HostTensor → Output) (idx now : ℕ) (b : SuperTensorBuffer)
    → IsCalm b (execute_current_batch f idx now b).0
unfolding execute_current_batch
execute_current_batch-IsCalm f idx now b =
    (Calm->>= (Calm-lift (get_data_view b idx)) (λ inputs.
        Calm->>= (Calm-tracker_at (as_batch_id b.masks idx)) (λ t.
          Calm->>= (Calm-state_at t.state) (λ s.
            Calm->>= (Calm-lift (set_once s.exec_end now)) (λ exec_end.
              Calm->>= (Calm-lift (set_once s.output (f inputs))) (λ output.
                Calm-put_state t.state
                  (record s { exec_end = exec_end; output = output }))))))).calm
      b

pub await_first_write-IsCalm :
    (idx : ℕ) (b : SuperTensorBuffer) → IsCalm b (await_first_write idx b).0
unfolding await_first_write
await_first_write-IsCalm idx b =
    (Calm->>= (Calm-tracker_at (as_batch_id b.masks idx)) (λ t.
        Calm->>= (Calm-state_at t.state) (λ s.
          Calm-if s.executor_permit
            (Calm->>= (Calm-put_state t.state (record s { executor_permit = false }))
              (λ _. Calm-pure (some tt)))
            (Calm-pure none)))).calm
      b

pub enter_executor-IsCalm : (b : SuperTensorBuffer) → IsCalm b (enter_executor b).0
unfolding enter_executor
enter_executor-IsCalm b = IsCalm-same b _ refl refl

pub leave_executor-IsCalm : (b : SuperTensorBuffer) → IsCalm b (leave_executor b).0
unfolding leave_executor
leave_executor-IsCalm b = IsCalm-same b _ refl refl

module _ (num_elements : Dims → ℕ) where
  Calm-write_inputs :
      (id slot lo hi : ℕ) (inputs : List TensorBytes)
      → Calm (write_inputs num_elements id slot lo hi inputs)
  unfolding write_inputs
  Calm-write_inputs id slot lo hi inputs = record {
    calm = λ b. IsCalm-same b _ (ground arith) (ground arith);
  }

  pub insert_tensors_at-IsCalm :
      (idx lo hi : ℕ) (inputs : List TensorBytes) (now : ℕ) (b : SuperTensorBuffer)
      → IsCalm b (insert_tensors_at num_elements idx lo hi inputs now b).0
  unfolding insert_tensors_at
  insert_tensors_at-IsCalm idx lo hi inputs now b =
      (Calm->>= (Calm-write_inputs id slot lo hi inputs) (λ _.
          Calm->>= (Calm-if (slot == 0) (Calm-open_batch id now) (Calm-pure tt)) (λ _.
            Calm->>= (Calm-new_reservation id slot end) (λ r.
              Calm->>=
                (Calm-if ((slot == 0) || (end == b.batch_size)) (Calm-notify_executor id)
                  (Calm-pure tt))
                (λ _. Calm-pure r))))).calm
        b
    where
      id : ℕ
      id = as_batch_id b.masks idx

      slot : ℕ
      slot = as_batch_slot_id b.masks idx

      end : ℕ
      end = slot + (hi - lo)
