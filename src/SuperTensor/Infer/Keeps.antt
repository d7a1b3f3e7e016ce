-- ===== src/SuperTensor/Infer/Keeps.antt =====
-- The write of one batch by `insert_tensors_at` leaves sizes and counters alone.
use toutates.Base.{ℕ, ◌+◌, ◌-◌, ◌≡◌, arith, List, ◌==◌, ◌||◌}
use toutates.Tensor.Bytes.{Dims, TensorBytes}
use toutates.SuperTensor.Index.{as_batch_id, as_batch_slot_id}
use toutates.SuperTensor.Buffer.{SuperTensorBuffer}
use toutates.SuperTensor.Frame.{Keeps, frame, frame_rules, Keeps->>=, Keeps-if, Keeps-pure}
use toutates.SuperTensor.Infer.{
  write_inputs, new_reservation, open_batch, notify_executor, insert_tensors_at,
}

Keeps-new_reservation : (id start end : ℕ) → Keeps (new_reservation id start end)
unfolding new_reservation
Keeps-new_reservation id start end = search frame_rules depth 12

Keeps-notify_executor : (id : ℕ) → Keeps (notify_executor id)
unfolding notify_executor
Keeps-notify_executor id = search frame_rules depth 12

Keeps-open_batch : (id now : ℕ) → Keeps (open_batch id now)
unfolding open_batch
Keeps-open_batch id now = search frame_rules depth 12

module _ (num_elements : Dims → ℕ) where
  write_inputs-frame :
      (id slot lo hi : ℕ) (inputs : List TensorBytes) (b : SuperTensorBuffer)
      → frame (write_inputs num_elements id slot lo hi inputs b).0 ≡ frame b
  unfolding write_inputs
  write_inputs-frame id slot lo hi inputs b = ground arith

  Keeps-write_inputs :
      (id slot lo hi : ℕ) (inputs : List TensorBytes)
      → Keeps (write_inputs num_elements id slot lo hi inputs)
  Keeps-write_inputs id slot lo hi inputs = record {
    kept = write_inputs-frame id slot lo hi inputs;
  }

  pub insert_tensors_at-frame :
      (idx lo hi : ℕ) (inputs : List TensorBytes) (now : ℕ) (b : SuperTensorBuffer)
      → frame (insert_tensors_at num_elements idx lo hi inputs now b).0 ≡ frame b
  unfolding insert_tensors_at
  insert_tensors_at-frame idx lo hi inputs now b =
      (Keeps->>= (Keeps-write_inputs id slot lo hi inputs) (λ _.
          Keeps->>= (Keeps-if (slot == 0) (Keeps-open_batch id now) (Keeps-pure tt)) (λ _.
            Keeps->>= (Keeps-new_reservation id slot end) (λ r.
              Keeps->>=
                (Keeps-if ((slot == 0) || (end == b.batch_size)) (Keeps-notify_executor id)
                  (Keeps-pure tt))
                (λ _. Keeps-pure r))))).kept
        b
    where
      id : ℕ
      id = as_batch_id b.masks idx

      slot : ℕ
      slot = as_batch_slot_id b.masks idx

      end : ℕ
      end = slot + (hi - lo)
