-- ===== src/SuperTensor/Executor/OneBatch.antt =====
-- A ring of src/tensor/supertensor.rs with a capacity of one batch.
use toutates.Base.{ℕ, ◌+◌, ◌<◌, ◌≡◌, List, ◌∙◌, arith}
use toutates.Tensor.Bytes.{TensorBytes}
use toutates.SuperTensor.Index.{half_range}
use toutates.SuperTensor.Index.Position.{IsRing}
use toutates.SuperTensor.Buffer.{SuperTensorBuffer}
use toutates.SuperTensor.Infer.{Round, full, claim_slots}
use toutates.SuperTensor.Infer.Claims.{claim_slots-full_iff}
use toutates.SuperTensor.Executor.{move_tail}
use toutates.SuperTensor.Executor.Reach.{At, move_tail-last_batch}

-- With one batch in the ring, once the head has reached the end of the first batch (by a warmup or
-- by requests), giving batches back does not move the tail, and every claim finds the ring full.
pub claim_slots-one_batch :
    (batch_size p fuel : ℕ) (b : SuperTensorBuffer) (inputs : List TensorBytes) (r : Round)
    (ring : IsRing 1 batch_size) (small : batch_size < half_range)
    → At 1 batch_size ring small p (p + batch_size) b
    → b.capacity ≡ 1
    → b.batch_size ≡ batch_size
    → r.buffer ≡ move_tail fuel b
    → r.seen_head ≡ r.buffer.head
    → r.seen_tail ≡ r.buffer.tail
    → claim_slots inputs r ≡ full
claim_slots-one_batch batch_size p fuel b inputs r ring small a ec eb moved eh et =
    let same : r.buffer ≡ b =
      moved
      ∙ move_tail-last_batch 1 batch_size ring small fuel p (p + batch_size) b a (omega arith) in
    (claim_slots-full_iff inputs r).1
      (rw (eh, et, same, ec, eb) (omega (arith, a.head_at, a.tail_at, small)))
