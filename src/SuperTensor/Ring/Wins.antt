-- ===== src/SuperTensor/Ring/Wins.antt =====
-- The rounds of src/tensor/supertensor.rs that win their exchange, and what they leave.
use toutates.Base.{
  ℕ, ◌+◌, ◌*◌, ◌%◌, ◌≤◌, ◌<◌, ◌^◌, List, some, Bool, ◌≡◌, arith, usize_mod, wrapping_sub,
  wrapping_add,
}
use toutates.Tensor.Bytes.{TensorBytes}
use toutates.SuperTensor.Buffer.{SuperTensorBuffer}
use toutates.SuperTensor.Infer.{Round, claimed, claim_slots}
use toutates.SuperTensor.Executor.{claim_batch}
use toutates.SuperTensor.Ring.Ledger.{max_claim}

pub claim_slots-inverse :
    (inputs : List TensorBytes) (r : Round) (b : SuperTensorBuffer) (first n : ℕ)
    → claim_slots inputs r ≡ claimed b first n
    → (wrapping_sub r.seen_head r.seen_tail < r.buffer.capacity * r.buffer.batch_size)
      × (r.buffer.head ≡ r.seen_head)
      × (b ≡ record (r.buffer) { head = wrapping_add r.seen_head n })
unfolding claim_slots
claim_slots-inverse inputs r b first n e = ground arith

pub claim_batch-inverse :
    (seen_executor_head seen_tail : ℕ) (spurious : Bool) (c b : SuperTensorBuffer) (idx : ℕ)
    → claim_batch seen_executor_head seen_tail spurious c ≡ some (b, idx)
    → (wrapping_sub seen_executor_head seen_tail < c.capacity * c.batch_size)
      × (c.executor_head ≡ seen_executor_head)
      × (b ≡ record c { executor_head = wrapping_add seen_executor_head c.batch_size })
      × (idx ≡ seen_executor_head)
unfolding claim_batch
claim_batch-inverse e t x c b idx h = ground arith

-- A counter found less than the ring ahead of a tail that has since moved on from `seen` to `t` is
-- less than the ring ahead of `t`.
pub recent-lt :
    (ring_size t h seen : ℕ)
    → ring_size ≤ 2 ^ 61
    → t ≤ h
    → h ≤ t + ring_size + max_claim
    → seen < usize_mod
    → wrapping_sub (t % usize_mod) seen < 2 ^ 62
    → wrapping_sub (h % usize_mod) seen < ring_size
    → h < t + ring_size
recent-lt ring_size t h seen fits le near word recent room = omega arith
