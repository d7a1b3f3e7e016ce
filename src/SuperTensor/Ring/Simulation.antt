-- ===== src/SuperTensor/Ring/Simulation.antt =====
-- The buffer of src/tensor/supertensor.rs keeps the ledger, whatever its callers do and in whatever
-- order.
use toutates.Base.{◌≡◌, ok, ℕ, ◌*◌, ◌≤◌, ◌^◌}
use toutates.Tensor.Bytes.{Dims}
use toutates.SuperTensor.Index.Position.{IsRing}
use toutates.SuperTensor.Buffer.{SuperTensorBuffer}
use toutates.SuperTensor.Ring.Calm.{IsCalm}
use toutates.SuperTensor.Ring.Calls.{
  insert_tensors_at-IsCalm, await_first_write-IsCalm, start_execution-IsCalm,
  execute_current_batch-IsCalm, enter_executor-IsCalm, leave_executor-IsCalm,
}
use toutates.SuperTensor.Ring.Ledger.{Ledger, Move, Moves, IsSound}
use toutates.SuperTensor.Ring.Ledger
use toutates.SuperTensor.Ring.Steps.{System, Step, IsDrained}
use toutates.SuperTensor.Ring.Steps
use toutates.SuperTensor.Executor.{warmup}
use toutates.SuperTensor.Ring.Rep.{Rep, Rep-calm}
use toutates.SuperTensor.Ring.Refine.{reserve-Rep, claim-Rep, seal-Rep}
use toutates.SuperTensor.Ring.Warm.{warmup-Rep}
use toutates.SuperTensor.Ring.GiveBack.{reset-Rep, move_tail-Rep}

module _ (num_elements : Dims → ℕ) (capacity batch_size : ℕ) (ring : IsRing capacity batch_size)
    (fits : capacity * batch_size ≤ 2 ^ 61) where
  carried_out :
      (l l' : Ledger) (s' : System)
      → Move capacity batch_size l l'
      → Rep capacity batch_size ring l' s'
      → (l'' : Ledger) × Moves capacity batch_size l l'' × Rep capacity batch_size ring l'' s'
  carried_out l l' s' m r = (l', Ledger.chain l l' l' m (Ledger.stay l'), r)

  left_alone :
      (l : Ledger) (s : System) (b : SuperTensorBuffer)
      → Rep capacity batch_size ring l s
      → IsCalm s.buffer b
      → (l' : Ledger) × Moves capacity batch_size l l'
        × Rep capacity batch_size ring l' (record s { buffer = b })
  left_alone l s b r c = (l, Ledger.stay l, Rep-calm capacity batch_size ring l s b r c)

  -- On a ring of accepted sizes and at most 2 ^ 61 slots that stands for a sound ledger, each call
  -- by a request or an executor (a warmup is none), with requests of at most 2 ^ 60 rows and tails
  -- that have moved on by less than 2 ^ 62 slots since they were read, carries out moves of the
  -- ledger, and the buffer then stands for the ledger after them.
  pub Step-Moves :
      (l : Ledger) (s s' : System)
      → IsSound capacity batch_size l
      → Rep capacity batch_size ring l s
      → Step num_elements s s'
      → (l' : Ledger) × Moves capacity batch_size l l' × Rep capacity batch_size ring l' s'
  Step-Moves l _ _ sound rep (Steps.reserve s inputs r b first n same recent won small) =
      let (room, rep') =
        reserve-Rep capacity batch_size ring fits l s sound rep inputs r b first n same recent
          won in
      carried_out l _ _ (Ledger.reserve l n room small) rep'
  Step-Moves l _ _ sound rep (Steps.write s idx lo hi inputs now) =
      left_alone l s _ rep (insert_tensors_at-IsCalm num_elements idx lo hi inputs now s.buffer)
  Step-Moves l _ _ sound rep (Steps.claim s seen_head seen_tail spurious b idx recent won) =
      let (room, rep') =
        claim-Rep capacity batch_size ring fits l s sound rep seen_head seen_tail spurious b idx
          recent won in
      carried_out l _ _ (Ledger.claim l room) rep'
  Step-Moves l _ _ sound rep (Steps.await s i idx held) =
      left_alone l s _ rep (await_first_write-IsCalm idx s.buffer)
  Step-Moves l _ _ sound rep (Steps.seal s i idx remaining b held sealed) =
      let (p, at_i, after, rep') =
        seal-Rep capacity batch_size ring fits l s sound rep i idx remaining b held sealed in
      carried_out l _ _ (Ledger.seal l i p at_i after) rep'
  Step-Moves l _ _ sound rep (Steps.start s i idx now held) =
      left_alone l s _ rep (start_execution-IsCalm _ now s.buffer)
  Step-Moves l _ _ sound rep (Steps.enter s) = left_alone l s _ rep (enter_executor-IsCalm s.buffer)
  Step-Moves l _ _ sound rep (Steps.execute s f i idx now held) =
      left_alone l s _ rep (execute_current_batch-IsCalm f idx now s.buffer)
  Step-Moves l _ _ sound rep (Steps.reset s i idx held) =
      let (p, at_i, rep') = reset-Rep capacity batch_size ring fits l s sound rep i idx held in
      carried_out l _ _ (Ledger.finish l i p at_i) rep'
  Step-Moves l _ _ sound rep (Steps.free s rounds) =
      let (l', moves, _, _, rep') =
        move_tail-Rep capacity batch_size ring fits rounds l s sound rep in
      (l', moves, rep')
  Step-Moves l _ _ sound rep (Steps.leave s) = left_alone l s _ rep (leave_executor-IsCalm s.buffer)

  -- So does a warmup of a drained ring.
  pub warmup-Moves :
      (l : Ledger) (s : System) (b : SuperTensorBuffer)
      → IsSound capacity batch_size l
      → Rep capacity batch_size ring l s
      → IsDrained s.buffer
      → warmup s.buffer ≡ (b, ok tt)
      → (l' : Ledger) × Moves capacity batch_size l l'
        × Rep capacity batch_size ring l' (record s { buffer = b })
  warmup-Moves l s b sound rep drained warmed =
      warmup-Rep capacity batch_size ring fits l s sound rep drained.same_heads
        (rw (rep.ring_capacity, rep.ring_batch_size) at drained.has_room) b warmed
