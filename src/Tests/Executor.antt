-- ===== src/Tests/Executor.antt =====
-- Batches that run, are sealed and given back, and a reply, on the ring of two batches of four slots.
use toutates.Base.{
  ℕ, ◌+◌, ◌-◌, ◌/◌, ◌%◌, ◌≤◌, ◌<◌, ◌==◌, ◌≢◌, List, [], ◌∷◌, get_elem?, some, ok, panic, false, ◌≡◌,
  ◌⊎◌, refl, arith, usize_mod,
}
use toutates.Base.Int.{pos}
use toutates.Tensor.Element.{uint8}
use toutates.Tensor.Bytes.{Bytes}
use toutates.Tensor.Copy.{HostTensor}
use toutates.SuperTensor.Index.{half_range, masks_of, as_batch_id}
use toutates.SuperTensor.Index.Power.{is_power_of_two_iff}
use toutates.SuperTensor.Index.Position.{IsRing}
use toutates.SuperTensor.Buffer.{
  Output, values, BatchState, new_batch_state, DataTracker, SuperTensorBuffer,
}
use toutates.SuperTensor.Infer.{WriteReservation, full, claim_slots}
use toutates.SuperTensor.Executor.{move_tail, seal_head, run_batch}
use toutates.SuperTensor.Executor.Tail.{done_batches}
use toutates.SuperTensor.Executor.Reach.{At, move_tail_lem}
use toutates.SuperTensor.Executor.OneBatch.{claim_slots-one_batch}
use toutates.SuperTensor.Executor.Seal.{seal_head_lem}
use toutates.SuperTensor.Executor.Run.{run_batch_lem}
use toutates.SuperTensor.Response.{get_data}
use toutates.SuperTensor.Response.Replies.{IsReply, get_data-IsReply}
use toutates.Tests.{eight_zeros, idle, tracker, ring, three_rows}

two_by_four : IsRing 2 4
two_by_four = record {
  capacity_power = (is_power_of_two_iff 2).1 (1, refl);
  batch_power = (is_power_of_two_iff 4).1 (2, refl);
  fits = omega arith;
}

one_by_four : IsRing 1 4
one_by_four = record {
  capacity_power = (is_power_of_two_iff 1).1 (0, refl);
  batch_power = (is_power_of_two_iff 4).1 (2, refl);
  fits = omega arith;
}

-- Both batches are claimed, and the first is done.
abbrev first_done : SuperTensorBuffer
first_done = ring 8 8 0 (tracker 2 0 0 ∷ tracker 1 4 1 ∷ [])

four_small : 4 < half_range
four_small = omega arith

first_done-At : At 2 4 two_by_four four_small 0 8 first_done
first_done-At = record {
  ring_masks = refl;
  tail_at = omega arith;
  head_at = omega arith;
  aligned = omega arith;
  ordered = omega arith;
  near = omega arith;
}

move_tail_lem_example :
    (q : ℕ) × At 2 4 two_by_four four_small q 8 (move_tail 2 first_done)
    × (0 ≤ q)
    × ((q ≡ 0) ⊎ (q < 8))
    × ((8 ≤ q + 4)
        ⊎ ((t : DataTracker)
            → get_elem? ((move_tail 2 first_done).trackers) (q / 4 % 2) ≡ some t
            → (t.dirty == 2) ≡ false))
unfolding done_batches
move_tail_lem_example =
    move_tail_lem 2 4 two_by_four four_small 2 0 8 first_done first_done-At (omega arith)

-- A ring of one batch whose head has reached its end.
abbrev one_batch : SuperTensorBuffer
one_batch = record (ring 4 4 0 (tracker 2 0 0 ∷ [])) { masks = masks_of 1 4; capacity = 1 }

one_batch-At : At 1 4 one_by_four four_small 0 4 one_batch
one_batch-At = record {
  ring_masks = refl;
  tail_at = omega arith;
  head_at = omega arith;
  aligned = omega arith;
  ordered = omega arith;
  near = omega arith;
}

claim_slots-one_batch_example :
    claim_slots three_rows (record {
      seen_head = (move_tail 2 one_batch).head;
      seen_tail = (move_tail 2 one_batch).tail;
      buffer = move_tail 2 one_batch;
      spurious = false;
    })
    ≡ full
claim_slots-one_batch_example =
    claim_slots-one_batch 4 0 2 one_batch three_rows
      (record {
        seen_head = (move_tail 2 one_batch).head;
        seen_tail = (move_tail 2 one_batch).tail;
        buffer = move_tail 2 one_batch;
        spurious = false;
      })
      one_by_four four_small one_batch-At refl refl refl refl refl

-- The second batch is open, with two of its slots taken.
abbrev half_open : SuperTensorBuffer
half_open = ring 6 8 0 (tracker 2 0 0 ∷ tracker 1 2 1 ∷ [])

seal_head_lem_example :
    (6 < 4 → seal_head 4 half_open ≡ (half_open, panic))
    × (4 ≤ 6
        → seal_head 4 half_open
          ≡ (record half_open { head = (6 + (4 + 4 - 6)) % usize_mod }, ok (4 + 4 - 6)))
seal_head_lem_example =
    seal_head_lem 2 4 two_by_four four_small 4 6 4 half_open refl (omega arith) (omega arith)
      (omega arith) (omega arith) (omega arith)

-- The model answers with its input.
abbrev echo : List HostTensor → Output
echo inputs = values inputs

abbrev ready : SuperTensorBuffer
ready = ring 4 4 0 (tracker 1 4 0 ∷ tracker 0 0 1 ∷ [])

run_batch_lem_example :
    (c : SuperTensorBuffer) × (run_batch echo 0 10 20 ready ≡ (c, ok 4))
    × (get_elem? c.states 0
        ≡ some (record idle {
          exec_start = some 10;
          exec_end = some 20;
          output = some (echo (eight_zeros.inner_tensor ∷ []));
        }))
    × ((u : DataTracker) × (get_elem? c.trackers (as_batch_id ready.masks 0) ≡ some u)
        × (u.written_slots ≡ 0)
        × (u.state ≢ 0)
        × (get_elem? c.states u.state ≡ some new_batch_state))
    × (c.executors_in_use ≡ 0)
unfolding as_batch_id masks_of
run_batch_lem_example =
    run_batch_lem echo 0 10 20 ready (tracker 1 4 0) idle (eight_zeros ∷ []) refl refl refl refl
      refl refl (omega arith)

-- A request of three slots in two batches of one-byte outputs.
abbrev answered : Bytes → BatchState
answered bytes = record idle {
  output = some (values (record { data_type = uint8; shape = pos 4 ∷ []; bytes = bytes } ∷ []));
}

abbrev reservations : List WriteReservation
reservations =
    record { state = 0; start = 2; end = 4 } ∷ record { state = 1; start = 0; end = 1 } ∷ []

get_data-IsReply_example :
    IsReply
      (answered (1 ∷ 2 ∷ 3 ∷ 4 ∷ []) ∷ answered (5 ∷ 6 ∷ 7 ∷ 8 ∷ []) ∷ [])
      0
      reservations
      (3 ∷ 4 ∷ 5 ∷ [])
unfolding get_data
get_data-IsReply_example =
    get_data-IsReply (answered (1 ∷ 2 ∷ 3 ∷ 4 ∷ []) ∷ answered (5 ∷ 6 ∷ 7 ∷ 8 ∷ []) ∷ [])
      reservations ((3 ∷ 4 ∷ 5 ∷ []) ∷ []) (record { data_type = uint8; shape = pos 8 ∷ [] } ∷ []) 0
      0 (3 ∷ 4 ∷ 5 ∷ []) refl refl
