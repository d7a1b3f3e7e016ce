-- ===== src/Tests/Ring.antt =====
-- Claims and positions on the ring of two batches of four slots.
use toutates.Base.{◌+◌, ◌%◌, [], ◌∷◌, some, false, ◌≡◌, refl, arith, usize_mod}
use toutates.SuperTensor.Index.Power.{is_power_of_two_iff}
use toutates.SuperTensor.Index.Position.{IsRing}
use toutates.SuperTensor.Infer.{Round, client_batch_size, infer}
use toutates.SuperTensor.Infer.Pieces.{plan, total, IsChain}
use toutates.SuperTensor.Infer.Split.{insert_all}
use toutates.Base.{ok}
use toutates.Base.Int.{pos}
use toutates.SuperTensor.Infer.Rows.{row_slices, row_slices-plan}
use toutates.SuperTensor.Infer.Claims.{infer-claimed}
use toutates.Tests.{elements, tracker, ring, three_rows, new_trace}

pub two_by_four : IsRing 2 4
two_by_four = record {
  capacity_power = (is_power_of_two_iff 2).1 (1, refl);
  batch_power = (is_power_of_two_iff 4).1 (2, refl);
  fits = omega arith;
}

-- Two slots of the first batch are taken, and the next three rows take the rest of it and one more.
abbrev two_taken : Round
two_taken = record {
  seen_head = 2;
  seen_tail = 0;
  buffer = ring 2 0 0 (tracker 1 2 0 ∷ tracker 0 0 1 ∷ []);
  spurious = false;
}

infer-claimed_example :
    (infer elements three_rows new_trace 7 (two_taken ∷ [])
      ≡ some (
          insert_all elements three_rows 7
            (plan 4 4 2 3)
            0
            new_trace
            (ring ((2 + 3) % usize_mod) 0 0 (tracker 1 2 0 ∷ tracker 0 0 1 ∷ []))))
    × (total (plan 4 4 2 3) ≡ 3)
    × IsChain 4 2 (plan 4 4 2 3)
unfolding client_batch_size
infer-claimed_example =
    infer-claimed elements three_rows new_trace 7 2 4 2 3 two_taken [] two_by_four refl refl refl
      refl refl (omega arith) refl refl (omega arith)

row_slices-plan_example :
    row_slices (1 ∷ 2 ∷ 3 ∷ 4 ∷ 5 ∷ 6 ∷ []) (pos 3 ∷ pos 2 ∷ []) (plan 4 4 2 3) 0
    ≡ ok (1 ∷ 2 ∷ 3 ∷ 4 ∷ 5 ∷ 6 ∷ [])
row_slices-plan_example =
    row_slices-plan 4 4 2 3 2 (pos 2 ∷ []) (1 ∷ 2 ∷ 3 ∷ 4 ∷ 5 ∷ 6 ∷ []) (omega arith) (omega arith)
      (omega arith) (omega arith) refl
