-- ===== src/Tests/Interleaving.antt =====
-- Two requests of three rows and two executors on the ring of two batches of four slots.
use toutates.Base.{ℕ, ◌*◌, ◌≤◌, ◌^◌, [], ◌∷◌, false, refl, arith}
use toutates.SuperTensor.Buffer.{SuperTensorBuffer}
use toutates.SuperTensor.Infer.{Round}
use toutates.SuperTensor.Executor.{claim_batch}
use toutates.SuperTensor.Ring.Distinct.{Distinct}
use toutates.SuperTensor.Ring.Ledger.{Ledger, Moves}
use toutates.SuperTensor.Ring.Steps.{System, Step, claim}
use toutates.SuperTensor.Ring.Rep.{Rep}
use toutates.SuperTensor.Ring.Simulation.{Step-Moves}
use toutates.SuperTensor.Ring.Safety.{
  empty_ledger, empty_ledger-IsSound, accepted, new_with_overrides-Rep,
}
use toutates.Tests.{elements, tracker, ring}
use toutates.Tests.Loading.{zeros, pairs, overrides, fresh, made}

abbrev at : ℕ → ℕ → SuperTensorBuffer
at head executor_head = ring head executor_head 0 (tracker 0 0 0 ∷ tracker 0 0 1 ∷ [])

abbrev begin : System
begin = record { buffer = fresh; running = [] }

abbrev one_claim : System
one_claim = record { buffer = at 0 4; running = 0 ∷ [] }

abbrev three_in : System
three_in = record { buffer = at 3 4; running = 0 ∷ [] }

abbrev six_in : System
six_in = record { buffer = at 6 4; running = 0 ∷ [] }

abbrev two_claims : System
two_claims = record { buffer = at 6 8; running = 4 ∷ 0 ∷ [] }

abbrev round_at : ℕ → SuperTensorBuffer → Round
round_at head b = record { seen_head = head; seen_tail = 0; buffer = b; spurious = false }

first_claim : Step elements begin one_claim
unfolding claim_batch
first_claim = claim begin 0 0 false (at 0 4) 0 (omega arith, omega arith) refl

small : 2 * 4 ≤ 2 ^ 61
small = omega arith

Step-Moves_example :
    (l : Ledger) × Moves 2 4 empty_ledger l
    × Rep 2 4 (accepted zeros (pairs ∷ []) overrides elements 2 4 small fresh made) l one_claim
Step-Moves_example =
    Step-Moves elements 2 4 (accepted zeros (pairs ∷ []) overrides elements 2 4 small fresh made)
      small empty_ledger begin one_claim (empty_ledger-IsSound 2 4)
      (new_with_overrides-Rep zeros (pairs ∷ []) overrides elements 2 4 small fresh made)
      first_claim
