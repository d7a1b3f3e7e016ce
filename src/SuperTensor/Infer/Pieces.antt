-- ===== src/SuperTensor/Infer/Pieces.antt =====
-- The batches that a claim of `infer` is split over: the loop of src/tensor/supertensor.rs against
-- a plan of its pieces.
use native.Mathlib.Nat.{mod-lt}
use toutates.Base.{
  ℕ, zero, suc, ◌+◌, ◌-◌, ◌%◌, ◌≤◌, ◌<◌, min, ◌==◌, if◌then◌else◌, true, false, Bool-cases, inl,
  inr, ◌≡◌, arith, List, [], ◌∷◌,
}

-- Of `n` slots from the counter `first` on: where each piece starts, and how many slots it has. The
-- counter has not wrapped, and a piece ends where its batch does.
pub record Piece : Type 0 where
  pub first : ℕ
  pub slots : ℕ

unfoldable pub plan : ℕ → ℕ → ℕ → ℕ → List Piece
plan batch_size zero first n = []
plan batch_size (suc fuel) first n =
    let size = min n (batch_size - first % batch_size) in
    let rest = plan batch_size fuel (first + size) (n - size) in
    if n - size == 0
    then record { first = first; slots = size } ∷ []
    else record { first = first; slots = size } ∷ rest

abbrev pub total : List Piece → ℕ
total [] = 0
total (p ∷ ps) = p.slots + total ps

-- The pieces follow one another from `first` on, and each lies in one batch and is not empty.
abbrev pub IsChain : ℕ → ℕ → List Piece → Type 0
IsChain batch_size first [] = Unit
IsChain batch_size first (p ∷ ps) =
    (p.first ≡ first)
    × (0 < p.slots)
    × (p.first % batch_size + p.slots ≤ batch_size)
    × IsChain batch_size (first + p.slots) ps

pub plan-IsChain :
    (batch_size fuel first n : ℕ)
    → 0 < batch_size
    → 0 < n
    → IsChain batch_size first (plan batch_size fuel first n)
unfolding plan
plan-IsChain batch_size zero first n hb hn = tt
plan-IsChain batch_size (suc fuel) first n hb hn =
    let size = min n (batch_size - first % batch_size) in
    ground (arith, mod-lt first hb, plan-IsChain batch_size fuel (first + size) (n - size) hb)

pub total-plan :
    (batch_size fuel first n : ℕ)
    → 0 < batch_size
    → n ≤ fuel
    → total (plan batch_size fuel first n) ≡ n
unfolding plan
total-plan batch_size zero first n hb hn = omega arith
total-plan batch_size (suc fuel) first n hb hn =
    let size = min n (batch_size - first % batch_size) in
    ground (arith, mod-lt first hb, total-plan batch_size fuel (first + size) (n - size) hb)

-- The slots of the piece that a plan begins with.
abbrev pub first_slots : ℕ → ℕ → ℕ → ℕ
first_slots batch_size first n = min n (batch_size - first % batch_size)

pub plan_last :
    (batch_size fuel first n : ℕ)
    → (n - first_slots batch_size first n == 0) ≡ true
    → plan batch_size (suc fuel) first n
      ≡ record { first = first; slots = first_slots batch_size first n } ∷ []
unfolding plan
plan_last batch_size fuel first n e = rw e

pub plan_more :
    (batch_size fuel first n : ℕ)
    → (n - first_slots batch_size first n == 0) ≡ false
    → plan batch_size (suc fuel) first n
      ≡ record { first = first; slots = first_slots batch_size first n }
        ∷ plan batch_size fuel
            (first + first_slots batch_size first n)
            (n - first_slots batch_size first n)
unfolding plan
plan_more batch_size fuel first n e = rw e

pub plan-cons :
    (batch_size fuel first n : ℕ)
    → 0 < fuel
    → (q : Piece) × (qs : List Piece) × (plan batch_size fuel first n ≡ q ∷ qs)
plan-cons batch_size zero first n h = absurd (omega arith)
plan-cons batch_size (suc fuel) first n h =
    elim (Bool-cases (n - first_slots batch_size first n == 0)) [
      | inl e ↦ (_, _, plan_last batch_size fuel first n e)
      | inr e ↦ (_, _, plan_more batch_size fuel first n e)
    ]
