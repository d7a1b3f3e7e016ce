-- ===== src/SuperTensor/Executor/Kept.antt =====
-- What giving batches back in src/tensor/supertensor.rs leaves as it is.
use toutates.Base.{
  ℕ, zero, suc, get_elem?, get_elem?-set_self, get_elem?-set_ne, get_elem?-bound, some, ℕ_discrete,
  ◌≡◌, refl, sym, ap, ◌∙◌, arith,
}
use toutates.SuperTensor.Index.{as_batch_id}
use toutates.SuperTensor.Buffer.{DataTracker, SuperTensorBuffer}
use toutates.SuperTensor.Executor.{move_tail}
use toutates.SuperTensor.Executor.Tail.{stop, go, look, freed}

-- A tracker after batches were given back: its state and its count of writes stay.
abbrev pub SameTracker : SuperTensorBuffer → SuperTensorBuffer → Type 0
SameTracker b c =
    (i : ℕ) (u : DataTracker)
    → get_elem? b.trackers i ≡ some u
    → (v : DataTracker) × (get_elem? c.trackers i ≡ some v)
      × (v.state ≡ u.state)
      × (v.written_slots ≡ u.written_slots)

-- What giving batches back leaves as it is.
pub record Kept (b c : SuperTensorBuffer) : Type 0 where
  pub states : c.states ≡ b.states
  pub executors_in_use : c.executors_in_use ≡ b.executors_in_use
  pub trackers : SameTracker b c

freed-Kept :
    (b : SuperTensorBuffer) (t : DataTracker)
    → get_elem? b.trackers (as_batch_id b.masks b.tail) ≡ some t
    → Kept b (freed b t)
freed-Kept b t found = record {
  states = refl;
  executors_in_use = refl;
  trackers = λ i u e. elim (ℕ_discrete (as_batch_id b.masks b.tail) i) [
    | yes here ↦ (
      record t { dirty = 0 },
      rw (sym here) (
          get_elem?-set_self b.trackers (as_batch_id b.masks b.tail) (record t { dirty = 0 })
            (get_elem?-bound b.trackers (as_batch_id b.masks b.tail) t found)),
      ap (λ x. x.state) (same_elem here found e),
      ap (λ x. x.written_slots) (same_elem here found e),
    )
    | no elsewhere ↦ (
      u,
      get_elem?-set_ne b.trackers (as_batch_id b.masks b.tail) i (record t { dirty = 0 }) elsewhere
          ∙ e,
      refl,
      refl,
    )
  ];
}
  where
    same_elem :
        {i : ℕ} {u : DataTracker}
        → as_batch_id b.masks b.tail ≡ i
        → get_elem? b.trackers (as_batch_id b.masks b.tail) ≡ some t
        → get_elem? b.trackers i ≡ some u
        → t ≡ u
    same_elem here found e = ground (arith, here, found, e)

pub move_tail-Kept : (fuel : ℕ) (b : SuperTensorBuffer) → Kept b (move_tail fuel b)
unfolding move_tail
move_tail-Kept zero b = record {
  states = refl;
  executors_in_use = refl;
  trackers = λ i u e. (u, e, refl, refl);
}
move_tail-Kept (suc fuel) b = elim (look b) [
  | stop stays stuck ↦
      rw (stays (suc fuel))
        (record { states = refl; executors_in_use = refl; trackers = λ i u e. (u, e, refl, refl) })
  | go t behind found done step ↦
      (let one = freed-Kept b t found in
        let rest = move_tail-Kept fuel (freed b t) in
        rw (step fuel) (record {
          states = rest.states;
          executors_in_use = rest.executors_in_use;
          trackers = λ i u e.
              let (v, ev, same_state, same_written) = one.trackers i u e in
              let (w, ew, same_state', same_written') = rest.trackers i v ev in
              (w, ew, same_state' ∙ same_state, same_written' ∙ same_written);
        }))
]

pub move_tail-inputs :
    (fuel : ℕ) (b : SuperTensorBuffer) → (move_tail fuel b).input_tensors ≡ b.input_tensors
unfolding move_tail
move_tail-inputs zero b = refl
move_tail-inputs (suc fuel) b = elim (look b) [
  | stop stays stuck ↦ ap (λ c. c.input_tensors) (stays (suc fuel))
  | go t behind found done step ↦
      ap (λ c. c.input_tensors) (step fuel) ∙ move_tail-inputs fuel (freed b t)
]
