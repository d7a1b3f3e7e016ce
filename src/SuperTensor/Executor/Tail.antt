-- ===== src/SuperTensor/Executor/Tail.antt =====
-- How far `move_tail_to_next_non_dirty_buffer` of src/tensor/supertensor.rs moves the tail.
use toutates.Base.{
  ℕ, zero, suc, ◌+◌, ◌≤◌, ◌<◌, ◌==◌, ltb, if◌then◌else◌, List, [], ◌∷◌, get_elem?, set, none, some,
  true, false, ◌≡◌, ◌⊎◌, inl, inr, refl, arith, wrapping_sub, Option-cases, Bool-cases,
}
use toutates.SuperTensor.Index.{half_range, as_batch_id, as_absolute_batch_higher_bound}
use toutates.SuperTensor.Buffer.{DataTracker, SuperTensorBuffer}
use toutates.SuperTensor.Executor.{move_tail}

-- The batches that are done and not yet given back.
unfoldable pub done_batches : List DataTracker → ℕ
done_batches [] = 0
done_batches (t ∷ ts) = (if t.dirty == 2 then 1 else 0) + done_batches ts

-- The tail cannot move: the head is not past the end of its batch, or the batch is not done.
abbrev pub IsStuck : SuperTensorBuffer → Type 0
IsStuck b =
    (wrapping_sub (as_absolute_batch_higher_bound b.masks b.tail) b.head < half_range)
    ⊎ ((t : DataTracker)
        → get_elem? b.trackers (as_batch_id b.masks b.tail) ≡ some t
        → (t.dirty == 2) ≡ false)

done_batches-set :
    (ts : List DataTracker) (i : ℕ) (t : DataTracker)
    → get_elem? ts i ≡ some t
    → (t.dirty == 2) ≡ true
    → suc (done_batches (set ts i (record t { dirty = 0 }))) ≡ done_batches ts
unfolding done_batches
done_batches-set [] i t e d = absurd (ground arith)
done_batches-set (x ∷ xs) zero t e d = ground arith
done_batches-set (x ∷ xs) (suc i) t e d = ground (arith, done_batches-set xs i t e d)

-- The buffer after a round that gives back the batch at the tail, whose tracker is `t`.
abbrev pub freed : SuperTensorBuffer → DataTracker → SuperTensorBuffer
freed b t = record b {
  tail = as_absolute_batch_higher_bound b.masks b.tail;
  trackers = set b.trackers (as_batch_id b.masks b.tail) (record t { dirty = 0 });
}

-- What a round of the loop can find.
pub data Look (b : SuperTensorBuffer) : Type 0 where
  stop : ((fuel : ℕ) → move_tail fuel b ≡ b) → IsStuck b → Look b
  go :
      (t : DataTracker)
      → half_range ≤ wrapping_sub (as_absolute_batch_higher_bound b.masks b.tail) b.head
      → get_elem? b.trackers (as_batch_id b.masks b.tail) ≡ some t
      → (t.dirty == 2) ≡ true
      → ((fuel : ℕ) → move_tail (suc fuel) b ≡ move_tail fuel (freed b t))
      → Look b

move_tail-at_head :
    (b : SuperTensorBuffer) (fuel : ℕ)
    → ltb (wrapping_sub (as_absolute_batch_higher_bound b.masks b.tail) b.head) half_range ≡ true
    → move_tail fuel b ≡ b
unfolding move_tail
move_tail-at_head b zero e = refl
move_tail-at_head b (suc fuel) e = ground arith

move_tail-missing :
    (b : SuperTensorBuffer) (fuel : ℕ)
    → get_elem? b.trackers (as_batch_id b.masks b.tail) ≡ none
    → move_tail fuel b ≡ b
unfolding move_tail
move_tail-missing b zero e = refl
move_tail-missing b (suc fuel) e = ground arith

move_tail-running :
    (b : SuperTensorBuffer) (fuel : ℕ) (t : DataTracker)
    → get_elem? b.trackers (as_batch_id b.masks b.tail) ≡ some t
    → (t.dirty == 2) ≡ false
    → move_tail fuel b ≡ b
unfolding move_tail
move_tail-running b zero t e d = refl
move_tail-running b (suc fuel) t e d = ground arith

move_tail-freed :
    (b : SuperTensorBuffer) (fuel : ℕ) (t : DataTracker)
    → ltb (wrapping_sub (as_absolute_batch_higher_bound b.masks b.tail) b.head) half_range ≡ false
    → get_elem? b.trackers (as_batch_id b.masks b.tail) ≡ some t
    → (t.dirty == 2) ≡ true
    → move_tail (suc fuel) b ≡ move_tail fuel (freed b t)
unfolding move_tail
move_tail-freed b fuel t p e d = ground arith

pub look : (b : SuperTensorBuffer) → Look b
look b =
    elim (Bool-cases
      (ltb (wrapping_sub (as_absolute_batch_higher_bound b.masks b.tail) b.head) half_range)) [
        | inl at_head ↦ stop (λ fuel. move_tail-at_head b fuel at_head) (inl (ground arith))
        | inr behind ↦ elim (Option-cases (get_elem? b.trackers (as_batch_id b.masks b.tail))) [
          | inl missing ↦
              stop (λ fuel. move_tail-missing b fuel missing) (inr (λ t e. absurd (ground arith)))
          | inr (t, found) ↦ elim (Bool-cases (t.dirty == 2)) [
            | inl done ↦
                go t (ground arith) found done (λ fuel. move_tail-freed b fuel t behind found done)
            | inr running ↦
                stop (λ fuel. move_tail-running b fuel t found running) (inr (λ u e. ground arith))
          ]
        ]
      ]

-- With more fuel than there are batches done, the loop ends where the tail cannot move.
pub move_tail-IsStuck :
    (fuel : ℕ) (b : SuperTensorBuffer) → done_batches b.trackers < fuel → IsStuck (move_tail fuel b)
move_tail-IsStuck zero b h = absurd (omega arith)
move_tail-IsStuck (suc fuel) b h = elim (look b) [
  | stop stays stuck ↦ rw (stays (suc fuel)) stuck
  | go t behind found done step ↦ rw (step fuel) (
      move_tail-IsStuck fuel (freed b t)
        (omega (arith, done_batches-set b.trackers (as_batch_id b.masks b.tail) t found done)))
]
