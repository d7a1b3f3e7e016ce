-- ===== src/SuperTensor/Ring/Warm.antt =====
-- How a warmup of src/tensor/supertensor.rs carries out moves of the ledger: it claims a batch, closes
-- it, marks it as done, and gives back what it can.
use native.Mathlib.Nat.{mod-add-mod, mul-le-mul_left}
use toutates.Base.{
  ℕ, suc, ◌+◌, ◌-◌, ◌*◌, ◌%◌, ◌≤◌, ◌<◌, ◌^◌, List, [], ◌∷◌, ◌++◌, length, get_elem?,
  get_elem?-bound, get_elem?-set_self, set, length-set, some, Result, ok, err, panic, ◌≡◌, refl,
  sym, ap, ap₂, ◌∙◌, inl, inr, arith, usize_mod, wrapping_sub, wrapping_add,
}
use toutates.Tensor.Errors.{InferError}
use toutates.Tensor.Copy.{HostTensor}
use toutates.SuperTensor.Index.{as_batch_id}
use toutates.SuperTensor.Index.Position.{IsRing}
use toutates.SuperTensor.Buffer.{new_batch_state, DataTracker, SuperTensorBuffer}
use toutates.SuperTensor.Executor.{
  get_data_view, reset_batch, move_tail, enter_executor, leave_executor, free_batches, warmup,
}
use toutates.SuperTensor.Executor.Kept.{move_tail-inputs}
use toutates.SuperTensor.Executor.Run.{reset_batch-ok}
use toutates.SuperTensor.Ring.Ledger.{
  Ledger, Move, Moves, stay, chain, claim, seal, finish, IsSound, Move-IsSound, Moves-trans,
}
use toutates.SuperTensor.Ring.Steps.{System}
use toutates.SuperTensor.Ring.Calm.{IsCalm-same}
use toutates.SuperTensor.Ring.Rep.{Rep, Rep-calm, as_batch_id-counter}
use toutates.SuperTensor.Ring.Refine.{block_le, block_lt_inverse}
use toutates.SuperTensor.Ring.GiveBack.{tracked, set_place, reset-Rep, move_tail-Rep}

-- The buffer when a warmup has taken the batch at the head, and when it has marked it as in use.
abbrev pub taken : SuperTensorBuffer → SuperTensorBuffer
taken b = record b {
  head = wrapping_add b.head b.batch_size;
  executor_head = wrapping_add b.executor_head b.batch_size;
}

abbrev pub marked : SuperTensorBuffer → DataTracker → SuperTensorBuffer
marked b t = record (taken b) {
  trackers = set b.trackers (as_batch_id b.masks b.head) (record t { dirty = 1 });
  executors_in_use = wrapping_add b.executors_in_use 1;
}

abbrev pub given_back : SuperTensorBuffer → DataTracker → SuperTensorBuffer
given_back b t =
    move_tail (suc b.capacity) (reset_batch (as_batch_id b.masks b.head) (marked b t)).0

module _ (b : SuperTensorBuffer) (t : DataTracker)
    (tracked : get_elem? b.trackers (as_batch_id b.masks b.head) ≡ some t) where
  warmup-view :
      (c : SuperTensorBuffer) (r : Result InferError (List HostTensor))
      → get_data_view b b.head ≡ r
      → warmup b ≡ (c, ok tt)
      → (v : List HostTensor) × (get_data_view b b.head ≡ ok v)
  unfolding warmup enter_executor
  warmup-view c (ok v) e w = (v, e)
  warmup-view c (err x) e w = absurd (ground (arith, tracked, e, w))
  warmup-view c panic e w = absurd (ground (arith, tracked, e, w))

  pub marked_at :
      get_elem? (marked b t).trackers (as_batch_id b.masks b.head) ≡ some (record t { dirty = 1 })
  marked_at =
      get_elem?-set_self b.trackers (as_batch_id b.masks b.head) (record t { dirty = 1 })
        (get_elem?-bound b.trackers (as_batch_id b.masks b.head) t tracked)

  pub reset-marked : reset_batch (as_batch_id b.masks b.head) (marked b t) ≡ (
    record (marked b t) {
      states = b.states ++ (new_batch_state ∷ []);
      trackers =
          set
            (marked b t).trackers
            (as_batch_id b.masks b.head)
            (record t { state = length b.states; written_slots = 0; dirty = 2 });
    },
    ok tt,
  )
  reset-marked =
      reset_batch-ok (as_batch_id b.masks b.head) (marked b t) (record t { dirty = 1 }) marked_at

  pub warmup-given_back :
      (c : SuperTensorBuffer)
      → warmup b ≡ (c, ok tt)
      → c ≡ record (given_back b t) {
        executors_in_use = wrapping_sub ((given_back b t).executors_in_use) 1;
      }
  unfolding warmup enter_executor leave_executor free_batches
  warmup-given_back c w =
      let (v, e) = warmup-view c (get_data_view b b.head) refl w in
      ap (λ p. p.0) (sym w) ∙ (rw (tracked, e, reset-marked) refl)

  -- Where the batch at the head has its input buffers, the warmup succeeds.
  pub warmup-ok : (v : List HostTensor) → get_data_view b b.head ≡ ok v → (warmup b).1 ≡ ok tt
  unfolding warmup enter_executor leave_executor free_batches
  warmup-ok v e = rw (tracked, e, reset-marked) refl

  pub given_back-inputs : (given_back b t).input_tensors ≡ b.input_tensors
  given_back-inputs = move_tail-inputs (suc b.capacity) _ ∙ ap (λ p. p.0.input_tensors) reset-marked

module _ (capacity batch_size : ℕ) (ring : IsRing capacity batch_size)
    (fits : capacity * batch_size ≤ 2 ^ 61) (l : Ledger) (s : System)
    (sound : IsSound capacity batch_size l) (rep : Rep capacity batch_size ring l s)
    (drained : s.buffer.head ≡ s.buffer.executor_head)
    (room : wrapping_sub s.buffer.executor_head s.buffer.tail < capacity * batch_size) where
  -- The ledger when the next batch is claimed, and when it is closed too.
  claimed_ledger : Ledger
  claimed_ledger = record l { next = suc l.next; running = l.next ∷ l.running }

  closed_ledger : Ledger
  closed_ledger = record claimed_ledger {
    slots = l.slots + (batch_size * l.next + batch_size - l.slots);
  }

  slots_all_claimed : l.slots ≡ batch_size * l.next
  slots_all_claimed = omega (
    arith,
    sound.reached,
    sound.near,
    fits,
    rep.head_at,
    rep.executor_head_at,
    drained,
    mul-le-mul_left batch_size sound.claimed,
    block_le capacity batch_size l.next l.oldest sound.in_ring,
  )

  next_in_ring : l.next < l.oldest + capacity
  next_in_ring = block_lt_inverse capacity batch_size l.next l.oldest (
      omega (
        arith, room, rep.executor_head_at, rep.tail_at, slots_all_claimed, sound.reached,
        sound.near, fits,
      ))

  claim_next : Move capacity batch_size l claimed_ledger
  unfolding claimed_ledger
  claim_next = claim l next_in_ring

  close_next : Move capacity batch_size claimed_ledger closed_ledger
  unfolding claimed_ledger closed_ledger
  close_next = seal claimed_ledger 0 l.next refl (omega (arith, slots_all_claimed))

  closed-IsSound : IsSound capacity batch_size closed_ledger
  closed-IsSound =
      Move-IsSound capacity batch_size _ _ close_next
        (Move-IsSound capacity batch_size _ _ claim_next sound)

  marked-Rep :
      (t : DataTracker)
      → get_elem? s.buffer.trackers (as_batch_id s.buffer.masks s.buffer.head) ≡ some t
      → Rep capacity batch_size ring closed_ledger
          (record { buffer = marked s.buffer t; running = s.buffer.head ∷ s.running })
  unfolding claimed_ledger closed_ledger
  marked-Rep t found =
      let id = as_batch_id s.buffer.masks s.buffer.head in
      let in_range = get_elem?-bound s.buffer.trackers id t found in
      record {
        ring_masks = rep.ring_masks;
        ring_capacity = rep.ring_capacity;
        ring_batch_size = rep.ring_batch_size;
        ring_trackers = length-set s.buffer.trackers id _ ∙ rep.ring_trackers;
        head_at =
            rw (rep.head_at, rep.ring_batch_size)
              (mod-add-mod l.slots usize_mod batch_size
                ∙ ap (λ n. n % usize_mod) (omega (arith, slots_all_claimed)));
        executor_head_at =
            rw (rep.executor_head_at, rep.ring_batch_size)
              (mod-add-mod (batch_size * l.next) usize_mod batch_size
                ∙ ap (λ n. n % usize_mod) (omega arith));
        tail_at = rep.tail_at;
        running_at = ap₂ (λ x xs. x ∷ xs) (drained ∙ rep.executor_head_at) rep.running_at;
        done = λ j u e d p lo hi place. elim (set_place s.buffer.trackers id j _ u in_range e) [
          | inl (_, now) ↦ absurd (ground (arith, now, d))
          | inr (elsewhere, before) ↦
              (let (was_claimed, idle) = rep.done j u before d p lo hi place in
                (omega (arith, was_claimed), (λ same. absurd (omega (arith, was_claimed)), idle)))
        ];
      }

  -- The ledger when the batch is done.
  unfoldable pub done_ledger : Ledger
  done_ledger = record l {
    slots = l.slots + (batch_size * l.next + batch_size - l.slots);
    next = suc l.next;
  }

  pub reset-warm :
      (t : DataTracker)
      → get_elem? s.buffer.trackers (as_batch_id s.buffer.masks s.buffer.head) ≡ some t
      → Moves capacity batch_size l done_ledger
        × IsSound capacity batch_size done_ledger
        × Rep capacity batch_size ring done_ledger (record s {
          buffer = (reset_batch (as_batch_id s.buffer.masks s.buffer.head) (marked s.buffer t)).0;
        })
  unfolding claimed_ledger closed_ledger done_ledger
  reset-warm t found =
      let (p, at_i, rep₂) =
        reset-Rep capacity batch_size ring fits closed_ledger _ closed-IsSound (marked-Rep t found)
          0 s.buffer.head refl in
      let done_move = finish closed_ledger 0 p at_i in
      (
        chain _ _ _ claim_next (chain _ _ _ close_next (chain _ _ _ done_move (stay _))),
        Move-IsSound capacity batch_size _ _ done_move closed-IsSound,
        rep₂,
      )

  pub head_place : as_batch_id s.buffer.masks s.buffer.head ≡ l.next % capacity
  head_place =
      rw (rep.ring_masks, drained, rep.executor_head_at)
        (as_batch_id-counter capacity batch_size ring l.next)

  pub warmup-Rep :
      (c : SuperTensorBuffer)
      → warmup s.buffer ≡ (c, ok tt)
      → (l' : Ledger) × Moves capacity batch_size l l'
        × Rep capacity batch_size ring l' (record s { buffer = c })
  warmup-Rep c warm =
      let (t, found) = tracked capacity batch_size ring fits l s sound rep l.next in
      let found' : get_elem? s.buffer.trackers (as_batch_id s.buffer.masks s.buffer.head) ≡ some t =
        rw head_place found in
      let (moves, sound₂, rep₂) = reset-warm t found' in
      let (l', frees, _, _, rep₃) =
        move_tail-Rep capacity batch_size ring fits (suc s.buffer.capacity) _ _ sound₂ rep₂ in
      (
        l',
        Moves-trans capacity batch_size _ _ _ moves frees,
        rw (warmup-given_back s.buffer t found' c warm)
            (Rep-calm capacity batch_size ring l' _ _ rep₃ (IsCalm-same _ _ refl refl)),
      )
