-- ===== src/SuperTensor/Ring/GiveBack.antt =====
-- How the reset of a batch and the move of the tail in src/tensor/supertensor.rs carry out moves of
-- the ledger.
use native.Mathlib.Nat.{mod-lt, mul-mod_right, add-mod_right}
use toutates.Base.{
  ℕ, zero, suc, ◌+◌, ◌*◌, ◌%◌, ◌≤◌, ◌<◌, ◌^◌, ◌==◌, List, [], ◌∷◌, get_elem?, set, length,
  length-set, get_elem?-set_self, get_elem?-set_ne, get_elem?-bound, some, ◌≡◌, ◌≢◌, ◌⊎◌, inl, inr,
  refl, sym, ap, ◌∙◌, true, arith, usize_mod, ℕ_discrete, wrapping_sub,
}
use toutates.SuperTensor.Index.{half_range, as_batch_id, as_absolute_batch_higher_bound}
use toutates.SuperTensor.Index.Position.{
  IsRing, IsRing-Shape, as_absolute_batch_higher_bound-wrapped,
}
use toutates.SuperTensor.Buffer.{DataTracker}
use toutates.SuperTensor.Executor.{reset_batch, move_tail}
use toutates.SuperTensor.Executor.Run.{reset_batch-ok}
use toutates.SuperTensor.Executor.Tail.{freed, look, stop, go}
use toutates.SuperTensor.Ring.Distinct.{
  remove, map-remove, get_elem?-map, Between-elem, Fresh-remove, Fresh-removed, window-mod,
}
use toutates.SuperTensor.Ring.Ledger.{Ledger, Move, Moves, stay, chain, free, IsSound, Move-IsSound}
use toutates.SuperTensor.Ring.Steps.{System}
use toutates.SuperTensor.Ring.Rep.{counter, Rep, as_batch_id-counter}
use toutates.SuperTensor.Ring.Refine.{batch_lt}

module _ {ℓ} {A : Type ℓ} where
  pub elem_in_range : (xs : List A) (i : ℕ) → i < length xs → (x : A) × (get_elem? xs i ≡ some x)
  elem_in_range [] i h = absurd (omega arith)
  elem_in_range (x ∷ xs) zero h = (x, refl)
  elem_in_range (x ∷ xs) (suc i) h = elem_in_range xs i (omega arith)

-- A place of a list after a write: the new element, or what was there.
pub set_place :
    (ts : List DataTracker) (id i : ℕ) (t u : DataTracker)
    → id < length ts
    → get_elem? (set ts id t) i ≡ some u
    → ((id ≡ i) × (t ≡ u)) ⊎ ((id ≢ i) × (get_elem? ts i ≡ some u))
set_place ts id i t u h e = elim (ℕ_discrete id i) [
  | yes here ↦ inl (
    here,
    some-injective t u
        (sym (get_elem?-set_self ts id t h) ∙ ap (λ j. get_elem? (set ts id t) j) here ∙ e),
  )
  | no elsewhere ↦ inr (elsewhere, sym (get_elem?-set_ne ts id i t elsewhere) ∙ e)
]
  where
    some-injective : (a b : DataTracker) → some a ≡ some b → a ≡ b
    some-injective a b e = ground arith

module _ (capacity batch_size : ℕ) (ring : IsRing capacity batch_size)
    (fits : capacity * batch_size ≤ 2 ^ 61) where
  positive : 0 < capacity
  positive = (IsRing-Shape capacity batch_size ring).capacity_pos

  module _ (l : Ledger) (s : System) (sound : IsSound capacity batch_size l)
      (rep : Rep capacity batch_size ring l s) where
    -- The tracker that an executor's batch has.
    pub tracked :
        (p : ℕ) → (t : DataTracker) × (get_elem? s.buffer.trackers (p % capacity) ≡ some t)
    tracked p =
        elem_in_range s.buffer.trackers (p % capacity)
          (omega (arith, rep.ring_trackers, mod-lt p positive))

    pub reset-Rep :
        (i idx : ℕ)
        → get_elem? s.running i ≡ some idx
        → (p : ℕ) × (get_elem? l.running i ≡ some p)
          × Rep capacity batch_size ring
              (record l { running = remove l.running i })
              (record {
                buffer = (reset_batch (as_batch_id s.buffer.masks idx) s.buffer).0;
                running = remove s.running i;
              })
    reset-Rep i idx held =
        let (p, at_i, ei) =
          get_elem?-map (counter capacity batch_size ring) l.running i idx
            (rw rep.running_at at held) in
        let (lo, hi) = Between-elem l.oldest l.next l.running i p sound.window at_i in
        let place : as_batch_id s.buffer.masks idx ≡ p % capacity =
          rw (rep.ring_masks, sym ei) (as_batch_id-counter capacity batch_size ring p) in
        let (t, found) = tracked p in
        let in_range = get_elem?-bound s.buffer.trackers (p % capacity) t found in
        (
          p,
          at_i,
          rw (place, reset_batch-ok (p % capacity) s.buffer t found)
              (record {
                ring_masks = rep.ring_masks;
                ring_capacity = rep.ring_capacity;
                ring_batch_size = rep.ring_batch_size;
                ring_trackers = length-set s.buffer.trackers (p % capacity) _ ∙ rep.ring_trackers;
                head_at = rep.head_at;
                executor_head_at = rep.executor_head_at;
                tail_at = rep.tail_at;
                running_at =
                    ap (λ xs. remove xs i) rep.running_at
                    ∙ sym (map-remove (counter capacity batch_size ring) l.running i);
                done = λ j u e d q lq hq same.
                    elim (set_place s.buffer.trackers (p % capacity) j _ u in_range e) [
                      | inl (here, _) ↦
                          (let q_is_p : p ≡ q =
                              window-mod capacity l.oldest p q positive lo
                                (omega (arith, sound.in_ring)) lq hq (here ∙ sym same) in
                            (
                              omega arith,
                              rw (sym q_is_p) (Fresh-removed l.running i p sound.distinct at_i),
                            ))
                      | inr (elsewhere, before) ↦
                          (let (claimed, idle) = rep.done j u before d q lq hq same in
                            (claimed, Fresh-remove q l.running i idle))
                    ];
              }),
        )

  -- Where the batch at the tail ends.
  pub higher_at :
      (l : Ledger) (s : System)
      → Rep capacity batch_size ring l s
      → as_absolute_batch_higher_bound s.buffer.masks s.buffer.tail
        ≡ counter capacity batch_size ring (suc l.oldest)
  higher_at l s rep =
      rw (rep.ring_masks, rep.tail_at)
        (as_absolute_batch_higher_bound-wrapped capacity batch_size ring (batch_size * l.oldest)
          ∙ ap (λ n. n % usize_mod) (omega (arith, mul-mod_right batch_size l.oldest)))

  -- What a round that gives back the oldest batch finds and leaves.
  pub freed-Rep :
      (l : Ledger) (s : System) (t : DataTracker)
      → IsSound capacity batch_size l
      → Rep capacity batch_size ring l s
      → half_range
        ≤ wrapping_sub (as_absolute_batch_higher_bound s.buffer.masks s.buffer.tail) s.buffer.head
      → get_elem? s.buffer.trackers (as_batch_id s.buffer.masks s.buffer.tail) ≡ some t
      → (t.dirty == 2) ≡ true
      → Move capacity batch_size l (record l { oldest = suc l.oldest })
        × Rep capacity batch_size ring
            (record l { oldest = suc l.oldest })
            (record s { buffer = freed s.buffer t })
  freed-Rep l s t sound rep behind found done =
      let id = as_batch_id s.buffer.masks s.buffer.tail in
      let place : id ≡ l.oldest % capacity =
        rw (rep.ring_masks, rep.tail_at) (as_batch_id-counter capacity batch_size ring l.oldest) in
      let (was_claimed, idle) =
        rep.done id t found done l.oldest (omega arith) (omega (arith, positive)) (sym place) in
      let higher = higher_at l s rep in
      let past : batch_size * l.oldest + batch_size < l.slots = omega (
        arith,
        higher,
        rep.head_at,
        behind,
        sound.near,
        sound.reached,
        batch_lt capacity batch_size ring fits,
        fits,
      ) in
      let in_range = get_elem?-bound s.buffer.trackers id t found in
      (
        free l was_claimed idle past,
        record {
          ring_masks = rep.ring_masks;
          ring_capacity = rep.ring_capacity;
          ring_batch_size = rep.ring_batch_size;
          ring_trackers = length-set s.buffer.trackers id _ ∙ rep.ring_trackers;
          head_at = rep.head_at;
          executor_head_at = rep.executor_head_at;
          tail_at = higher;
          running_at = rep.running_at;
          done = λ j u e d q lq hq same. elim (set_place s.buffer.trackers id j _ u in_range e) [
            | inl (_, now) ↦ absurd (ground (arith, now, d))
            | inr (elsewhere, before) ↦ elim (ℕ_discrete q (l.oldest + capacity)) [
              | yes new ↦ absurd (elsewhere (place ∙ wrap q new ∙ same))
              | no old ↦ rep.done j u before d q (omega arith) (omega arith) same
            ]
          ];
        },
      )
    where
      wrap : (q : ℕ) → q ≡ l.oldest + capacity → l.oldest % capacity ≡ q % capacity
      wrap q e = sym (ap (λ n. n % capacity) e ∙ add-mod_right l.oldest capacity)

  pub move_tail-Rep :
      (rounds : ℕ) (l : Ledger) (s : System)
      → IsSound capacity batch_size l
      → Rep capacity batch_size ring l s
      → (l' : Ledger) × Moves capacity batch_size l l'
        × (l.oldest ≤ l'.oldest)
        × (l'.next ≡ l.next)
        × Rep capacity batch_size ring l' (record s { buffer = move_tail rounds s.buffer })
  unfolding move_tail
  move_tail-Rep zero l s sound rep = (l, stay l, omega arith, refl, rep)
  move_tail-Rep (suc rounds) l s sound rep = elim (look s.buffer) [
    | stop stays stuck ↦ (l, stay l, omega arith, refl, rw (stays (suc rounds)) rep)
    | go t behind found done step ↦
        (let (move, rep₁) = freed-Rep l s t sound rep behind found done in
          let (l', moves, later, same, rep') =
            move_tail-Rep rounds (record l { oldest = suc l.oldest })
              (record s { buffer = freed s.buffer t })
              (Move-IsSound capacity batch_size _ _ move sound) rep₁ in
          (l', chain _ _ _ move moves, omega arith, same, rw (step rounds) rep'))
  ]
