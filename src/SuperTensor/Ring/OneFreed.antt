-- ===== src/SuperTensor/Ring/OneFreed.antt =====
-- Where the tail of src/tensor/supertensor.rs stops when the head is one batch or two on.
use toutates.Base.{
  ℕ, suc, ◌*◌, ◌%◌, ◌≤◌, ◌<◌, ◌^◌, ◌==◌, get_elem?, get_elem?-set_ne, some, ◌≡◌, ◌≢◌, sym, ap, ◌∙◌,
  true, inl, inr, arith, usize_mod,
}
use toutates.SuperTensor.Index.{as_batch_id, as_absolute_batch_higher_bound}
use toutates.SuperTensor.Index.Position.{IsRing, IsRing-Shape}
use toutates.SuperTensor.Buffer.{DataTracker}
use toutates.SuperTensor.Executor.{move_tail}
use toutates.SuperTensor.Executor.Tail.{look, stop, go, freed}
use toutates.SuperTensor.Ring.Distinct.{window-mod}
use toutates.SuperTensor.Ring.Ledger.{Ledger, Moves, chain, stay, IsSound, Move-IsSound}
use toutates.SuperTensor.Ring.Steps.{System}
use toutates.SuperTensor.Ring.Rep.{Rep, as_batch_id-counter}
use toutates.SuperTensor.Ring.Refine.{batch_lt}
use toutates.SuperTensor.Ring.GiveBack.{higher_at, freed-Rep}

module _ (capacity batch_size : ℕ) (ring : IsRing capacity batch_size)
    (fits : capacity * batch_size ≤ 2 ^ 61) where
  pub next_place : (p : ℕ) → 1 < capacity → suc p % capacity ≢ p % capacity
  next_place p two same =
      let e =
        window-mod capacity p (suc p) p (omega arith) (omega arith) (omega arith) (omega arith)
          (omega arith) same in
      absurd (omega arith)

  -- The tail stays where the head is at the end of its batch.
  pub at_head :
      (l : Ledger) (s : System) (rounds : ℕ)
      → Rep capacity batch_size ring l s
      → l.slots ≡ batch_size * suc l.oldest
      → move_tail rounds s.buffer ≡ s.buffer
  at_head l s rounds rep e = elim (look s.buffer) [
    | stop stays stuck ↦ stays rounds
    | go t behind found done step ↦
        (let same : as_absolute_batch_higher_bound s.buffer.masks s.buffer.tail ≡ s.buffer.head =
            higher_at capacity batch_size ring fits l s rep
            ∙ sym (rep.head_at ∙ ap (λ n. n % usize_mod) e) in
          absurd (omega (arith, same, behind)))
  ]

  -- Where the oldest batch is done and the head at the end of the one after it, the tail moves on
  -- by one batch.
  pub one_freed :
      (l : Ledger) (s : System) (t : DataTracker) (rounds : ℕ)
      → IsSound capacity batch_size l
      → Rep capacity batch_size ring l s
      → l.slots ≡ batch_size * suc (suc l.oldest)
      → get_elem? s.buffer.trackers (l.oldest % capacity) ≡ some t
      → (t.dirty == 2) ≡ true
      → Moves capacity batch_size l (record l { oldest = suc l.oldest })
        × IsSound capacity batch_size (record l { oldest = suc l.oldest })
        × Rep capacity batch_size ring
            (record l { oldest = suc l.oldest })
            (record s { buffer = move_tail (suc rounds) s.buffer })
        × ((id : ℕ)
            → id ≢ l.oldest % capacity
            → get_elem? (move_tail (suc rounds) s.buffer).trackers id
              ≡ get_elem? s.buffer.trackers id)
  one_freed l s t rounds sound rep e found done =
      let place : as_batch_id s.buffer.masks s.buffer.tail ≡ l.oldest % capacity =
        rw (rep.ring_masks, rep.tail_at) (as_batch_id-counter capacity batch_size ring l.oldest) in
      let higher = higher_at capacity batch_size ring fits l s rep in
      elim (look s.buffer) [
        | stop stays (inl close) ↦ absurd (
            omega (
              arith,
              higher,
              rep.head_at,
              close,
              e,
              batch_lt capacity batch_size ring fits,
              (IsRing-Shape capacity batch_size ring).batch_pos,
            ))
        | stop stays (inr running) ↦ absurd (ground (arith, running t (rw place found), done))
        | go t' behind found' done' step ↦
            (let (move, rep₁) =
                freed-Rep capacity batch_size ring fits l s t' sound rep behind found' done' in
              let rest = at_head _ _ rounds rep₁ e in
              let moved : move_tail (suc rounds) s.buffer ≡ freed s.buffer t' =
                step rounds ∙ rest in
              (
                chain _ _ _ move (stay _),
                Move-IsSound capacity batch_size _ _ move sound,
                rw moved rep₁,
                λ id other.
                    rw (moved, place)
                      (get_elem?-set_ne s.buffer.trackers (l.oldest % capacity) id _
                        (λ x. other (sym x))),
              ))
      ]
