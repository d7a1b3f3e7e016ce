-- ===== src/SuperTensor/Ring/Progress.antt =====
-- The oldest batch of the ring of src/tensor/supertensor.rs is given back once it is done.
use native.Mathlib.Nat.{mul-add}
use toutates.Base.{
  ℕ, suc, inl, inr, ◌+◌, ◌-◌, ◌*◌, ◌%◌, ◌≤◌, ◌<◌, ◌^◌, ◌==◌, get_elem?, get_elem?-bound,
  get_elem?-set_self, some, ◌≡◌, refl, sym, ap, ◌∙◌, true, arith, usize_mod, wrapping_sub,
}
use toutates.SuperTensor.Index.{half_range, as_batch_id, as_absolute_batch_higher_bound}
use toutates.SuperTensor.Index.Position.{IsRing}
use toutates.SuperTensor.Buffer.{DataTracker}
use toutates.SuperTensor.Executor.{reset_batch, move_tail}
use toutates.SuperTensor.Executor.Run.{reset_batch-ok}
use toutates.SuperTensor.Executor.Tail.{look, stop, go}
use toutates.SuperTensor.Ring.Ledger.{Ledger, finish, IsSound, Move-IsSound, Moves-IsSound}
use toutates.SuperTensor.Ring.Steps.{System}
use toutates.SuperTensor.Ring.Rep.{counter, Rep, as_batch_id-counter}
use toutates.SuperTensor.Ring.GiveBack.{reset-Rep, freed-Rep, move_tail-Rep, tracked}

module _ (capacity batch_size : ℕ) (ring : IsRing capacity batch_size)
    (fits : capacity * batch_size ≤ 2 ^ 61) where
  counter_on :
      (p q tail : ℕ)
      → p ≤ q
      → tail ≡ counter capacity batch_size ring p
      → counter capacity batch_size ring q ≡ (tail + batch_size * (q - p)) % usize_mod
  counter_on p q tail le e =
      let on : p + (q - p) ≡ q = omega arith in
      let split : batch_size * q ≡ batch_size * p + batch_size * (q - p) =
        ap (λ n. batch_size * n) (sym on) ∙ mul-add batch_size p (q - p) in
      omega (arith, split, e)

  -- A loop whose first round finds the oldest batch done, and the head past it.
  tail_moves :
      (l : Ledger) (s : System) (t : DataTracker) (rounds : ℕ)
      → IsSound capacity batch_size l
      → Rep capacity batch_size ring l s
      → half_range
        ≤ wrapping_sub (as_absolute_batch_higher_bound s.buffer.masks s.buffer.tail) s.buffer.head
      → get_elem? s.buffer.trackers (as_batch_id s.buffer.masks s.buffer.tail) ≡ some t
      → (t.dirty == 2) ≡ true
      → (k : ℕ) × (0 < k)
        × (k ≤ capacity)
        × ((move_tail (suc rounds) s.buffer).tail ≡ (s.buffer.tail + batch_size * k) % usize_mod)
  tail_moves l s t rounds sound rep past found done = elim (look s.buffer) [
    | stop stays (inl close) ↦ absurd (omega arith)
    | stop stays (inr running) ↦ absurd (ground (arith, running t found, done))
    | go t' behind found' done' step ↦
        (let (move, rep₁) =
            freed-Rep capacity batch_size ring fits l s t' sound rep behind found' done' in
          let sound₁ = Move-IsSound capacity batch_size _ _ move sound in
          let (l', moves, later, same, rep') =
            move_tail-Rep capacity batch_size ring fits rounds _ _ sound₁ rep₁ in
          let sound' = Moves-IsSound capacity batch_size _ l' moves sound₁ in
          (
            l'.oldest - l.oldest,
            omega (arith, later),
            omega (arith, sound'.claimed, same, sound.in_ring),
            rw (step rounds) (
                rep'.tail_at
                ∙ counter_on l.oldest l'.oldest s.buffer.tail (omega (arith, later)) rep.tail_at),
          ))
  ]

  pub reset_moves_on :
      (l : Ledger) (s : System) (i rounds : ℕ)
      → IsSound capacity batch_size l
      → Rep capacity batch_size ring l s
      → get_elem? s.running i ≡ some s.buffer.tail
      → half_range
        ≤ wrapping_sub (as_absolute_batch_higher_bound s.buffer.masks s.buffer.tail) s.buffer.head
      → (k : ℕ) × (0 < k)
        × (k ≤ capacity)
        × ((move_tail
              (suc rounds)
              (reset_batch (as_batch_id s.buffer.masks s.buffer.tail) s.buffer).0).tail
            ≡ (s.buffer.tail + batch_size * k) % usize_mod)
  reset_moves_on l s i rounds sound rep held past =
      let id = as_batch_id s.buffer.masks s.buffer.tail in
      let place : id ≡ l.oldest % capacity =
        rw (rep.ring_masks, rep.tail_at) (as_batch_id-counter capacity batch_size ring l.oldest) in
      let (t, found₀) = tracked capacity batch_size ring fits l s sound rep l.oldest in
      let found : get_elem? s.buffer.trackers id ≡ some t = rw place found₀ in
      let (p, at_i, rep₁) =
        reset-Rep capacity batch_size ring fits l s sound rep i s.buffer.tail held in
      let ran = reset_batch-ok id s.buffer t found in
      let rep₂ = rw ran at rep₁ in
      rw ran (
        tail_moves _ _ _ rounds (Move-IsSound capacity batch_size _ _ (finish l i p at_i) sound)
          rep₂ past
          (get_elem?-set_self s.buffer.trackers id _ (get_elem?-bound s.buffer.trackers id t found))
          refl)
