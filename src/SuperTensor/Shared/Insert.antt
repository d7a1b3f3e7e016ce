-- ===== src/SuperTensor/Shared/Insert.antt =====
-- What a successful `insert_tensors_at` of src/tensor/supertensor.rs leaves in the buffer.
use toutates.Base.{
  ℕ, ◌+◌, ◌-◌, ◌≡◌, refl, sym, ap, ◌∙◌, arith, ◌==◌, ◌||◌, List, set, get_elem?, some, ok,
  Option-cases, inl, inr, if◌then◌else◌,
}
use mathlib.Core.Path.{subst}
use toutates.Tensor.Bytes.{Dims, TensorBytes}
use toutates.Tensor.Copy.{BatchableTensor}
use toutates.SuperTensor.Index.{as_batch_id, as_batch_slot_id}
use toutates.SuperTensor.Buffer.{
  DataTracker, SuperTensorBuffer, M, ◌>>=◌, ◌>>◌, pure, lift, state_at, put_state, set_once,
}
use toutates.SuperTensor.Infer.{
  WriteReservation, copy_inputs, write_inputs, new_reservation, open_batch, notify_executor,
  insert_tensors_at, batch_delay,
}
use toutates.SuperTensor.Shared.Quiet.{
  cell_at, IsQuiet, IsQuiet-trans, Quiet, quiet_rules, Quiet-if, Quiet-pure, Quiet-update_tracker,
  >>=-ok,
}

pub Quiet-new_reservation : (id start end : ℕ) → Quiet (new_reservation id start end)
unfolding new_reservation
Quiet-new_reservation id start end = Quiet-update_tracker id _ _ (λ t. refl) (λ t. Quiet-pure _)

pub Quiet-notify_executor : (id : ℕ) → Quiet (notify_executor id)
unfolding notify_executor
Quiet-notify_executor id = search quiet_rules depth 12

-- What `open_batch` does once it has marked the tracker.
abbrev opened : ℕ → DataTracker → M (Unit {0})
opened now tracker = do
  state ← state_at tracker.state
  deadline ← lift (set_once state.deadline (now + batch_delay))
  put_state tracker.state (record state { deadline = deadline })
  queue_start ← lift (set_once state.queue_start now)
  put_state tracker.state (record state { deadline = deadline; queue_start = queue_start })

Quiet-opened : (now : ℕ) (t : DataTracker) → Quiet (opened now t)
Quiet-opened now t = search quiet_rules depth 12

pub Quiet-open_batch : (id now : ℕ) → Quiet (open_batch id now)
unfolding open_batch
Quiet-open_batch id now =
    Quiet-update_tracker id (λ t. record t { dirty = 1 }) (opened now) (λ t. refl)
      (λ t. Quiet-opened now t)

-- A new reservation is for the state of its tracker.
new_reservation-ok :
    (id start end : ℕ) (b c : SuperTensorBuffer) (r : WriteReservation)
    → new_reservation id start end b ≡ (c, ok r)
    → (cell_at b id ≡ some r.state) × (r.start ≡ start) × (r.end ≡ end)
unfolding new_reservation
new_reservation-ok id start end b c r e = ground arith

module _ (num_elements : Dims → ℕ) where
  write_inputs-ok :
      (id slot lo hi : ℕ) (inputs : List TensorBytes) (b c : SuperTensorBuffer)
      → write_inputs num_elements id slot lo hi inputs b ≡ (c, ok tt)
      → (ts us : List BatchableTensor) × (get_elem? b.input_tensors id ≡ some ts)
        × (copy_inputs num_elements slot lo hi inputs ts ≡ (us, ok tt))
        × (c ≡ record b { input_tensors = set b.input_tensors id us })
  unfolding write_inputs
  write_inputs-ok id slot lo hi inputs b c e = elim (Option-cases (get_elem? b.input_tensors id)) [
    | inl missing ↦ absurd (ground (arith, missing))
    | inr (ts, found) ↦ (
      ts,
      (copy_inputs num_elements slot lo hi inputs ts).0,
      found,
      ground (arith, found),
      ground (arith, found),
    )
  ]

  -- The rows are copied into the slots of the counter, the other batches keep their inputs, every
  -- tracker keeps its state, and the reservation is for those slots and the state of their batch.
  pub insert_tensors_at-ok :
      (idx lo hi : ℕ) (inputs : List TensorBytes) (now : ℕ) (b c : SuperTensorBuffer)
      (r : WriteReservation)
      → insert_tensors_at num_elements idx lo hi inputs now b ≡ (c, ok r)
      → (ts us : List BatchableTensor) × (get_elem? b.input_tensors (as_batch_id b.masks idx)
          ≡ some ts)
        × (copy_inputs num_elements (as_batch_slot_id b.masks idx) lo hi inputs ts ≡ (us, ok tt))
        × (c.input_tensors ≡ set b.input_tensors (as_batch_id b.masks idx) us)
        × ((id : ℕ) → cell_at c id ≡ cell_at b id)
        × (cell_at b (as_batch_id b.masks idx) ≡ some r.state)
        × (r.start ≡ as_batch_slot_id b.masks idx)
        × (r.end ≡ as_batch_slot_id b.masks idx + (hi - lo))
  unfolding insert_tensors_at
  insert_tensors_at-ok idx lo hi inputs now b c r e =
      let (b1, _, wrote, later1) =
        >>=-ok (write_inputs num_elements id slot lo hi inputs) (λ _. after_write) b c r e in
      let (b2, _, opened, later2) =
        >>=-ok (if slot == 0 then open_batch id now else pure tt) (λ _. after_open) b1 c r later1 in
      let (b3, r', reserved, later3) =
        >>=-ok (new_reservation id slot end) after_reserve b2 c r later2 in
      let (b4, _, notified, last) = >>=-ok notify (λ _. pure r') b3 c r later3 in
      let (ts, us, found, copied, made) = write_inputs-ok id slot lo hi inputs b b1 wrote in
      let q2 : IsQuiet b1 b2 =
        subst (λ d. IsQuiet b1 d) (ap (λ p. p.0) opened)
          ((Quiet-if (slot == 0) (Quiet-open_batch id now) (Quiet-pure tt)).quiet b1) in
      let q3 : IsQuiet b2 b3 =
        subst (λ d. IsQuiet b2 d) (ap (λ p. p.0) reserved)
          ((Quiet-new_reservation id slot end).quiet b2) in
      let q4 : IsQuiet b3 b4 =
        subst (λ d. IsQuiet b3 d) (ap (λ p. p.0) notified)
          ((Quiet-if ((slot == 0) || (end == b.batch_size)) (Quiet-notify_executor id)
              (Quiet-pure tt)).quiet
            b3) in
      let q : IsQuiet b1 c =
        IsQuiet-trans q2 (IsQuiet-trans q3 (subst (λ d. IsQuiet b3 d) (ap (λ p. p.0) last) q4)) in
      let same_r : r' ≡ r = ground (arith, last) in
      let (held, at_start, at_end) = new_reservation-ok id slot end b2 b3 r' reserved in
      let cells_b1 : (j : ℕ) → cell_at b1 j ≡ cell_at b j = λ j. ap (λ d. cell_at d j) made in
      (
        ts,
        us,
        found,
        copied,
        q.same_inputs ∙ ap (λ d. d.input_tensors) made,
        λ j. q.same_cells j ∙ cells_b1 j,
        sym (q2.same_cells id ∙ cells_b1 id) ∙ held ∙ ap (λ x. some x.state) same_r,
        sym (ap (λ x. x.start) same_r) ∙ at_start,
        sym (ap (λ x. x.end) same_r) ∙ at_end,
      )
    where
      id : ℕ
      id = as_batch_id b.masks idx

      slot : ℕ
      slot = as_batch_slot_id b.masks idx

      end : ℕ
      end = slot + (hi - lo)

      notify : M (Unit {0})
      notify = if (slot == 0) || (end == b.batch_size) then notify_executor id else pure tt

      after_reserve : WriteReservation → M WriteReservation
      after_reserve r = notify >>= (λ _. pure r)

      after_open : M WriteReservation
      after_open = new_reservation id slot end >>= after_reserve

      after_write : M WriteReservation
      after_write = (if slot == 0 then open_batch id now else pure tt) >>= (λ _. after_open)
