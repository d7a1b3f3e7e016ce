-- ===== src/SuperTensor/Shared/Ready.antt =====
-- A buffer on which a call of `insert_tensors_at` of src/tensor/supertensor.rs succeeds.
use mathlib.Core.Path.{subst}
use toutates.Base.{
  ℕ, ◌≤◌, ◌<◌, ◌==◌, ◌||◌, if◌then◌else◌, ◌≡◌, inl, inr, refl, sym, ap, ◌∙◌, arith, List, set,
  get_elem?, some, ok, true, false, usize_mod, Bool, Bool-cases, ==_iff, Option-cases,
}
use toutates.Tensor.Bytes.{Dims, TensorBytes}
use toutates.Tensor.Copy.{BatchableTensor}
use toutates.SuperTensor.Index.{Masks}
use toutates.SuperTensor.Buffer.{BatchState, DataTracker, SuperTensorBuffer, M, ◌>>=◌, pure}
use toutates.SuperTensor.Infer.{
  WriteReservation, copy_inputs, write_inputs, new_reservation, open_batch, notify_executor,
  insert_tensors_at,
}
use toutates.SuperTensor.Shared.Quiet.{cell_at, Quiet, Quiet-if, Quiet-pure, >>=-run}
use toutates.SuperTensor.Shared.Insert.{Quiet-new_reservation, Quiet-open_batch}
use toutates.SuperTensor.Shared.Inputs.{IsRequest}
use toutates.SuperTensor.Shared.Writes.{Insert, batch, first_slot, end_slot}
use toutates.SuperTensor.Shared.Success.{
  Unopened, Timed, Timed-same, Timed-trans, open_batch-run, notify_executor-run,
  new_reservation-run, HasSlots, copy_inputs-run,
}

-- The tracker of a batch whose cell is known.
pub tracker_of :
    (b : SuperTensorBuffer) (id cell : ℕ)
    → cell_at b id ≡ some cell
    → (t : DataTracker) × (get_elem? b.trackers id ≡ some t) × (t.state ≡ cell)
tracker_of b id cell e = elim (Option-cases (get_elem? b.trackers id)) [
  | inl missing ↦ absurd (ground (arith, missing, e))
  | inr (t, there) ↦ (t, there, ground (arith, there, e))
]

same_cell_after :
    {A : Type 0} (id cell : ℕ) (m : M A) (b c : SuperTensorBuffer) (a : A)
    → Quiet m
    → m b ≡ (c, ok a)
    → cell_at b id ≡ some cell
    → cell_at c id ≡ some cell
same_cell_after id cell m b c a q e held =
    sym (ap (λ p. cell_at p.0 id) e) ∙ (q.quiet b).same_cells id ∙ held

Timed-weaken :
    {b c : SuperTensorBuffer} {cell : ℕ} (opens : Bool)
    → Timed b c cell false
    → Timed b c cell opens
Timed-weaken opens p = record {
  same_users = p.same_users;
  timed = λ j s there.
      let (s', there', same, keep) = p.timed j s there in
      (s', there', same, λ apart u. keep (inr refl) u);
}

module _ (id cell : ℕ) where
  -- What a call on the batch `id` needs, and leaves.
  record Held (b : SuperTensorBuffer) : Type 0 where
    same_cell : cell_at b id ≡ some cell
    state : BatchState
    there : get_elem? b.states cell ≡ some state

  -- Where the slot is the first, the clock of the batch is started.
  open_step :
      (slot now : ℕ) (b : SuperTensorBuffer) (h : Held b)
      → (slot ≡ 0 → Unopened h.state)
      → (c : SuperTensorBuffer) × ((if slot == 0 then open_batch id now else pure tt) b
          ≡ (c, ok tt))
        × Timed b c cell (slot == 0)
  open_step slot now b h closed = elim (Bool-cases (slot == 0)) [
    | inr later ↦ (b, rw later refl, Timed-same b b cell (slot == 0) refl refl)
    | inl first ↦
        (let (t, tracked, same) = tracker_of b id cell h.same_cell in
          let (c, ran, times) =
            open_batch-run id b t h.state tracked (ap (λ k. get_elem? b.states k) same ∙ h.there)
              now (closed ((==_iff slot 0).0 first)) in
          (c, rw first ran, rw first (subst (λ k. Timed b c k true) same times)))
  ]

  notify_step :
      (notifies opens : Bool) (b : SuperTensorBuffer)
      → Held b
      → (c : SuperTensorBuffer) × ((if notifies then notify_executor id else pure tt) b
          ≡ (c, ok tt))
        × Timed b c cell opens
  notify_step false opens b h = (b, refl, Timed-same b b cell opens refl refl)
  notify_step true opens b h =
      let (t, tracked, same) = tracker_of b id cell h.same_cell in
      let (c, ran, times) =
        notify_executor-run id b t h.state tracked
          (ap (λ k. get_elem? b.states k) same ∙ h.there) in
      (c, ran, Timed-weaken opens (subst (λ k. Timed b c k false) same times))

  -- The call after its copies.
  finish : ℕ → ℕ → ℕ → Bool → M WriteReservation
  finish slot end now notifies = (if slot == 0 then open_batch id now else pure tt) >>= (λ _.
      new_reservation id slot end
      >>= (λ r. (if notifies then notify_executor id else pure tt) >>= (λ _. pure r)))

  finish-run :
      (slot end now : ℕ) (notifies : Bool) (b : SuperTensorBuffer) (h : Held b)
      → (slot ≡ 0 → Unopened h.state)
      → (c : SuperTensorBuffer) × (r : WriteReservation) × (finish slot end now notifies b
          ≡ (c, ok r))
        × Timed b c cell (slot == 0)
  unfolding finish
  finish-run slot end now notifies b h closed =
      let opening : M (Unit {0}) = if slot == 0 then open_batch id now else pure tt in
      let notifying : M (Unit {0}) = if notifies then notify_executor id else pure tt in
      let (b1, opened, t1) = open_step slot now b h closed in
      let cell1 =
        same_cell_after id cell opening b b1 tt
          (Quiet-if (slot == 0) (Quiet-open_batch id now) (Quiet-pure tt)) opened h.same_cell in
      let (t, tracked, _) = tracker_of b1 id cell cell1 in
      let (b2, r, reserved, same_users, same_states) =
        new_reservation-run id slot end b1 t tracked in
      let t2 = Timed-trans t1 (Timed-same b1 b2 cell (slot == 0) same_users same_states) in
      let cell2 =
        same_cell_after id cell (new_reservation id slot end) b1 b2 r
          (Quiet-new_reservation id slot end) reserved cell1 in
      let (s2, there2, _, _) = t2.timed cell h.state h.there in
      let (c, notified, t3) =
        notify_step notifies (slot == 0) b2
          (record { same_cell = cell2; state = s2; there = there2 }) in
      (
        c,
        r,
        >>=-run opening (λ _. new_reservation id slot end >>= (λ r. notifying >>= (λ _. pure r))) b
              b1 tt opened
            ∙ >>=-run (new_reservation id slot end) (λ r. notifying >>= (λ _. pure r)) b1 b2 r
                reserved
            ∙ >>=-run notifying (λ _. pure r) b2 c tt notified,
        Timed-trans t2 t3,
      )

module _ (num_elements : Dims → ℕ) where
  -- The inputs are a request for the buffers of the batch, which have the slots of the call; the
  -- batch has its tracker and state, whose clock is not started before the call for its first slot.
  pub record IsReady (m : Masks) (b : SuperTensorBuffer) (w : Insert) : Type 0 where
    pub rows : ℕ
    pub small : rows < usize_mod
    pub some_rows : w.start < w.end
    pub within : w.end ≤ rows
    pub tensors : List BatchableTensor
    pub found : get_elem? b.input_tensors (batch m w) ≡ some tensors
    pub request : IsRequest num_elements rows w.inputs tensors
    pub room : HasSlots num_elements (end_slot m w) tensors
    pub cell : ℕ
    pub same_cell : cell_at b (batch m w) ≡ some cell
    pub state : BatchState
    pub there : get_elem? b.states cell ≡ some state
    pub closed : first_slot m w ≡ 0 → Unopened state

  write_inputs-run :
      (id slot lo hi : ℕ) (inputs : List TensorBytes) (b : SuperTensorBuffer)
      (ts us : List BatchableTensor)
      → get_elem? b.input_tensors id ≡ some ts
      → copy_inputs num_elements slot lo hi inputs ts ≡ (us, ok tt)
      → write_inputs num_elements id slot lo hi inputs b
        ≡ (record b { input_tensors = set b.input_tensors id us }, ok tt)
  unfolding write_inputs
  write_inputs-run id slot lo hi inputs b ts us found copied = ground (arith, found, copied)

  pub insert_tensors_at-run :
      (b : SuperTensorBuffer) (w : Insert) (h : IsReady b.masks b w)
      → (c : SuperTensorBuffer) × (r : WriteReservation) × (insert_tensors_at num_elements w.idx
            w.start w.end w.inputs w.now b
          ≡ (c, ok r))
        × Timed b c h.cell (first_slot b.masks w == 0)
  unfolding insert_tensors_at finish
  insert_tensors_at-run b w h =
      let id = batch b.masks w in
      let slot = first_slot b.masks w in
      let notifies = (slot == 0) || (end_slot b.masks w == b.batch_size) in
      let (us, copied) =
        copy_inputs-run num_elements h.rows slot w.start w.end w.inputs h.tensors h.small
          h.some_rows h.within h.request h.room in
      let b1 : SuperTensorBuffer = record b { input_tensors = set b.input_tensors id us } in
      let wrote = write_inputs-run id slot w.start w.end w.inputs b h.tensors us h.found copied in
      let (c, r, rest, times) =
        finish-run id h.cell slot (end_slot b.masks w) w.now notifies b1
          (record { same_cell = h.same_cell; state = h.state; there = h.there }) h.closed in
      (
        c,
        r,
        >>=-run (write_inputs num_elements id slot w.start w.end w.inputs)
              (λ _. finish id h.cell slot (end_slot b.masks w) w.now notifies) b b1 tt wrote
            ∙ rest,
        record { same_users = times.same_users; timed = times.timed },
      )
