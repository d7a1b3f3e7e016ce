-- ===== src/SuperTensor/Shared/Success.antt =====
-- When `insert_tensors_at` of src/tensor/supertensor.rs succeeds.
use native.Mathlib.Nat.{add-mul, mul_assoc}
use mathlib.Core.Path.{subst}
use toutates.Base.{
  ℕ, ◌+◌, ◌-◌, ◌*◌, ◌≤◌, ◌<◌, ◌≡◌, ◌≢◌, ◌⊎◌, inl, inr, refl, sym, ap, ◌∙◌, arith, List, [], ◌∷◌,
  length, set, get_elem?, Option, none, some, ok, true, false, usize_mod, Bool, ℕ_discrete,
  get_elem?-set_self, get_elem?-set_ne, get_elem?-bound, set-set,
}
use toutates.Tensor.Element.{write_size}
use toutates.Tensor.Bytes.{Bytes, Dims, TensorBytes, slice_dim0}
use toutates.Tensor.Copy.{BatchableTensor, copy_at_from_bytes}
use toutates.Tensor.Copy.Laws.{with_bytes}
use toutates.Tensor.Copy.Apart.{overwrite}
use toutates.Tensor.Copy.Isolated.{element_size, per_slot}
use toutates.SuperTensor.Buffer.{BatchState, DataTracker, SuperTensorBuffer}
use toutates.SuperTensor.Infer.{
  WriteReservation, batch_delay, copy_inputs, new_reservation, open_batch, notify_executor,
}
use toutates.SuperTensor.Shared.Inputs.{IsRequest, SameKinds}
use toutates.SuperTensor.Shared.Overlong.{slice_dim0-run, copy_at_from_bytes-run}

-- The clock of a batch has not been started.
abbrev pub Unopened : BatchState → Type 0
Unopened s = (s.deadline ≡ none) × (s.queue_start ≡ none)

-- Nothing has run in a state that had not in the other.
abbrev pub SameRun : BatchState → BatchState → Type 0
SameRun s s' = (s'.exec_start ≡ s.exec_start) × (s'.exec_end ≡ s.exec_end) × (s'.output ≡ s.output)

-- What a call on the batch of `cell` makes of the states: they stay there, nothing is run, and clocks
-- are only started in that cell, and only where `opens`.
pub record Timed (b c : SuperTensorBuffer) (cell : ℕ) (opens : Bool) : Type 0 where
  pub same_users : c.executors_in_use ≡ b.executors_in_use
  pub timed :
      (j : ℕ) (s : BatchState)
      → get_elem? b.states j ≡ some s
      → (s' : BatchState) × (get_elem? c.states j ≡ some s')
        × SameRun s s'
        × ((j ≢ cell) ⊎ (opens ≡ false) → Unopened s → Unopened s')

pub Timed-same :
    (b c : SuperTensorBuffer) (cell : ℕ) (opens : Bool)
    → c.executors_in_use ≡ b.executors_in_use
    → c.states ≡ b.states
    → Timed b c cell opens
Timed-same b c cell opens users e = record {
  same_users = users;
  timed = λ j s there. (s, ap (λ l. get_elem? l j) e ∙ there, (refl, refl, refl), λ apart u. u);
}

pub Timed-trans :
    {b c d : SuperTensorBuffer} {cell : ℕ} {opens : Bool}
    → Timed b c cell opens
    → Timed c d cell opens
    → Timed b d cell opens
Timed-trans p q = record {
  same_users = q.same_users ∙ p.same_users;
  timed = λ j s there.
      let (s', there', (e1, e2, e3), keep) = p.timed j s there in
      let (s'', there'', (f1, f2, f3), keep') = q.timed j s' there' in
      (s'', there'', (f1 ∙ e1, f2 ∙ e2, f3 ∙ e3), λ apart u. keep' apart (keep apart u));
}

-- A state is put back, with the same clock or where the call opens.
Timed-set :
    (b c : SuperTensorBuffer) (cell : ℕ) (opens : Bool) (s new : BatchState)
    → get_elem? b.states cell ≡ some s
    → (opens ≡ false → Unopened s → Unopened new)
    → SameRun s new
    → c.executors_in_use ≡ b.executors_in_use
    → c.states ≡ set b.states cell new
    → Timed b c cell opens
Timed-set b c cell opens s new found keep same_run users made = record {
  same_users = users;
  timed = λ j x there. elim (ℕ_discrete cell j) [
    | yes here ↦
        (let same : x ≡ s = same_state (ap (λ k. get_elem? b.states k) here ∙ there) found in
          (
            new,
            ap (λ k. get_elem? c.states k) (sym here)
                ∙ ap (λ l. get_elem? l cell) made
                ∙ get_elem?-set_self b.states cell new (get_elem?-bound b.states cell s found),
            subst (λ y. SameRun y new) (sym same) same_run,
            λ apart u. elim apart [
              | inl other ↦ absurd (other (sym here))
              | inr closed ↦ keep closed (subst (λ y. Unopened y) same u)
            ],
          ))
    | no elsewhere ↦ (
      x,
      ap (λ l. get_elem? l j) made ∙ get_elem?-set_ne b.states cell j new elsewhere ∙ there,
      (refl, refl, refl),
      λ apart u. u,
    )
  ];
}
  where
    same_state : {o : Option BatchState} {x y : BatchState} → o ≡ some x → o ≡ some y → x ≡ y
    same_state ex ey = ground arith

module _ (id : ℕ) (b : SuperTensorBuffer) (t : DataTracker) (s : BatchState)
    (tracked : get_elem? b.trackers id ≡ some t) (held : get_elem? b.states t.state ≡ some s) where
  pub open_batch-run :
      (now : ℕ)
      → Unopened s
      → (c : SuperTensorBuffer) × (open_batch id now b ≡ (c, ok tt)) × Timed b c t.state true
  unfolding open_batch
  open_batch-run now (d, q) = (
    record b {
      trackers = set b.trackers id (record t { dirty = 1 });
      states =
          set (set b.states t.state (record s { deadline = some (now + batch_delay) })) t.state
            (record s { deadline = some (now + batch_delay); queue_start = some now });
    },
    ground (arith, tracked, held, d, q),
    Timed-set b _ t.state true s
        (record s { deadline = some (now + batch_delay); queue_start = some now }) held
        (λ closed. absurd (ground (arith, closed))) (refl, refl, refl) refl
        (set-set b.states t.state _ _),
  )

  pub notify_executor-run :
      (c : SuperTensorBuffer) × (notify_executor id b ≡ (c, ok tt)) × Timed b c t.state false
  unfolding notify_executor
  notify_executor-run = (
    record b { states = set b.states t.state (record s { executor_permit = true }) },
    ground (arith, tracked, held),
    Timed-set b _ t.state false s (record s { executor_permit = true }) held (λ closed u. u)
        (refl, refl, refl) refl refl,
  )

pub new_reservation-run :
    (id start end : ℕ) (b : SuperTensorBuffer) (t : DataTracker)
    → get_elem? b.trackers id ≡ some t
    → (c : SuperTensorBuffer) × (r : WriteReservation) × (new_reservation id start end b
        ≡ (c, ok r))
      × (c.executors_in_use ≡ b.executors_in_use)
      × (c.states ≡ b.states)
unfolding new_reservation
new_reservation-run id start end b t tracked = (
  record b {
    trackers = set b.trackers id (record t { written_slots = t.written_slots + (end - start) });
  },
  record { state = t.state; start = start; end = end },
  ground (arith, tracked),
  refl,
  refl,
)

module _ (num_elements : Dims → ℕ) where
  -- Each buffer is of a writable type and has the slots below `end`.
  abbrev pub HasSlots : ℕ → List BatchableTensor → Type 0
  HasSlots end [] = Unit {0}
  HasSlots end (t ∷ ts) =
      ((size : ℕ) × (write_size t.data_type ≡ some size)
        × (end * per_slot num_elements t * size ≤ length t.inner_tensor.bytes))
      × HasSlots end ts

  pub HasSlots-kinds :
      (end : ℕ) (ts us : List BatchableTensor)
      → SameKinds num_elements ts us
      → HasSlots end ts
      → HasSlots end us
  HasSlots-kinds end [] [] kinds room = tt
  HasSlots-kinds end [] (u ∷ us) kinds room = elim kinds [ ]
  HasSlots-kinds end (t ∷ ts) [] kinds room = elim kinds [ ]
  HasSlots-kinds end (t ∷ ts) (u ∷ us) (k1, k2, k3, k4, kinds) ((size, supported, fits), room) = (
    (
      size,
      ap write_size k1 ∙ supported,
      omega (arith, ap (λ d. end * num_elements d * size) k2, fits, k4),
    ),
    HasSlots-kinds end ts us kinds room,
  )

  copy_inputs-cons :
      (slot start end : ℕ) (i : TensorBytes) (is : List TensorBytes) (t u : BatchableTensor)
      (ts us : List BatchableTensor) (src : Bytes)
      → slice_dim0 i.content i.shape start end ≡ ok src
      → copy_at_from_bytes num_elements t slot src ≡ ok u
      → copy_inputs num_elements slot start end is ts ≡ (us, ok tt)
      → copy_inputs num_elements slot start end (i ∷ is) (t ∷ ts) ≡ (u ∷ us, ok tt)
  unfolding copy_inputs
  copy_inputs-cons slot start end i is t u ts us src sliced copied rest =
      ground (arith, sliced, copied, rest)

  -- The copies of rows of a request into slots that are there succeed.
  pub copy_inputs-run :
      (n slot start end : ℕ) (is : List TensorBytes) (ts : List BatchableTensor)
      → n < usize_mod
      → start < end
      → end ≤ n
      → IsRequest num_elements n is ts
      → HasSlots (slot + (end - start)) ts
      → (us : List BatchableTensor) × (copy_inputs num_elements slot start end is ts ≡ (us, ok tt))
  unfolding copy_inputs
  copy_inputs-run n slot start end [] [] small some_rows within sound room = ([], refl)
  copy_inputs-run n slot start end [] (t ∷ ts) small some_rows within sound room = elim sound [ ]
  copy_inputs-run n slot start end (i ∷ is) [] small some_rows within sound room = elim sound [ ]
  copy_inputs-run n slot start end (i ∷ is) (t ∷ ts) small some_rows within
        ((ds, shaped), whole, kind, sound) ((size, supported, fits), room) =
      let size_is : element_size t.data_type ≡ size = rw (supported, element_size) refl in
      let w = per_slot num_elements t * size in
      let (src, sliced, len) =
        slice_dim0-run i.content i.shape ds n w start end small shaped
          (whole ∙ ap (λ x. n * (per_slot num_elements t * x)) size_is) some_rows within in
      let elements : length src ≡ (end - start) * per_slot num_elements t * size =
        len ∙ sym (mul_assoc (end - start) (per_slot num_elements t) size) in
      let copied =
        copy_at_from_bytes-run num_elements t slot ((end - start) * per_slot num_elements t) size
          src supported elements
          (omega (
            arith,
            elements,
            fits,
            ap (λ k. k * size) (add-mul slot (end - start) (per_slot num_elements t)),
            add-mul (slot * per_slot num_elements t) ((end - start) * per_slot num_elements t) size,
          )) in
      let (us, rest) = copy_inputs-run n slot start end is ts small some_rows within sound room in
      (
        with_bytes t (overwrite (slot * per_slot num_elements t * size) src t.inner_tensor.bytes)
            ∷ us,
        copy_inputs-cons slot start end i is t _ ts us src sliced copied rest,
      )
