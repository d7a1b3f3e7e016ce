-- ===== src/SuperTensor/Shared/Answer.antt =====
-- Requests that share a batch of src/tensor/supertensor.rs, from their writes to their replies.
use native.Mathlib.Nat.{mul-div_cancel_left}
use mathlib.Core.Path.{subst}
use toutates.Base.Int.{pos}
use toutates.Tensor.Element.{read_size}
use toutates.Tensor.Copy.Slots.{HoldsBytes, HoldsElements, HoldsElements-value_as_byte_slice}
use toutates.Base.{
  ◌*◌, ◌/◌, length, ℕ, ◌<◌, ◌≡◌, refl, sym, ap, ap₂, ◌∙◌, arith, List, [], ◌∷◌, map, get_elem?,
  none, some, ok, usize_mod,
}
use toutates.Tensor.Bytes.{Bytes, Dims}
use toutates.Tensor.Copy.{HostTensor, BatchableTensor}
use toutates.SuperTensor.Index.{Masks, as_batch_id}
use toutates.SuperTensor.Buffer.{Output, values, BatchState, DataTracker, SuperTensorBuffer}
use toutates.SuperTensor.Infer.{WriteReservation}
use toutates.SuperTensor.Executor.{run_batch}
use toutates.SuperTensor.Executor.Run.{run_batch_lem}
use toutates.SuperTensor.Response.{
  empty_outputs, append_slices, take_result, gather, collect, get_data, metadatas, Metadata,
}
use toutates.SuperTensor.Shared.Inputs.{input_rows, input_slots, SameKinds, SameKinds-refl}
use toutates.SuperTensor.Shared.Writes.{
  Insert, batch, first_slot, end_slot, AllApart, run_inserts, AllSound, Holds, AllHold,
}
use toutates.SuperTensor.Shared.Stay.{run_inserts-AllHold}

-- `out` are the rows of an output from number `lo` up to number `hi`: its first dimension counts the
-- rows, and all have as many bytes.
abbrev pub HoldsRows : HostTensor → ℕ → ℕ → Bytes → Type 0
HoldsRows v lo hi out =
    (n : ℕ) × (row : ℕ) × (ds : Dims) × (v.shape ≡ pos n ∷ ds)
    × (length v.bytes ≡ n * row)
    × HoldsBytes v.bytes (lo * row) (hi * row) out

abbrev pub AllHoldRows : List HostTensor → ℕ → ℕ → List Bytes → Type 0
AllHoldRows [] lo hi [] = Unit {0}
AllHoldRows (v ∷ vs) lo hi (out ∷ outs) = HoldsRows v lo hi out × AllHoldRows vs lo hi outs
AllHoldRows _ lo hi _ = ⊥

-- An output of some rows, each of one element.
abbrev pub HasScalarRows : HostTensor → Type 0
HasScalarRows v =
    (n : ℕ) × (size : ℕ) × (ds : Dims) × (0 < n)
    × (v.shape ≡ pos n ∷ ds)
    × (read_size v.data_type ≡ some size)
    × (length v.bytes ≡ n * size)

abbrev pub AllHaveScalarRows : List HostTensor → Type 0
AllHaveScalarRows [] = Unit {0}
AllHaveScalarRows (v ∷ vs) = HasScalarRows v × AllHaveScalarRows vs

pos-injective : (m n : ℕ) (ds es : Dims) → Path Dims (pos m ∷ ds) (pos n ∷ es) → m ≡ n
pos-injective m n ds es e = ground arith

HoldsRows-HoldsElements :
    (v : HostTensor) (lo hi : ℕ) (out : Bytes)
    → HoldsRows v lo hi out
    → HasScalarRows v
    → HoldsElements v lo hi out
HoldsRows-HoldsElements v lo hi out (n, row, ds, shaped, whole, held)
      (m, size, es, some_rows, shaped', known, whole') =
    let same_n : m ≡ n = pos-injective m n es ds (sym shaped' ∙ shaped) in
    let same : row ≡ size =
      sym (mul-div_cancel_left row some_rows)
      ∙ ap (λ t. t / m) (ap (λ k. k * row) same_n ∙ sym whole ∙ whole')
      ∙ mul-div_cancel_left size some_rows in
    (size, known, subst (λ k. HoldsBytes v.bytes (lo * k) (hi * k) out) same held)

append_slices-rows :
    (lo hi : ℕ) (vs : List HostTensor) (outs : List Bytes)
    → AllHoldRows vs lo hi outs
    → AllHaveScalarRows vs
    → append_slices lo hi vs (empty_outputs vs) ≡ ok outs
unfolding append_slices
append_slices-rows lo hi [] [] held scalars = refl
append_slices-rows lo hi [] (o ∷ os) held scalars = absurd held
append_slices-rows lo hi (v ∷ vs) [] held scalars = absurd held
append_slices-rows lo hi (v ∷ vs) (o ∷ os) (h, held) (s, scalars) =
    rw
      (
        HoldsElements-value_as_byte_slice v lo hi o (HoldsRows-HoldsElements v lo hi o h s),
        append_slices-rows lo hi vs os held scalars,
      )
      refl

module _ (num_elements : Dims → ℕ) where
  -- The model works row by row: on buffers of these types and shapes, whatever slots they hold, the
  -- rows of the outputs with the slots' numbers are `g` of what the slots hold.
  abbrev pub IsRowwise :
      List BatchableTensor → (List HostTensor → Output) → (List Bytes → List Bytes) → Type 0
  IsRowwise ts f g =
      (us : List BatchableTensor) (lo hi : ℕ) (rows : List Bytes)
      → SameKinds num_elements ts us
      → input_slots num_elements us lo hi ≡ ok rows
      → (vs : List HostTensor) × (f (map (λ i. i.inner_tensor) us) ≡ values vs)
        × AllHoldRows vs lo hi (g rows)

  -- On such buffers, each row of each output of the model is one element.
  abbrev pub HasScalarOutputs : List BatchableTensor → (List HostTensor → Output) → Type 0
  HasScalarOutputs ts f =
      (us : List BatchableTensor) (vs : List HostTensor)
      → SameKinds num_elements ts us
      → f (map (λ i. i.inner_tensor) us) ≡ values vs
      → AllHaveScalarRows vs

  -- Each call on the batch `id` gets `g` of its rows by its reservation.
  abbrev pub AllAnswered :
      Masks
      → ℕ
      → (List Bytes → List Bytes)
      → List BatchState
      → List Insert
      → List WriteReservation
      → Type 0
  AllAnswered m id g states [] [] = Unit {0}
  AllAnswered m id g states (w ∷ ws) (r ∷ rs) =
      (batch m w ≡ id
        → (rows : List Bytes) × (metas : List Metadata) × (input_rows w.inputs w.start w.end
            ≡ ok rows)
          × (get_data states (r ∷ []) [] none ≡ some (ok (g rows, (metas, r.state)))))
      × AllAnswered m id g states ws rs
  AllAnswered m id g states _ _ = ⊥

  -- A reply from one batch.
  get_data-one :
      (states : List BatchState) (r : WriteReservation) (state : BatchState) (vs : List HostTensor)
      (out : List Bytes)
      → get_elem? states r.state ≡ some state
      → state.output ≡ some (values vs)
      → append_slices r.start r.end vs (empty_outputs vs) ≡ ok out
      → get_data states (r ∷ []) [] none ≡ some (ok (out, (metadatas vs, r.state)))
  unfolding get_data collect take_result gather
  get_data-one states r state vs out there answered sliced = ground (arith, there, answered, sliced)

  module _ (m : Masks) (id : ℕ) (f : List HostTensor → Output) (g : List Bytes → List Bytes)
      (c : SuperTensorBuffer) (ts : List BatchableTensor) (t : DataTracker)
      (states : List BatchState) (state : BatchState)
      (inputs : get_elem? c.input_tensors id ≡ some ts) (rowwise : IsRowwise ts f g)
      (scalar : HasScalarOutputs ts f) (tracked : get_elem? c.trackers id ≡ some t)
      (there : get_elem? states t.state ≡ some state)
      (output : state.output ≡ some (f (map (λ i. i.inner_tensor) ts))) where
    Holds-answered :
        (w : Insert) (r : WriteReservation)
        → Holds num_elements m c w r
        → batch m w ≡ id
        → (rows : List Bytes) × (metas : List Metadata) × (input_rows w.inputs w.start w.end
            ≡ ok rows)
          × (get_data states (r ∷ []) [] none ≡ some (ok (g rows, (metas, r.state))))
    Holds-answered w r h here =
        let same_ts : h.tensors ≡ ts = ground (arith, h.found, inputs, here) in
        let cell : t.state ≡ r.state = ground (arith, h.cell, tracked, here) in
        let read : input_slots num_elements ts r.start r.end ≡ ok h.rows =
          ap₂ (λ lo hi. input_slots num_elements ts lo hi) h.at_start h.at_end
          ∙ ap (λ l. input_slots num_elements l (first_slot m w) (end_slot m w)) (sym same_ts)
          ∙ h.held in
        let (vs, ran, held) =
          rowwise ts r.start r.end h.rows (SameKinds-refl num_elements ts) read in
        let sliced =
          append_slices-rows r.start r.end vs (g h.rows) held
            (scalar ts vs (SameKinds-refl num_elements ts) ran) in
        (
          h.rows,
          metadatas vs,
          h.sent,
          get_data-one states r state vs (g h.rows)
              (ap (λ k. get_elem? states k) (sym cell) ∙ there) (output ∙ ap some ran) sliced,
        )

    AllHold-answered :
        (ws : List Insert) (rs : List WriteReservation)
        → AllHold num_elements m c ws rs
        → AllAnswered m id g states ws rs
    AllHold-answered [] [] h = tt
    AllHold-answered [] (r ∷ rs) h = elim h [ ]
    AllHold-answered (w ∷ ws) [] h = elim h [ ]
    AllHold-answered (w ∷ ws) (r ∷ rs) (h, hs) = (Holds-answered w r h, AllHold-answered ws rs hs)

  -- Calls of `insert_tensors_at`, of whatever requests and in whatever order, on slots of their own,
  -- whose inputs are requests for the buffers of their batches, all succeed; then a batch that
  -- nothing has run or answered yet is run, by a model that works row by row and whose outputs have one element a row. The run returns the
  -- number of items that its tracker had counted, and each call on that batch gets by its
  -- reservation the model's answer on its own rows.
  pub run_batch-answers :
      (m : Masks) (ws : List Insert) (b c : SuperTensorBuffer) (rs : List WriteReservation)
      (f : List HostTensor → Output) (g : List Bytes → List Bytes) (idx start_time end_time : ℕ)
      (ts : List BatchableTensor) (t : DataTracker) (s : BatchState)
      → b.masks ≡ m
      → AllApart m ws
      → AllSound num_elements m b ws
      → run_inserts num_elements ws b ≡ (c, ok rs)
      → get_elem? c.input_tensors (as_batch_id c.masks idx) ≡ some ts
      → IsRowwise ts f g
      → HasScalarOutputs ts f
      → get_elem? c.trackers (as_batch_id c.masks idx) ≡ some t
      → get_elem? c.states t.state ≡ some s
      → s.exec_start ≡ none
      → s.exec_end ≡ none
      → s.output ≡ none
      → c.executors_in_use < usize_mod
      → (d : SuperTensorBuffer) × (run_batch f idx start_time end_time c ≡ (d, ok t.written_slots))
        × AllAnswered m (as_batch_id c.masks idx) g d.states ws rs
  run_batch-answers m ws b c rs f g idx start_time end_time ts t s em apart sound wrote inputs
        rowwise scalar tracked held not_started not_ended no_output few =
      let (d, ran, there, _, _) =
        run_batch_lem f idx start_time end_time c t s ts tracked inputs held not_started not_ended
          no_output few in
      (
        d,
        ran,
        AllHold-answered m (as_batch_id c.masks idx) f g c ts t d.states _ inputs rowwise scalar
            tracked there refl ws rs
            (run_inserts-AllHold num_elements m ws b c rs em apart sound wrote),
      )
