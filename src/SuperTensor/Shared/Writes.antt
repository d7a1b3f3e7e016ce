-- ===== src/SuperTensor/Shared/Writes.antt =====
-- A sequence of `insert_tensors_at` of src/tensor/supertensor.rs, of whatever requests, on slots of
-- their own: each request's rows stay where they were put.
use toutates.Base.{
  ℕ, ◌+◌, ◌-◌, ◌≤◌, ◌<◌, ◌≡◌, ◌≢◌, ◌⊎◌, inl, inr, sym, List, [], ◌∷◌, get_elem?, some, ok,
  usize_mod,
}
use toutates.Tensor.Bytes.{Bytes, Dims, TensorBytes}
use toutates.Tensor.Copy.{BatchableTensor}
use toutates.SuperTensor.Index.{Masks, as_batch_id, as_batch_slot_id}
use toutates.SuperTensor.Buffer.{SuperTensorBuffer, M, ◌>>=◌, pure}
use toutates.SuperTensor.Infer.{WriteReservation, insert_tensors_at}
use toutates.SuperTensor.Shared.Quiet.{cell_at}
use toutates.SuperTensor.Shared.Inputs.{input_rows, input_slots, IsRequest, SameKinds}

-- A call of `insert_tensors_at`: the rows `[start, end)` of the inputs go to the counter `idx`.
pub record Insert : Type 0 where
  pub idx : ℕ
  pub start : ℕ
  pub end : ℕ
  pub inputs : List TensorBytes
  pub now : ℕ

module _ (m : Masks) (w : Insert) where
  abbrev pub batch : ℕ
  batch = as_batch_id m w.idx

  abbrev pub first_slot : ℕ
  first_slot = as_batch_slot_id m w.idx

  abbrev pub end_slot : ℕ
  end_slot = first_slot + (w.end - w.start)

-- Two calls write to different batches, or one to slots before the other's.
abbrev pub Apart : Masks → Insert → Insert → Type 0
Apart m w v =
    (batch m w ≢ batch m v) ⊎ ((end_slot m w ≤ first_slot m v) ⊎ (end_slot m v ≤ first_slot m w))

pub Apart-sym : (m : Masks) (w v : Insert) → Apart m w v → Apart m v w
Apart-sym m w v (inl differ) = inl (λ e. differ (sym e))
Apart-sym m w v (inr (inl before)) = inr (inr before)
Apart-sym m w v (inr (inr later)) = inr (inl later)

abbrev pub ApartFrom : Masks → Insert → List Insert → Type 0
ApartFrom m w [] = Unit {0}
ApartFrom m w (v ∷ vs) = Apart m w v × ApartFrom m w vs

abbrev pub AllApart : Masks → List Insert → Type 0
AllApart m [] = Unit {0}
AllApart m (w ∷ ws) = ApartFrom m w ws × AllApart m ws

module _ (num_elements : Dims → ℕ) where
  unfoldable pub run_inserts : List Insert → M (List WriteReservation)
  run_inserts [] = pure []
  run_inserts (w ∷ ws) = do
    r ← insert_tensors_at num_elements w.idx w.start w.end w.inputs w.now
    rs ← run_inserts ws
    pure (r ∷ rs)

  module _ (m : Masks) where
    -- The inputs are a request for the buffers of the batch.
    pub record IsSound (b : SuperTensorBuffer) (w : Insert) : Type 0 where
      pub rows : ℕ
      pub some_rows : 0 < rows
      pub small : rows < usize_mod
      pub tensors : List BatchableTensor
      pub found : get_elem? b.input_tensors (batch m w) ≡ some tensors
      pub request : IsRequest num_elements rows w.inputs tensors

    abbrev pub AllSound : SuperTensorBuffer → List Insert → Type 0
    AllSound b [] = Unit {0}
    AllSound b (w ∷ ws) = IsSound b w × AllSound b ws

    -- The slots of the call hold its rows, and `r` is the reservation of those slots.
    pub record Holds (b : SuperTensorBuffer) (w : Insert) (r : WriteReservation) : Type 0 where
      pub tensors : List BatchableTensor
      pub rows : List Bytes
      pub found : get_elem? b.input_tensors (batch m w) ≡ some tensors
      pub sent : input_rows w.inputs w.start w.end ≡ ok rows
      pub held : input_slots num_elements tensors (first_slot m w) (end_slot m w) ≡ ok rows
      pub cell : cell_at b (batch m w) ≡ some r.state
      pub at_start : r.start ≡ first_slot m w
      pub at_end : r.end ≡ end_slot m w

    abbrev pub AllHold : SuperTensorBuffer → List Insert → List WriteReservation → Type 0
    AllHold b [] [] = Unit {0}
    AllHold b (w ∷ ws) (r ∷ rs) = Holds b w r × AllHold b ws rs
    AllHold b _ _ = ⊥

    -- What the call `v` makes of the buffers of any batch.
    pub record Changed (b c : SuperTensorBuffer) (v : Insert) : Type 0 where
      pub same_masks : c.masks ≡ b.masks
      pub same_cells : (id : ℕ) → cell_at c id ≡ cell_at b id
      pub buffers :
          (id : ℕ) (ts : List BatchableTensor)
          → get_elem? b.input_tensors id ≡ some ts
          → (us : List BatchableTensor) × (get_elem? c.input_tensors id ≡ some us)
            × SameKinds num_elements ts us
            × ((lo hi : ℕ)
                → (id ≢ batch m v) ⊎ ((hi ≤ first_slot m v) ⊎ (end_slot m v ≤ lo))
                → input_slots num_elements us lo hi ≡ input_slots num_elements ts lo hi)
