-- ===== src/SuperTensor/Construct.antt =====
-- `SuperTensorBuffer::new_with_overrides` of src/tensor/supertensor.rs.
pub mod Fresh
use toutates.Base.{
  ℕ, zero, suc, ◌-◌, ◌*◌, same_text, if◌then◌else◌, List, [], ◌∷◌, replicate, Option, none, some,
  Result, ok, panic, assert, ◌>>=◌, ◌>>◌, String,
}
use toutates.Tensor.Element.{ElementType}
use toutates.Tensor.Errors.{InferError}
use toutates.Tensor.Bytes.{Bytes, Dims}
use toutates.Tensor.Copy.{BatchableTensor, new_batchable}
use toutates.SuperTensor.Index.{is_power_of_two, masks_of}
use toutates.SuperTensor.Buffer.{new_batch_state, DataTracker, SuperTensorBuffer}

-- `ValueType` and `Outlet` of the `ort` crate: the fields that are read.
pub data ValueType : Type 0 where
  tensor : ElementType → Dims → ValueType
  sequence map optional : ValueType

pub record Outlet : Type 0 where
  pub name : String
  pub dtype : ValueType

-- A `HashMap<String, Vec<i64>>`.
abbrev pub Overrides : Type 0
Overrides = List (String × Dims)

abbrev pub find_override : Overrides → String → Option Dims
find_override [] name = none
find_override ((key, dims) ∷ rest) name =
    if same_text key name then some dims else find_override rest name

-- The dimensions of the override in place of those of the shape, as far as both go.
unfoldable pub overlay : Dims → Dims → Dims
overlay [] os = []
overlay (s ∷ ss) [] = s ∷ ss
overlay (s ∷ ss) (o ∷ os) = o ∷ overlay ss os

-- The same, but for the first dimension.
unfoldable pub overlay_tail : Dims → Dims → Dims
unfolding overlay
overlay_tail (s ∷ ss) (o ∷ os) = s ∷ overlay ss os
overlay_tail shape _ = shape

unfoldable pub effective_shape : Overrides → String → Dims → Dims
unfolding overlay_tail
effective_shape overrides name shape = elim (find_override overrides name) [
  | some o ↦ overlay_tail shape o
  | none ↦ shape
]

-- The buffers of one batch; `zeroed` is the memory that the allocator hands out. Values that are no
-- tensors are `todo!()`.
unfoldable pub batch_inputs :
    (ElementType → Dims → Bytes)
    → ℕ
    → Overrides
    → List Outlet
    → Result InferError (List BatchableTensor)
unfolding effective_shape new_batchable
batch_inputs zeroed batch_size overrides [] = ok []
batch_inputs zeroed batch_size overrides (o ∷ os) = elim o.dtype [
  | tensor ty shape ↦ (do
    t ← new_batchable zeroed ty (effective_shape overrides o.name shape) batch_size
    ts ← batch_inputs zeroed batch_size overrides os
    ok (t ∷ ts))
  | _ ↦ panic
]

-- The trackers from number `i` on: each holds the cell of its number.
unfoldable pub new_trackers : ℕ → ℕ → List DataTracker
new_trackers i zero = []
new_trackers i (suc n) = record { dirty = 0; written_slots = 0; state = i } ∷ new_trackers (suc i) n

-- The product of the sizes is taken to fit a `usize`.
unfoldable pub new_with_overrides :
    (ElementType → Dims → Bytes)
    → ℕ
    → ℕ
    → List Outlet
    → Overrides
    → Result InferError SuperTensorBuffer
unfolding batch_inputs new_trackers
new_with_overrides zeroed capacity batch_size inputs overrides = do
  assert (is_power_of_two capacity)
  assert (is_power_of_two batch_size)
  tensors ← batch_inputs zeroed batch_size overrides inputs
  ok (record {
    input_tensors = replicate capacity tensors;
    trackers = new_trackers 0 capacity;
    states = replicate capacity new_batch_state;
    masks = masks_of capacity batch_size;
    batch_size = batch_size;
    capacity = capacity;
    head = 0;
    executor_head = 0;
    tail = 0;
    executors_in_use = 0;
  })
