-- ===== src/Tensor/Copy.antt =====
-- The copies of src/tensor/batched_tensor.rs between request bytes, batch buffers and replies.
-- A tensor's data is its bytes: `bytemuck::cast_slice` views the same memory as bytes. Offsets are
-- offsets into allocated buffers, so their products do not wrap.
pub mod Laws
pub mod Slots
pub mod Apart
pub mod Isolated
use toutates.Base.{
  ℕ, ◌+◌, ◌*◌, ◌/◌, leb, List, [], ◌∷◌, length, set, Option, none, some, Result, ok, err, panic,
  assert, ok_or, unwrap, ◌>>=◌, ◌>>◌, Bool, true, false, ◌&&◌,
}
use toutates.Base.Int.{ℤ, pos, negsuc, is_nonneg, eqb_ℤ}
use toutates.Tensor.Element.{ElementType, read_size, write_size, tensor_size, same_type}
use toutates.Tensor.Errors.{InferError, unsupported_data_type}
use toutates.Tensor.Bytes.{Bytes, Dims, slice_range, copy_from_slice}

-- `DynTensor` and `Value` of the `ort` crate, on the host.
pub record HostTensor : Type 0 where
  pub data_type : ElementType
  pub shape : Dims
  pub bytes : Bytes

-- `BatchableTensor`: the buffer of one input for the slots of one batch.
pub record BatchableTensor : Type 0 where
  pub inner_tensor : HostTensor
  pub data_type : ElementType
  pub single_tensor_shape : Dims

-- `copy_tensor_slice_from_bytes!`, for elements of `size` bytes and slots of `elements` elements.
unfoldable pub copy_tensor_slice_from_bytes : ℕ → ℕ → Bytes → ℕ → Bytes → Result InferError Bytes
unfolding copy_from_slice
copy_tensor_slice_from_bytes size elements bytes slot src =
    let offset = slot * elements in
    let elem_count = length src / size in
    copy_from_slice bytes (offset * size) (elem_count * size) src

-- `as_byte_slice!`: a range of elements, as bytes.
unfoldable pub as_byte_slice : ℕ → Bytes → ℕ → ℕ → Result InferError Bytes
unfolding slice_range
as_byte_slice size bytes start end = slice_range bytes (start * size) (end * size)

unfoldable pub value_as_byte_slice : HostTensor → ℕ → ℕ → Result InferError Bytes
unfolding as_byte_slice read_size
value_as_byte_slice value start end = do
  size ← ok_or (read_size value.data_type) unsupported_data_type
  as_byte_slice size value.bytes start end

-- `Shape::num_elements` of the `ort` crate is the parameter `num_elements`.
module _ (num_elements : Dims → ℕ) where
  -- `copy_at_from_bytes`: the tensor after the call, which keeps its type and shape.
  unfoldable pub copy_at_from_bytes :
      BatchableTensor → ℕ → Bytes → Result InferError BatchableTensor
  unfolding copy_tensor_slice_from_bytes write_size
  copy_at_from_bytes t slot src = do
    size ← ok_or (write_size t.data_type) unsupported_data_type
    bytes ←
        copy_tensor_slice_from_bytes size (num_elements t.single_tensor_shape) t.inner_tensor.bytes
          slot src
    ok (record t { inner_tensor = record (t.inner_tensor) { bytes = bytes } })

  -- `copy_tensor_slice!`: one whole tensor into a slot.
  unfoldable pub copy_at_from_dyntensor :
      BatchableTensor → ℕ → HostTensor → Result InferError BatchableTensor
  unfolding copy_from_slice tensor_size same_type
  copy_at_from_dyntensor t slot tensor = do
    size ← unwrap (tensor_size t.data_type)
    assert (same_type tensor.data_type t.data_type)
    let elements = num_elements tensor.shape
    bytes ←
        copy_from_slice t.inner_tensor.bytes (slot * elements * size) (elements * size) tensor.bytes
    ok (record t { inner_tensor = record (t.inner_tensor) { bytes = bytes } })

-- The batch dimension is dynamic, and no other dimension is.
abbrev pub all_static : Dims → Bool
all_static [] = true
all_static (d ∷ ds) = is_nonneg d && all_static ds

-- `BatchableTensor::new`; `zeroed` is the memory that the allocator hands out for a type and shape.
unfoldable pub new_batchable :
    (ElementType → Dims → Bytes) → ElementType → Dims → ℕ → Result InferError BatchableTensor
new_batchable zeroed data_type [] batch_size = panic
new_batchable zeroed data_type (d ∷ ds) batch_size = do
  assert (eqb_ℤ d (negsuc 0))
  let batch_shape = pos batch_size ∷ ds
  assert (all_static batch_shape)
  ok (record {
    inner_tensor = record {
      data_type = data_type;
      shape = batch_shape;
      bytes = zeroed data_type batch_shape;
    };
    data_type = data_type;
    single_tensor_shape = pos 1 ∷ ds;
  })

-- `BatchedTensor`: a tensor that a batch ran to, and the shape of one slot of it.
pub record BatchedTensor : Type 0 where
  pub inner_tensor : HostTensor
  pub data_type : ElementType
  pub tensor_shape : Dims

-- `BatchedTensor::from`
unfoldable pub batched_from : HostTensor → Result InferError BatchedTensor
batched_from value = one_slot value value.shape
  where
    one_slot : HostTensor → Dims → Result InferError BatchedTensor
    one_slot value [] = panic
    one_slot value (_ ∷ ds) =
        ok (record { inner_tensor = value; data_type = value.data_type; tensor_shape = pos 1 ∷ ds })

-- `BatchedTensor::as_byte_slice`
unfoldable pub batched_as_byte_slice : BatchedTensor → ℕ → ℕ → Result InferError Bytes
unfolding as_byte_slice tensor_size
batched_as_byte_slice t start end = do
  size ← unwrap (tensor_size t.data_type)
  as_byte_slice size t.inner_tensor.bytes start end

-- `BatchedTensor::pop_at`: the tensor of one slot. The new tensor holds as many elements as the
-- range, so the copy into it is exact.
unfoldable pub pop_at : (Dims → ℕ) → BatchedTensor → ℕ → Result InferError HostTensor
unfolding slice_range tensor_size
pop_at num_elements t slot = do
  size ← unwrap (tensor_size t.data_type)
  let elements = num_elements t.tensor_shape
  bytes ← slice_range t.inner_tensor.bytes (slot * elements * size) ((slot + 1) * elements * size)
  ok (record { data_type = t.data_type; shape = t.tensor_shape; bytes = bytes })
