-- ===== src/Tensor/Bytes.antt =====
-- Ranges of byte slices, and `TensorBytes` of src/tensor/batched_tensor.rs.
use toutates.Base.{
  ℕ, ◌+◌, ◌-◌, ◌*◌, ◌/◌, ◌==◌, ltb, leb, not, List, [], ◌∷◌, ◌++◌, length, take, drop, Result, ok,
  panic, assert, ◌>>◌,
}
use toutates.Base.Int.{ℤ, as_usize}
use toutates.Tensor.Errors.{InferError}
use toutates.Tensor.DataType.{DataType}

abbrev pub Bytes : Type 0
Bytes = List ℕ

abbrev pub Dims : Type 0
Dims = List ℤ

-- `&bytes[lo..hi]`: a range that is not in order, or ends past the end, panics.
unfoldable pub slice_range : Bytes → ℕ → ℕ → Result InferError Bytes
slice_range bytes lo hi = do
  assert (leb lo hi)
  assert (leb hi (length bytes))
  ok (take (hi - lo) (drop lo bytes))

-- `bytes[lo..lo + len].copy_from_slice(src)`, `len` being the length that the range is given.
unfoldable pub copy_from_slice : Bytes → ℕ → ℕ → Bytes → Result InferError Bytes
copy_from_slice bytes lo len src = do
  assert (leb (lo + len) (length bytes))
  assert (len == length src)
  ok (take lo bytes ++ (src ++ drop (lo + len) bytes))

-- One input of a request.
pub record TensorBytes : Type 0 where
  pub data_type : DataType
  pub shape : Dims
  pub content : Bytes

-- The bytes `[start, end)` in units of one index of a first dimension of `dim0` indices.
unfoldable pub slice_rows : Bytes → ℕ → ℕ → ℕ → Result InferError Bytes
unfolding slice_range
slice_rows content dim0 start end = do
  assert (ltb start end)
  assert (not (dim0 == 0))
  let bytes_per_index = length content / dim0
  slice_range content (start * bytes_per_index) (end * bytes_per_index)

-- `TensorBytes::slice_dim0`
unfoldable pub slice_dim0 : Bytes → Dims → ℕ → ℕ → Result InferError Bytes
unfolding slice_rows
slice_dim0 content [] start end = panic
slice_dim0 content (d ∷ _) start end = slice_rows content (as_usize d) start end
