-- ===== src/Tensor/Copy/Laws.antt =====
-- What the copies read and write.
use native.Mathlib.Nat.{mul-div_left, mul-div_right}
use toutates.Base.{
  ℕ, ◌+◌, ◌-◌, ◌*◌, ◌/◌, ◌<◌, ◌≡◌, sym, ap, ◌∙◌, arith, ◌++◌, length, length-append, take-append,
  drop-append, some, ok,
}
use toutates.Tensor.Element.{ElementType, read_size, write_size}
use toutates.Tensor.Bytes.{Bytes, Dims, slice_range, copy_from_slice, slice_rows}
use toutates.Tensor.Copy.{BatchableTensor, copy_at_from_bytes}

-- A range that is the middle of three parts.
pub slice_range-parts :
    (pre mid post : Bytes) (lo hi : ℕ)
    → lo ≡ length pre
    → hi ≡ length pre + length mid
    → slice_range (pre ++ (mid ++ post)) lo hi ≡ ok mid
unfolding slice_range
slice_range-parts pre mid post lo hi el eh = ground (
  arith,
  length-append pre (mid ++ post),
  length-append mid post,
  drop-append pre (mid ++ post) lo 0,
  take-append mid post (hi - lo),
)

pub copy_from_slice-parts :
    (pre mid post src : Bytes) (lo len : ℕ)
    → lo ≡ length pre
    → len ≡ length mid
    → len ≡ length src
    → copy_from_slice (pre ++ (mid ++ post)) lo len src ≡ ok (pre ++ (src ++ post))
unfolding copy_from_slice
copy_from_slice-parts pre mid post src lo len el em es = ground (
  arith,
  length-append pre (mid ++ post),
  length-append mid post,
  drop-append pre (mid ++ post) (lo + len) len,
  take-append pre (mid ++ post) lo,
  drop-append mid post len 0,
)

-- Of data with `dim0` indices of `w` bytes, `slice_rows` takes the bytes of `[start, end)`.
pub slice_rows-parts :
    (pre mid post : Bytes) (dim0 w start end : ℕ)
    → start < end
    → length (pre ++ (mid ++ post)) ≡ dim0 * w
    → 0 < dim0
    → length pre ≡ start * w
    → length pre + length mid ≡ end * w
    → slice_rows (pre ++ (mid ++ post)) dim0 start end ≡ ok mid
unfolding slice_rows
slice_rows-parts pre mid post dim0 w start end lt total pos_dim ep em =
    let per : length (pre ++ (mid ++ post)) / dim0 ≡ w =
      ap (λ t. t / dim0) total ∙ mul-div_right w pos_dim in
    ground (
      arith,
      slice_range-parts pre mid post (start * w) (end * w),
      ap (λ (t : ℕ). start * t) per,
      ap (λ (t : ℕ). end * t) per,
    )

pub write_size-pos : (t : ElementType) (s : ℕ) → write_size t ≡ some s → 0 < s
unfolding write_size
write_size-pos t s h = ground arith

pub write_size-read_size : (t : ElementType) (s : ℕ) → write_size t ≡ some s → read_size t ≡ some s
unfolding write_size read_size
write_size-read_size t s h = ground arith

-- The tensor with other bytes.
abbrev pub with_bytes : BatchableTensor → Bytes → BatchableTensor
with_bytes t bytes = record t { inner_tensor = record (t.inner_tensor) { bytes = bytes } }

module _ (num_elements : Dims → ℕ) (t : BatchableTensor) (slot rows size : ℕ) where
  -- A copy of `src`, a whole number of elements, into a slot of a writable tensor whose bytes are
  -- `pre`, `mid` and `post`: it replaces `mid`, the bytes from the slot's first on, and no other.
  pub copy_at_from_bytes-parts :
      (pre mid post src : Bytes)
      → write_size t.data_type ≡ some size
      → t.inner_tensor.bytes ≡ pre ++ (mid ++ post)
      → length pre ≡ slot * num_elements t.single_tensor_shape * size
      → length src ≡ rows * size
      → length mid ≡ length src
      → copy_at_from_bytes num_elements t slot src ≡ ok (with_bytes t (pre ++ (src ++ post)))
  unfolding copy_at_from_bytes
  copy_at_from_bytes-parts pre mid post src supported parts before whole same =
      let count : length src / size ≡ rows =
        ap (λ n. n / size) whole ∙ mul-div_left rows (write_size-pos t.data_type size supported) in
      rw (supported, parts, count)
        (rw (
          copy_from_slice-parts pre mid post src (slot * num_elements t.single_tensor_shape * size)
            (rows * size) (sym before) (omega arith) (sym whole)))
