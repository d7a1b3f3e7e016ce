-- ===== src/SuperTensor/Shared/Overlong.antt =====
-- A request with more bytes than its shape says, in `insert_tensors_at` of src/tensor/supertensor.rs.
use native.Mathlib.Nat.{mul-div_right, mul-div_left, mul-le-mul_right, mul-sub, mul_assoc}
use toutates.Base.{
  ℕ, ◌+◌, ◌-◌, ◌*◌, ◌/◌, ◌≤◌, ◌<◌, ◌==◌, ltb, ◌≡◌, sym, ap, ◌∙◌, arith, refl, ◌∷◌, ◌++◌, true,
  false, length, length-take, length-drop, take, drop, some, ok, usize_mod,
}
use toutates.Base.Int.{pos, as_usize}
use toutates.Tensor.Element.{write_size}
use toutates.Tensor.Bytes.{Bytes, Dims, slice_range, copy_from_slice, slice_rows, slice_dim0}
use toutates.Tensor.Copy.{BatchableTensor, copy_tensor_slice_from_bytes, copy_at_from_bytes}
use toutates.Tensor.Copy.Laws.{with_bytes, write_size-pos}
use toutates.Tensor.Copy.Apart.{overwrite}
use toutates.Tensor.Copy.Isolated.{element_size, per_slot, slots, FillsSlots, slots-own}

slice_range-run :
    (bytes : Bytes) (lo hi : ℕ)
    → lo ≤ hi
    → hi ≤ length bytes
    → slice_range bytes lo hi ≡ ok (take (hi - lo) (drop lo bytes))
unfolding slice_range
slice_range-run bytes lo hi ordered inside = ground arith

copy_from_slice-run :
    (bytes : Bytes) (lo len : ℕ) (src : Bytes)
    → len ≡ length src
    → lo + len ≤ length bytes
    → copy_from_slice bytes lo len src ≡ ok (take lo bytes ++ (src ++ drop (lo + len) bytes))
unfolding copy_from_slice
copy_from_slice-run bytes lo len src whole fits = ground arith

slice_rows-run :
    (content : Bytes) (n w start end : ℕ)
    → start < end
    → 0 < n
    → length content / n ≡ w
    → slice_rows content n start end ≡ slice_range content (start * w) (end * w)
unfolding slice_rows
slice_rows-run content n w start end some_rows nonempty per =
    let ordered : ltb start end ≡ true = ground arith in
    let nonzero : (n == 0) ≡ false = ground arith in rw (ordered, nonzero, per) refl

-- The rows of an input of `n` rows of `w` bytes each.
pub slice_dim0-run :
    (content : Bytes) (shape ds : Dims) (n w start end : ℕ)
    → n < usize_mod
    → shape ≡ pos n ∷ ds
    → length content ≡ n * w
    → start < end
    → end ≤ n
    → (src : Bytes) × (slice_dim0 content shape start end ≡ ok src)
      × (length src ≡ (end - start) * w)
unfolding slice_dim0
slice_dim0-run content shape ds n w start end small shaped whole some_rows within =
    let size : as_usize (pos n) ≡ n = omega arith in
    let per : length content / n ≡ w = ap (λ t. t / n) whole ∙ mul-div_right w (omega arith) in
    let ordered : start * w ≤ end * w = mul-le-mul_right w (omega arith) in
    let inside : end * w ≤ length content = omega (arith, mul-le-mul_right w within, whole) in
    let ran = slice_range-run content (start * w) (end * w) ordered inside in
    (
      take (end * w - start * w) (drop (start * w) content),
      ap (λ d. slice_dim0 content d start end) shaped
          ∙ ap (λ k. slice_rows content k start end) size
          ∙ slice_rows-run content n w start end some_rows (omega arith) per
          ∙ ran,
      omega (
        arith,
        length-take {0} (end * w - start * w) (drop (start * w) content),
        length-drop {0} (start * w) content,
        mul-sub w end start,
        inside,
        ordered,
      ),
    )

module _ (num_elements : Dims → ℕ) where
  pub copy_at_from_bytes-run :
      (t : BatchableTensor) (slot rows size : ℕ) (src : Bytes)
      → write_size t.data_type ≡ some size
      → length src ≡ rows * size
      → slot * per_slot num_elements t * size + length src ≤ length t.inner_tensor.bytes
      → copy_at_from_bytes num_elements t slot src
        ≡ ok (
            with_bytes t
              (overwrite (slot * per_slot num_elements t * size) src t.inner_tensor.bytes))
  unfolding copy_at_from_bytes copy_tensor_slice_from_bytes
  copy_at_from_bytes-run t slot rows size src supported whole fits =
      let count : length src / size ≡ rows =
        ap (λ n. n / size) whole ∙ mul-div_left rows (write_size-pos t.data_type size supported) in
      let copied =
        copy_from_slice-run t.inner_tensor.bytes (slot * per_slot num_elements t * size)
          (rows * size) src (sym whole) (omega (arith, fits, whole)) in
      rw (supported, count, copied)
        (ap
          (λ k. ok (
            with_bytes t (
              take (slot * per_slot num_elements t * size) t.inner_tensor.bytes
              ++ (src ++ drop (slot * per_slot num_elements t * size + k) t.inner_tensor.bytes))))
          (sym whole))

  -- An input of `n` rows by its shape, but `k` slots' bytes for each: where the batch's buffer has
  -- room, the rows `[start, end)` are copied over `(end - start) * k` slots from the first of the
  -- reservation on, not over its `end - start`, and no error comes of it.
  pub copy_at_from_bytes-overlong :
      (t : BatchableTensor) (content : Bytes) (shape ds : Dims) (n k slot start end size : ℕ)
      → n < usize_mod
      → shape ≡ pos n ∷ ds
      → write_size t.data_type ≡ some size
      → t.inner_tensor.data_type ≡ t.data_type
      → length content ≡ n * (k * (per_slot num_elements t * size))
      → start < end
      → end ≤ n
      → slot * per_slot num_elements t * size
          + (end - start) * (k * (per_slot num_elements t * size))
        ≤ length t.inner_tensor.bytes
      → (src : Bytes) × (u : BatchableTensor) × (slice_dim0 content shape start end ≡ ok src)
        × (copy_at_from_bytes num_elements t slot src ≡ ok u)
        × (slots num_elements u slot (slot + (end - start) * k) ≡ ok src)
  copy_at_from_bytes-overlong t content shape ds n k slot start end size small shaped supported kind
        whole some_rows within fits =
      let w = per_slot num_elements t * size in
      let (src, sliced, len) =
        slice_dim0-run content shape ds n (k * w) start end small shaped whole some_rows within in
      let elements : length src ≡ (end - start) * k * per_slot num_elements t * size =
        len
        ∙ sym (mul_assoc (end - start) k w)
        ∙ sym (mul_assoc ((end - start) * k) (per_slot num_elements t) size) in
      let written =
        copy_at_from_bytes-run t slot ((end - start) * k * per_slot num_elements t) size src
          supported elements (omega (arith, len, fits)) in
      let size_is : element_size t.data_type ≡ size = rw (supported, element_size) refl in
      let fills : FillsSlots num_elements t ((end - start) * k) src = record {
        same_type = kind;
        whole =
            elements
            ∙ mul_assoc ((end - start) * k) (per_slot num_elements t) size
            ∙ ap (λ x. (end - start) * k * (per_slot num_elements t * x)) (sym size_is);
      } in
      (
        src,
        _,
        sliced,
        written,
        slots-own num_elements t _ slot ((end - start) * k) src fills written,
      )
