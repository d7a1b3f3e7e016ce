-- ===== src/Tensor/Copy/Isolated.antt =====
-- Which slots of a batch buffer a write of src/tensor/batched_tensor.rs changes.
use native.Mathlib.Nat.{add-mul, mul_assoc, mul-le-mul_right}
use toutates.Base.{
  ℕ, ◌+◌, ◌*◌, ◌/◌, ◌≤◌, ◌≡◌, ◌⊎◌, inl, inr, refl, sym, ap, ◌∙◌, arith, length, none, some, Result,
  ok, bind-ok, ok-injective, Option-cases, ◌>>=◌,
}
use toutates.Tensor.Element.{ElementType, write_size}
use toutates.Tensor.Errors.{InferError}
use toutates.Tensor.Bytes.{Bytes, Dims, slice_range, copy_from_slice}
use toutates.Tensor.Copy.{
  BatchableTensor, copy_tensor_slice_from_bytes, as_byte_slice, value_as_byte_slice,
  copy_at_from_bytes,
}
use toutates.Tensor.Copy.Laws.{write_size-read_size, with_bytes}
use toutates.Tensor.Copy.Apart.{
  overwrite, length-overwrite, copy_from_slice-ok, slice_range-overwrite,
  slice_range-overwrite_apart,
}

-- The width of an element that a write knows, and 0 for the types without an arm.
abbrev pub element_size : ElementType → ℕ
element_size t = elim (write_size t) [ none ↦ 0 | some size ↦ size ]

module _ (num_elements : Dims → ℕ) where
  -- The elements of a slot.
  abbrev pub per_slot : BatchableTensor → ℕ
  per_slot t = num_elements t.single_tensor_shape

  -- What the slots `[lo, hi)` of a batch buffer hold.
  abbrev pub slots : BatchableTensor → ℕ → ℕ → Result InferError Bytes
  slots t lo hi = value_as_byte_slice t.inner_tensor (lo * per_slot t) (hi * per_slot t)

  copy_at_from_bytes-ok :
      (t u : BatchableTensor) (slot : ℕ) (src : Bytes)
      → copy_at_from_bytes num_elements t slot src ≡ ok u
      → (size : ℕ) × (write_size t.data_type ≡ some size)
        × (slot * per_slot t * size + length src ≤ length t.inner_tensor.bytes)
        × (u ≡ with_bytes t (overwrite (slot * per_slot t * size) src t.inner_tensor.bytes))
  unfolding copy_at_from_bytes copy_tensor_slice_from_bytes
  copy_at_from_bytes-ok t u slot src e = elim (Option-cases (write_size t.data_type)) [
    | inl unsupported ↦ absurd (ground (arith, unsupported))
    | inr (size, supported) ↦
        let written : (copy_from_slice t.inner_tensor.bytes (slot * per_slot t * size)
                (length src / size * size) src
              >>= (λ bytes. ok (with_bytes t bytes)))
            ≡ ok u =
          rw supported at e in
        let (bytes, copied, made) =
          bind-ok
            (copy_from_slice t.inner_tensor.bytes (slot * per_slot t * size)
              (length src / size * size) src)
            (λ bytes. ok (with_bytes t bytes)) u written in
        let (whole, fits, same) =
          copy_from_slice-ok t.inner_tensor.bytes (slot * per_slot t * size)
            (length src / size * size) src bytes copied in
        (
          size,
          supported,
          fits,
          sym (ok-injective (with_bytes t bytes) u made) ∙ ap (with_bytes t) same,
        )
  ]

  -- `src` is whole slots, `rows` of them, and the buffer's elements are of its type.
  pub record FillsSlots (t : BatchableTensor) (rows : ℕ) (src : Bytes) : Type 0 where
    pub same_type : t.inner_tensor.data_type ≡ t.data_type
    pub whole : length src ≡ rows * (per_slot t * element_size t.data_type)

  module _ (t u : BatchableTensor) (slot rows : ℕ) (src : Bytes) (fills : FillsSlots t rows src)
      (written : copy_at_from_bytes num_elements t slot src ≡ ok u) where
    -- The bytes of the range are those of the slots.
    range_end :
        (size : ℕ)
        → write_size t.data_type ≡ some size
        → slot * per_slot t * size + length src ≡ (slot + rows) * per_slot t * size
    range_end size supported =
        let size_is : element_size t.data_type ≡ size = rw (supported, element_size) refl in
        ap (λ n. slot * per_slot t * size + n)
          (fills.whole
            ∙ ap (λ k. rows * (per_slot t * k)) size_is
            ∙ sym (mul_assoc rows (per_slot t) size))
        ∙ sym (add-mul (slot * per_slot t) (rows * per_slot t) size)
        ∙ ap (λ k. k * size) (sym (add-mul slot rows (per_slot t)))

    slots-written :
        (size lo hi : ℕ)
        → write_size t.data_type ≡ some size
        → u ≡ with_bytes t (overwrite (slot * per_slot t * size) src t.inner_tensor.bytes)
        → (slots t lo hi
            ≡ slice_range t.inner_tensor.bytes (lo * per_slot t * size) (hi * per_slot t * size))
          × (slots u lo hi
              ≡ slice_range
                  (overwrite (slot * per_slot t * size) src t.inner_tensor.bytes)
                  (lo * per_slot t * size)
                  (hi * per_slot t * size))
    unfolding value_as_byte_slice as_byte_slice
    slots-written size lo hi supported same =
        let read = write_size-read_size t.data_type size supported in
        (rw (fills.same_type, read) refl, rw (same, fills.same_type, read) refl)

    -- The slots written hold the bytes written.
    pub slots-own : slots u slot (slot + rows) ≡ ok src
    slots-own =
        let (size, supported, fits, same) = copy_at_from_bytes-ok t u slot src written in
        (slots-written size slot (slot + rows) supported same).1
        ∙ ap
            (λ k.
              slice_range (overwrite (slot * per_slot t * size) src t.inner_tensor.bytes)
                (slot * per_slot t * size) k)
            (sym (range_end size supported))
        ∙ slice_range-overwrite (slot * per_slot t * size) src t.inner_tensor.bytes fits

    -- The slots before and after them hold what they held.
    pub slots-apart : (lo hi : ℕ) → (hi ≤ slot) ⊎ (slot + rows ≤ lo) → slots u lo hi ≡ slots t lo hi
    slots-apart lo hi apart =
        let (size, supported, fits, same) = copy_at_from_bytes-ok t u slot src written in
        let (before, after) = slots-written size lo hi supported same in
        after
        ∙ slice_range-overwrite_apart (slot * per_slot t * size) src t.inner_tensor.bytes fits
            (lo * per_slot t * size) (hi * per_slot t * size) (in_bytes size supported apart)
        ∙ sym before
      where
        in_bytes :
            (size : ℕ)
            → write_size t.data_type ≡ some size
            → (hi ≤ slot) ⊎ (slot + rows ≤ lo)
            → (hi * per_slot t * size ≤ slot * per_slot t * size)
              ⊎ (slot * per_slot t * size + length src ≤ lo * per_slot t * size)
        in_bytes size supported (inl h) =
            inl (mul-le-mul_right size (mul-le-mul_right (per_slot t) h))
        in_bytes size supported (inr h) = inr (
            rw (range_end size supported) (mul-le-mul_right size (mul-le-mul_right (per_slot t) h)))

    -- The write leaves types, shapes and length as they are.
    pub same_kind :
        (u.data_type ≡ t.data_type)
        × (u.single_tensor_shape ≡ t.single_tensor_shape)
        × (u.inner_tensor.data_type ≡ t.inner_tensor.data_type)
        × (length u.inner_tensor.bytes ≡ length t.inner_tensor.bytes)
    same_kind =
        let (size, supported, fits, same) = copy_at_from_bytes-ok t u slot src written in
        (
          ap (λ v. v.data_type) same,
          ap (λ v. v.single_tensor_shape) same,
          ap (λ v. v.inner_tensor.data_type) same,
          ap (λ v. length v.inner_tensor.bytes) same
              ∙ length-overwrite (slot * per_slot t * size) src t.inner_tensor.bytes fits,
        )
