-- ===== src/Tensor/Copy/Slots.antt =====
-- Writing the slots of a batch buffer and reading a result: the copies of
-- src/tensor/batched_tensor.rs as their callers use them.
use native.Mathlib.Nat.{add-mul, mul-sub}
use toutates.Base.{
  ℕ, ◌+◌, ◌-◌, ◌*◌, ◌≤◌, ◌≡◌, ◌↔◌, sym, ap, ◌∙◌, arith, ◌++◌, length, take, drop, length-append,
  length-take, length-drop, append-take-drop, Option-cases, inl, inr, none, some, ok, err,
}
use toutates.Tensor.Element.{
  ElementType, read_size, write_size, float32, uint8, int8, uint16, int16, int32, int64, string,
  bool, float16, float64, uint32, uint64, bfloat16, complex64, complex128, float8_e4_m3_fn,
  float8_e4_m3_fnuz, float8_e5_m2, float8_e5_m2_fnuz, uint4, int4, undefined, other, other,
}
use toutates.Tensor.Errors.{InferError, unsupported_data_type}
use toutates.Tensor.Bytes.{Bytes, Dims, slice_range}
use toutates.Tensor.Copy.{
  HostTensor, BatchableTensor, as_byte_slice, value_as_byte_slice, copy_at_from_bytes,
}
use toutates.Tensor.Copy.Laws.{
  slice_range-parts, copy_at_from_bytes-parts, write_size-read_size, with_bytes,
}

-- For a writable type, and an empty or full mid part that the slot's rows fill: writing whole
-- elements at a slot succeeds, keeps the buffer's length, and reading back the elements from the
-- slot's first on gives the bytes written.
pub value_as_byte_slice-copy_at_from_bytes :
    (num_elements : Dims → ℕ) (t : BatchableTensor) (slot rows size : ℕ) (pre mid post src : Bytes)
    → write_size t.data_type ≡ some size
    → t.inner_tensor.data_type ≡ t.data_type
    → t.inner_tensor.bytes ≡ pre ++ (mid ++ post)
    → length pre ≡ slot * num_elements t.single_tensor_shape * size
    → length src ≡ rows * size
    → length mid ≡ length src
    → (u : BatchableTensor) × (copy_at_from_bytes num_elements t slot src ≡ ok u)
      × (length u.inner_tensor.bytes ≡ length t.inner_tensor.bytes)
      × (value_as_byte_slice u.inner_tensor
            (slot * num_elements t.single_tensor_shape)
            (slot * num_elements t.single_tensor_shape + rows)
          ≡ ok src)
unfolding value_as_byte_slice as_byte_slice
value_as_byte_slice-copy_at_from_bytes num_elements t slot rows size pre mid post src ew et parts
      before whole same =
    (
      with_bytes t (pre ++ (src ++ post)),
      copy_at_from_bytes-parts num_elements t slot rows size pre mid post src ew parts before whole
          same,
      rw parts (
          omega (
            arith,
            length-append {0} pre (src ++ post),
            length-append {0} src post,
            length-append {0} pre (mid ++ post),
            length-append {0} mid post,
          )),
      rw (et, write_size-read_size t.data_type size ew)
          (slice_range-parts pre src post (first * size) ((first + rows) * size) (sym before)
            (add-mul first rows size ∙ omega (arith, before, whole))),
    )
  where
    first : ℕ
    first = slot * num_elements t.single_tensor_shape

-- The types that cannot be copied into a slot: all but integers of 8 to 64 bits and floats of 32
-- and 64.
abbrev pub IsUncopied : ElementType → Type 0
IsUncopied string = Unit {0}
IsUncopied bool = Unit {0}
IsUncopied float16 = Unit {0}
IsUncopied bfloat16 = Unit {0}
IsUncopied complex64 = Unit {0}
IsUncopied complex128 = Unit {0}
IsUncopied float8_e4_m3_fn = Unit {0}
IsUncopied float8_e4_m3_fnuz = Unit {0}
IsUncopied float8_e5_m2 = Unit {0}
IsUncopied float8_e5_m2_fnuz = Unit {0}
IsUncopied uint4 = Unit {0}
IsUncopied int4 = Unit {0}
IsUncopied undefined = Unit {0}
IsUncopied other = Unit {0}
IsUncopied _ = ⊥

write_size-IsUncopied : (ty : ElementType) → (write_size ty ≡ none) ↔ IsUncopied ty
unfolding write_size
write_size-IsUncopied float32 = ground arith
write_size-IsUncopied uint8 = ground arith
write_size-IsUncopied int8 = ground arith
write_size-IsUncopied uint16 = ground arith
write_size-IsUncopied int16 = ground arith
write_size-IsUncopied int32 = ground arith
write_size-IsUncopied int64 = ground arith
write_size-IsUncopied string = ground arith
write_size-IsUncopied bool = ground arith
write_size-IsUncopied float16 = ground arith
write_size-IsUncopied float64 = ground arith
write_size-IsUncopied uint32 = ground arith
write_size-IsUncopied uint64 = ground arith
write_size-IsUncopied bfloat16 = ground arith
write_size-IsUncopied complex64 = ground arith
write_size-IsUncopied complex128 = ground arith
write_size-IsUncopied float8_e4_m3_fn = ground arith
write_size-IsUncopied float8_e4_m3_fnuz = ground arith
write_size-IsUncopied float8_e5_m2 = ground arith
write_size-IsUncopied float8_e5_m2_fnuz = ground arith
write_size-IsUncopied uint4 = ground arith
write_size-IsUncopied int4 = ground arith
write_size-IsUncopied undefined = ground arith
write_size-IsUncopied other = ground arith

-- A copy into a slot is refused with an error value, that of an unsupported type, exactly for the
-- element types other than integers of 8 to 64 bits and floats of 32 and 64 bits; any other failure
-- is a panic.
pub copy_at_from_bytes-err :
    (num_elements : Dims → ℕ) (t : BatchableTensor) (slot : ℕ) (src : Bytes) (e : InferError)
    → (copy_at_from_bytes num_elements t slot src ≡ err e)
      ↔ (IsUncopied t.data_type × (e ≡ unsupported_data_type))
unfolding copy_at_from_bytes
copy_at_from_bytes-err num_elements t slot src e = ground (arith, write_size-IsUncopied t.data_type)

pub slice_range-ok :
    (bytes : Bytes) (lo hi : ℕ) (out : Bytes)
    → slice_range bytes lo hi ≡ ok out
    → (lo ≤ hi) × (hi ≤ length bytes) × (take (hi - lo) (drop lo bytes) ≡ out)
unfolding slice_range
slice_range-ok bytes lo hi out e = ground arith

-- `out` are the bytes from place `lo` up to place `hi`.
abbrev pub HoldsBytes : Bytes → ℕ → ℕ → Bytes → Type 0
HoldsBytes bytes lo hi out =
    (pre : Bytes) × (post : Bytes) × (bytes ≡ pre ++ (out ++ post))
    × (length pre ≡ lo)
    × (length pre + length out ≡ hi)

slice_range-HoldsBytes :
    (bytes : Bytes) (lo hi : ℕ) (out : Bytes)
    → slice_range bytes lo hi ≡ ok out
    → HoldsBytes bytes lo hi out
slice_range-HoldsBytes bytes lo hi out e =
    let (ordered, inside, same) = slice_range-ok bytes lo hi out e in
    let size : length out ≡ hi - lo =
      ap length (sym same)
      ∙ omega (
        arith,
        length-take {0} (hi - lo) (drop lo bytes),
        length-drop {0} lo bytes,
        ordered,
        inside,
      ) in
    (
      take lo bytes,
      drop (hi - lo) (drop lo bytes),
      sym (
          ap (λ t. take lo bytes ++ (t ++ drop (hi - lo) (drop lo bytes))) (sym same)
          ∙ ap (λ t. take lo bytes ++ t) (append-take-drop (hi - lo) (drop lo bytes))
          ∙ append-take-drop lo bytes),
      omega (arith, length-take {0} lo bytes, ordered, inside),
      omega (arith, length-take {0} lo bytes, ordered, inside, size),
    )

-- `out` are the elements of `value` from number `start` up to number `end`, as bytes.
abbrev pub HoldsElements : HostTensor → ℕ → ℕ → Bytes → Type 0
HoldsElements value start end out =
    (size : ℕ) × (read_size value.data_type ≡ some size)
    × HoldsBytes value.bytes (start * size) (end * size) out

pub value_as_byte_slice-HoldsElements :
    (value : HostTensor) (start end : ℕ) (out : Bytes)
    → value_as_byte_slice value start end ≡ ok out
    → HoldsElements value start end out
unfolding value_as_byte_slice as_byte_slice
value_as_byte_slice-HoldsElements value start end out e =
    elim (Option-cases (read_size value.data_type)) [
      | inl missing ↦ absurd (ground (arith, e, missing))
      | inr (size, known) ↦ (
        size,
        known,
        slice_range-HoldsBytes value.bytes (start * size) (end * size) out (rw known at e),
      )
    ]

pub HoldsElements-value_as_byte_slice :
    (value : HostTensor) (start end : ℕ) (out : Bytes)
    → HoldsElements value start end out
    → value_as_byte_slice value start end ≡ ok out
unfolding value_as_byte_slice as_byte_slice
HoldsElements-value_as_byte_slice value start end out
      (size, known, (pre, post, parts, at_start, at_end)) =
    rw (known, parts)
      (slice_range-parts pre out post (start * size) (end * size) (sym at_start)
        (omega (arith, at_start, at_end)))

-- A reply slice holds `end - start` elements, whatever the number of elements in a slot.
pub length-value_as_byte_slice :
    (value : HostTensor) (start end size : ℕ) (out : Bytes)
    → read_size value.data_type ≡ some size
    → value_as_byte_slice value start end ≡ ok out
    → (length out ≡ (end - start) * size) × (end * size ≤ length value.bytes)
unfolding value_as_byte_slice as_byte_slice
length-value_as_byte_slice value start end size out es eo =
    let inner : slice_range value.bytes (start * size) (end * size) ≡ ok out = rw es at eo in
    let (ordered, inside, e) = slice_range-ok value.bytes (start * size) (end * size) out inner in
    (
      ap length (sym e)
          ∙ omega (
            arith,
            length-take {0} (end * size - start * size) (drop (start * size) value.bytes),
            length-drop {0} (start * size) value.bytes,
            mul-sub size end start,
          ),
      inside,
    )
