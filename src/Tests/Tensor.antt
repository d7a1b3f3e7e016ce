-- ===== src/Tests/Tensor.antt =====
-- Copies into and out of a batch buffer of four slots of two bytes.
use toutates.Base.{ℕ, ◌+◌, ◌-◌, ◌*◌, ◌≤◌, [], ◌∷◌, length, ok, err, ◌≡◌, ◌↔◌, refl}
use toutates.Base.Int.{pos}
use toutates.Tensor.Element.{uint8, bool, int16, read_size, write_size}
use toutates.Tensor.Errors.{unsupported_data_type}
use toutates.Tensor.Copy.{BatchableTensor, copy_at_from_bytes, value_as_byte_slice}
use toutates.Tensor.Copy.Slots.{
  value_as_byte_slice-copy_at_from_bytes, copy_at_from_bytes-err, IsUncopied,
  length-value_as_byte_slice,
}
use toutates.Tests.{elements, eight_zeros}

-- A slot of one 16-bit element: two rows from slot 1 on.
abbrev four_shorts : BatchableTensor
four_shorts = record {
  inner_tensor = record {
    data_type = int16;
    shape = pos 4 ∷ pos 1 ∷ [];
    bytes = 0 ∷ 0 ∷ 0 ∷ 0 ∷ 0 ∷ 0 ∷ 0 ∷ 0 ∷ [];
  };
  data_type = int16;
  single_tensor_shape = pos 1 ∷ pos 1 ∷ [];
}

value_as_byte_slice-copy_at_from_bytes_example :
    (u : BatchableTensor) × (copy_at_from_bytes elements four_shorts 1 (1 ∷ 2 ∷ 3 ∷ 4 ∷ []) ≡ ok u)
    × (length u.inner_tensor.bytes ≡ 8)
    × (value_as_byte_slice u.inner_tensor (1 * 1) (1 * 1 + 2) ≡ ok (1 ∷ 2 ∷ 3 ∷ 4 ∷ []))
unfolding write_size
value_as_byte_slice-copy_at_from_bytes_example =
    value_as_byte_slice-copy_at_from_bytes elements four_shorts 1 2 2 (0 ∷ 0 ∷ [])
      (0 ∷ 0 ∷ 0 ∷ 0 ∷ []) (0 ∷ 0 ∷ []) (1 ∷ 2 ∷ 3 ∷ 4 ∷ []) refl refl refl refl refl refl

copy_at_from_bytes-err_example :
    (copy_at_from_bytes elements (record eight_zeros { data_type = bool }) 0 (1 ∷ [])
      ≡ err unsupported_data_type)
    ↔ (IsUncopied bool × (unsupported_data_type ≡ unsupported_data_type))
copy_at_from_bytes-err_example =
    copy_at_from_bytes-err elements (record eight_zeros { data_type = bool }) 0 (1 ∷ [])
      unsupported_data_type

-- Slots 0 to 2 of two bytes each: two bytes come back, not four.
length-value_as_byte_slice_example : (length {A = ℕ} (7 ∷ 8 ∷ []) ≡ (2 - 0) * 1) × (2 * 1 ≤ 8)
unfolding read_size value_as_byte_slice
length-value_as_byte_slice_example =
    length-value_as_byte_slice
      (record {
        data_type = uint8;
        shape = pos 4 ∷ pos 2 ∷ [];
        bytes = 7 ∷ 8 ∷ 9 ∷ 10 ∷ 0 ∷ 0 ∷ 0 ∷ 0 ∷ [];
      })
      0 2 1 (7 ∷ 8 ∷ []) refl refl
