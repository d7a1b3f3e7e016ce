-- ===== src/Tensor/Element.antt =====
-- The element types that the `match` arms of src/tensor/batched_tensor.rs name, with the width of
-- the Rust type of each arm, and the arms themselves.
use toutates.Base.{ℕ, Option, none, some, Bool, ◌==◌}

-- `TensorElementType` of the `ort` crate; `other` is what the `_` arms take.
pub data ElementType : Type 0 where
  float32 uint8 int8 uint16 int16 int32 int64 string bool float16 float64 uint32 uint64 :
      ElementType
  bfloat16 complex64 complex128 float8_e4_m3_fn float8_e4_m3_fnuz float8_e5_m2 : ElementType
  float8_e5_m2_fnuz uint4 int4 undefined other : ElementType

-- `std::mem::size_of::<$ty>()` of the arm that `value_as_byte_slice` takes; `none` is its `_` arm.
unfoldable pub read_size : ElementType → Option ℕ
read_size float32 = some 4
read_size uint8 = some 1
read_size int8 = some 1
read_size uint16 = some 2
read_size int16 = some 2
read_size int32 = some 4
read_size int64 = some 8
read_size bool = some 1
read_size float64 = some 8
read_size uint32 = some 4
read_size uint64 = some 8
read_size _ = none

-- The same of `copy_at_from_bytes`, which has no arm for `Bool`.
unfoldable pub write_size : ElementType → Option ℕ
write_size float32 = some 4
write_size uint8 = some 1
write_size int8 = some 1
write_size uint16 = some 2
write_size int16 = some 2
write_size int32 = some 4
write_size int64 = some 8
write_size float64 = some 8
write_size uint32 = some 4
write_size uint64 = some 8
write_size _ = none

-- The same of `copy_at_from_dyntensor`, `BatchedTensor::as_byte_slice` and `pop_at`, whose other
-- arms are `todo!()`.
unfoldable pub tensor_size : ElementType → Option ℕ
unfolding read_size
tensor_size t = read_size t

-- A number for each type, to compare them by.
tag : ElementType → ℕ
tag float32 = 1
tag uint8 = 2
tag int8 = 3
tag uint16 = 4
tag int16 = 5
tag int32 = 6
tag int64 = 7
tag string = 8
tag bool = 9
tag float16 = 10
tag float64 = 11
tag uint32 = 12
tag uint64 = 13
tag bfloat16 = 14
tag complex64 = 15
tag complex128 = 16
tag float8_e4_m3_fn = 17
tag float8_e4_m3_fnuz = 18
tag float8_e5_m2 = 19
tag float8_e5_m2_fnuz = 20
tag uint4 = 21
tag int4 = 22
tag undefined = 23
tag other = 24

-- The type test of `try_extract_tensor::<$ty>()`.
unfoldable pub same_type : ElementType → ElementType → Bool
unfolding tag
same_type a b = tag a == tag b
