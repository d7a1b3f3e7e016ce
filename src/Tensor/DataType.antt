-- ===== src/Tensor/DataType.antt =====
-- `DataType` of src/grpc/inference.rs, and its conversions in src/tensor/batched_tensor.rs.
use text.Mathlib.Text.{◌==◌}
use toutates.Base.{String, Option, none, some, if◌then◌else◌, ◌≡◌, refl}
use toutates.Tensor.Element
use toutates.Tensor.Element.{ElementType, read_size}

pub data DataType : Type 0 where
  type_invalid type_bool type_uint8 type_uint16 type_uint32 type_uint64 type_int8 type_int16 :
      DataType
  type_int32 type_int64 type_fp16 type_fp32 type_fp64 type_string type_bf16 : DataType

-- `From<TensorElementType> for DataType`
unfoldable pub from_element : ElementType → DataType
from_element Element.float32 = type_fp32
from_element Element.uint8 = type_uint8
from_element Element.int8 = type_int8
from_element Element.uint16 = type_uint16
from_element Element.int16 = type_int16
from_element Element.int32 = type_int32
from_element Element.int64 = type_int64
from_element Element.string = type_string
from_element Element.bool = type_bool
from_element Element.float16 = type_fp16
from_element Element.float64 = type_fp64
from_element Element.uint32 = type_uint32
from_element Element.uint64 = type_uint64
from_element Element.bfloat16 = type_bf16
from_element _ = type_invalid

unfoldable pub to_metadata_string : DataType → String
to_metadata_string type_invalid = "INVALID"
to_metadata_string type_bool = "BOOL"
to_metadata_string type_uint8 = "UINT8"
to_metadata_string type_uint16 = "UINT16"
to_metadata_string type_uint32 = "UINT32"
to_metadata_string type_uint64 = "UINT64"
to_metadata_string type_int8 = "INT8"
to_metadata_string type_int16 = "INT16"
to_metadata_string type_int32 = "INT32"
to_metadata_string type_int64 = "INT64"
to_metadata_string type_fp16 = "FP16"
to_metadata_string type_fp32 = "FP32"
to_metadata_string type_fp64 = "FP64"
to_metadata_string type_string = "STRING"
to_metadata_string type_bf16 = "BF16"

-- The arms of a `match` on a string, first to last.
unfoldable pub from_str : String → DataType
from_str s =
    if s == "INVALID"
    then type_invalid
    else if s == "BOOL"
    then type_bool
    else if s == "INT8"
    then type_int8
    else if s == "UINT8"
    then type_uint8
    else if s == "INT16"
    then type_int16
    else if s == "UINT16"
    then type_uint16
    else if s == "INT32"
    then type_int32
    else if s == "UINT32"
    then type_uint32
    else if s == "INT64"
    then type_int64
    else if s == "UINT64"
    then type_uint64
    else if s == "FP16"
    then type_fp16
    else if s == "BF16"
    then type_bf16
    else if s == "FP32"
    then type_fp32
    else if s == "FP64"
    then type_fp64
    else if s == "STRING"
    then type_string
    else type_invalid

unfoldable pub as_str_name : DataType → String
as_str_name type_invalid = "TYPE_INVALID"
as_str_name type_bool = "TYPE_BOOL"
as_str_name type_uint8 = "TYPE_UINT8"
as_str_name type_uint16 = "TYPE_UINT16"
as_str_name type_uint32 = "TYPE_UINT32"
as_str_name type_uint64 = "TYPE_UINT64"
as_str_name type_int8 = "TYPE_INT8"
as_str_name type_int16 = "TYPE_INT16"
as_str_name type_int32 = "TYPE_INT32"
as_str_name type_int64 = "TYPE_INT64"
as_str_name type_fp16 = "TYPE_FP16"
as_str_name type_fp32 = "TYPE_FP32"
as_str_name type_fp64 = "TYPE_FP64"
as_str_name type_string = "TYPE_STRING"
as_str_name type_bf16 = "TYPE_BF16"

unfoldable pub from_str_name : String → Option DataType
from_str_name value =
    if value == "TYPE_INVALID"
    then some type_invalid
    else if value == "TYPE_BOOL"
    then some type_bool
    else if value == "TYPE_UINT8"
    then some type_uint8
    else if value == "TYPE_UINT16"
    then some type_uint16
    else if value == "TYPE_UINT32"
    then some type_uint32
    else if value == "TYPE_UINT64"
    then some type_uint64
    else if value == "TYPE_INT8"
    then some type_int8
    else if value == "TYPE_INT16"
    then some type_int16
    else if value == "TYPE_INT32"
    then some type_int32
    else if value == "TYPE_INT64"
    then some type_int64
    else if value == "TYPE_FP16"
    then some type_fp16
    else if value == "TYPE_FP32"
    then some type_fp32
    else if value == "TYPE_FP64"
    then some type_fp64
    else if value == "TYPE_STRING"
    then some type_string
    else if value == "TYPE_BF16"
    then some type_bf16
    else none

-- Every data type is read back from its metadata string.
pub from_str-to_metadata_string : (t : DataType) → from_str (to_metadata_string t) ≡ t
unfolding from_str to_metadata_string
from_str-to_metadata_string type_invalid = refl
from_str-to_metadata_string type_bool = refl
from_str-to_metadata_string type_uint8 = refl
from_str-to_metadata_string type_uint16 = refl
from_str-to_metadata_string type_uint32 = refl
from_str-to_metadata_string type_uint64 = refl
from_str-to_metadata_string type_int8 = refl
from_str-to_metadata_string type_int16 = refl
from_str-to_metadata_string type_int32 = refl
from_str-to_metadata_string type_int64 = refl
from_str-to_metadata_string type_fp16 = refl
from_str-to_metadata_string type_fp32 = refl
from_str-to_metadata_string type_fp64 = refl
from_str-to_metadata_string type_string = refl
from_str-to_metadata_string type_bf16 = refl

-- Every data type is read back from its protobuf name.
pub from_str_name-as_str_name : (t : DataType) → from_str_name (as_str_name t) ≡ some t
unfolding from_str_name as_str_name
from_str_name-as_str_name type_invalid = refl
from_str_name-as_str_name type_bool = refl
from_str_name-as_str_name type_uint8 = refl
from_str_name-as_str_name type_uint16 = refl
from_str_name-as_str_name type_uint32 = refl
from_str_name-as_str_name type_uint64 = refl
from_str_name-as_str_name type_int8 = refl
from_str_name-as_str_name type_int16 = refl
from_str_name-as_str_name type_int32 = refl
from_str_name-as_str_name type_int64 = refl
from_str_name-as_str_name type_fp16 = refl
from_str_name-as_str_name type_fp32 = refl
from_str_name-as_str_name type_fp64 = refl
from_str_name-as_str_name type_string = refl
from_str_name-as_str_name type_bf16 = refl
