-- ===== src/Tensor/Errors.antt =====
-- `InferError` of src/tensor/supertensor.rs, which the tensor copies return too.
use toutates.Base.{String}

pub data InferError : Type 0 where
  ring_full : InferError
  unsupported_data_type : InferError
  session_run : String → InferError

unfoldable pub message : InferError → String
message ring_full = "Ring buffer full"
message unsupported_data_type = "Unsupported tensor data type"
message (session_run s) = s
