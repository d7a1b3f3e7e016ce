-- ===== src/Tests.antt =====
-- A ring of two batches of four slots with one input of two bytes a slot, and the runs of the
-- modules below on it.
mod Ring
mod Executor
mod Tensor
mod Serving
mod Loading
mod Versions
mod Interleaving
mod Metrics
mod Startup
mod Cpus
mod Store
mod Device
mod Sharing
mod Loaded
use toutates.Base.{ℕ, ◌*◌, List, [], ◌∷◌, none, some, false}
use toutates.Base.Int.{pos, as_usize}
use toutates.Tensor.Element.{ElementType, uint8}
use toutates.Tensor.DataType.{type_uint8}
use toutates.Tensor.Bytes.{Dims, TensorBytes}
use toutates.Tensor.Copy.{BatchableTensor}
use toutates.Tracing.{ClientTrace}
use toutates.SuperTensor.Index.{masks_of}
use toutates.SuperTensor.Buffer.{BatchState, DataTracker, SuperTensorBuffer}

abbrev pub elements : Dims → ℕ
elements [] = 1
elements (d ∷ ds) = as_usize d * elements ds

abbrev pub eight_zeros : BatchableTensor
eight_zeros = record {
  inner_tensor = record {
    data_type = uint8;
    shape = pos 4 ∷ pos 2 ∷ [];
    bytes = 0 ∷ 0 ∷ 0 ∷ 0 ∷ 0 ∷ 0 ∷ 0 ∷ 0 ∷ [];
  };
  data_type = uint8;
  single_tensor_shape = pos 1 ∷ pos 2 ∷ [];
}

abbrev pub idle : BatchState
idle = record {
  deadline = none;
  output = none;
  executor_permit = false;
  queue_start = none;
  exec_start = none;
  exec_end = none;
}

abbrev pub tracker : ℕ → ℕ → ℕ → DataTracker
tracker dirty written state = record { dirty = dirty; written_slots = written; state = state }

abbrev pub ring : ℕ → ℕ → ℕ → List DataTracker → SuperTensorBuffer
ring head executor_head tail trackers = record {
  input_tensors = (eight_zeros ∷ []) ∷ (eight_zeros ∷ []) ∷ [];
  trackers = trackers;
  states = idle ∷ idle ∷ [];
  masks = masks_of 2 4;
  batch_size = 4;
  capacity = 2;
  head = head;
  executor_head = executor_head;
  tail = tail;
  executors_in_use = 0;
}

-- Three rows.
abbrev pub three_rows : List TensorBytes
three_rows =
    record {
      data_type = type_uint8;
      shape = pos 3 ∷ pos 2 ∷ [];
      content = 1 ∷ 2 ∷ 3 ∷ 4 ∷ 5 ∷ 6 ∷ [];
    }
    ∷ []

abbrev pub new_trace : ClientTrace
new_trace = record {
  start = 0;
  model_proxy_aquired = some 1;
  serialization_done = some 2;
  inference_in_queue = none;
  inference_exec_start = none;
  inference_exec_end = none;
  output_processed = none;
}
