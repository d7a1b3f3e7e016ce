-- ===== src/ModelRuntime/Binding.antt =====
-- src/model_runtime/gpu_binding.rs: the tensors on the GPU that a session is bound to.
use toutates.Base.{List, [], ◌∷◌, Result, ok, err, panic, ◌>>=◌, String}
use toutates.Tensor.Element.{ElementType}
use toutates.Tensor.Errors.{InferError, session_run}
use toutates.Tensor.Bytes.{Dims}
use toutates.Loader.{GpuBoundIo}
use toutates.ModelRuntime.{BoundTensor}

pub data AllocationDevice : Type 0 where
  on_cpu on_cuda on_cuda_pinned : AllocationDevice

pub data MemoryType : Type 0 where
  default cpu_input cpu_output : MemoryType

-- What the crate `ort` does, beside its runs: D is the state of a session and of its binding.
pub record Memory (D MemoryInfo Allocator GpuInput : Type 0) : Type 0 where
  pub memory_info : AllocationDevice → MemoryType → Result String MemoryInfo
  pub new_allocator : D → MemoryInfo → Result String Allocator
  pub create_binding : D → Result String D
  pub gpu_tensor : Allocator → ElementType → Dims → Result String GpuInput
  pub bind_input : D → String → GpuInput → Result String D
  pub bind_output : D → String → GpuInput → Result String D

-- `map_err`
abbrev pub map_err : {A : Type 0} → Result String A → Result InferError A
map_err (ok a) = ok a
map_err (err e) = err (session_run e)
map_err panic = panic

module _ {D MemoryInfo Allocator GpuInput : Type 0}
    (memory : Memory D MemoryInfo Allocator GpuInput) where
  -- The loop over `spec.inputs`: the tensors are kept.
  unfoldable pub bind_inputs :
      Allocator → D → List BoundTensor → Result InferError (D × List GpuInput)
  bind_inputs alloc d [] = ok (d, [])
  bind_inputs alloc d (t ∷ ts) = do
    tensor ← map_err (memory.gpu_tensor alloc t.dtype t.shape)
    d1 ← map_err (memory.bind_input d t.name tensor)
    (d2, rest) ← bind_inputs alloc d1 ts
    ok (d2, tensor ∷ rest)

  -- The loop over `spec.outputs`: the binding owns the tensors, whose types and shapes are kept.
  unfoldable pub bind_outputs :
      Allocator → D → List BoundTensor → Result InferError (D × List (ElementType × Dims))
  bind_outputs alloc d [] = ok (d, [])
  bind_outputs alloc d (t ∷ ts) = do
    tensor ← map_err (memory.gpu_tensor alloc t.dtype t.shape)
    d1 ← map_err (memory.bind_output d t.name tensor)
    (d2, rest) ← bind_outputs alloc d1 ts
    ok (d2, (t.dtype, t.shape) ∷ rest)

  -- `GpuBoundIo::new`; the state of the session has the binding. The allocator for the outputs on
  -- the CPU is only checked to exist: `Device.new_tensor` stands for its use.
  unfoldable pub new_gpu_bound_io :
      D
      → List BoundTensor × List BoundTensor
      → Result InferError (D × GpuBoundIo GpuInput (ElementType × Dims))
  unfolding bind_inputs bind_outputs
  new_gpu_bound_io d (inputs, outputs) = do
    gpu_info ← map_err (memory.memory_info on_cuda default)
    gpu_alloc ← map_err (memory.new_allocator d gpu_info)
    cpu_info ← map_err (memory.memory_info on_cpu cpu_output)
    _ ← map_err (memory.new_allocator d cpu_info)
    d0 ← map_err (memory.create_binding d)
    (d1, gpu_inputs) ← bind_inputs gpu_alloc d0 inputs
    (d2, output_dtypes_shapes) ← bind_outputs gpu_alloc d1 outputs
    ok (d2, record { gpu_inputs = gpu_inputs; output_dtypes_shapes = output_dtypes_shapes })
