-- ===== src/ModelRuntime/Load.antt =====
-- `ModelRuntimeManager::load_model` of src/model_runtime/manager.rs: sessions, buffer, warmup,
-- registration and the threads that are started. Nothing else has the buffer before it is registered.
pub mod Warm
pub mod Sessions
pub mod Ready
pub mod Returns
use toutates.Base.{
  ℕ, zero, suc, List, [], ◌∷◌, Option, none, some, Result, ok, err, panic, ◌>>=◌, String,
}
use toutates.Tensor.Element.{ElementType}
use toutates.Tensor.Errors.{InferError}
use toutates.Tensor.Bytes.{Bytes, Dims}
use toutates.Tensor.Copy.{HostTensor}
use toutates.SuperTensor.Buffer.{SuperTensorBuffer}
use toutates.SuperTensor.Construct.{Outlet, new_with_overrides}
use toutates.SuperTensor.Executor.{get_data_view, warmup}
use toutates.Grpc.{ModelProxy, ModelMap}
use toutates.Loader.{Device, GpuBoundIo, Elapsed, Observed, run_host, run_gpu_bound}
use toutates.ModelRuntime.{
  AllocatorKind, cpu, cuda_pinned, cuda, ProfilingConfig, ModelRepositoryConfig, LoadError,
  session_build, allocator_create, super_tensor_build, BoundTensor, build_proxy,
  build_gpu_bound_spec, next_pin, register,
}
use toutates.ModelRuntime.Binding.{
  AllocationDevice, on_cpu, on_cuda_pinned, MemoryType, cpu_input, Memory, new_gpu_bound_io,
}

-- What the crate `ort` does to build a session: B is the state of a builder, D a session.
pub record Builder (B D : Type 0) : Type 0 where
  pub builder : Result String B
  pub with_optimization_level3 : B → Result String B
  pub with_verbose_log_level : B → Result String B
  pub with_profiling : B → String → Result String B
  pub with_operator_library : B → String → Result String B
  pub commit_from_file : B → String → Result String D
  pub inputs : D → List Outlet
  pub outputs : D → List Outlet

-- The fields of `ModelRuntimeManager`, and the gauges it sets. The data of the proxies stands apart.
pub record Manager : Type 0 where
  pub executor_pin_pool : Option (List ℕ)
  pub custom_op_libraries : List String
  pub pin_counter : ℕ
  pub loaded_models : ModelMap
  pub loaded_data : List (String × SuperTensorBuffer)
  pub loaded_count : ℕ
  pub configured_batch_sizes : List (String × ℕ)

-- The arguments of `spawn_session_thread`; the number is the end of the executor's name.
pub record SessionThread (D Io : Type 0) : Type 0 where
  pub executor : ℕ
  pub session : D
  pub stop_profiling_after : Option ℕ
  pub pin_cpu : Option ℕ
  pub gpu_io : Option Io

-- `map_err(|e| ...(e.to_string()))`
abbrev pub load_error : {A : Type 0} → (String → LoadError) → Result String A → Result LoadError A
load_error f (ok a) = ok a
load_error f (err e) = err (f e)
load_error f panic = panic

-- `map_err(|_| LoadError::SuperTensorBuild)`
abbrev pub build_error : {A : Type 0} → Result InferError A → Result LoadError A
build_error (ok a) = ok a
build_error (err e) = err super_tensor_build
build_error panic = panic

-- `unwrap` and `expect` of a result.
abbrev pub expect : {A : Type 0} → Result InferError A → Result LoadError A
expect (ok a) = ok a
expect (err e) = panic
expect panic = panic

-- `(alloc_device, memory_type)`
unfoldable pub memory_of : AllocatorKind → AllocationDevice × MemoryType
memory_of cpu = (on_cpu, cpu_input)
memory_of cuda_pinned = (on_cuda_pinned, cpu_input)
memory_of cuda = (on_cuda_pinned, cpu_input)

module _ {B D MemoryInfo Allocator GpuInput Value : Type 0} (build : Builder B D)
    (memory : Memory D MemoryInfo Allocator GpuInput)
    (device : Device D HostTensor GpuInput (ElementType × Dims) Value) (times : Elapsed)
    (zeroed : Allocator → ElementType → Dims → Bytes) where
  abbrev pub Io : Type 0
  Io = GpuBoundIo GpuInput (ElementType × Dims)

  unfoldable pub with_libraries : B → List String → Result LoadError B
  with_libraries b [] = ok b
  with_libraries b (lib ∷ libs) = do
    b1 ← load_error session_build (build.with_operator_library b lib)
    with_libraries b1 libs

  unfoldable pub build_session : Option ProfilingConfig → List String → String → Result LoadError D
  unfolding with_libraries
  build_session profiling libs model_path = do
    b1 ← load_error session_build build.builder
    b2 ← load_error session_build (build.with_optimization_level3 b1)
    b3 ← load_error session_build (build.with_verbose_log_level b2)
    b4 ← elim profiling [
      | some p ↦ load_error session_build (build.with_profiling b3 p.file_prefix)
      | none ↦ ok b3
    ]
    b5 ← with_libraries b4 libs
    load_error session_build (build.commit_from_file b5 model_path)

  unfoldable pub build_sessions :
      Option ProfilingConfig → List String → String → ℕ → Result LoadError (List D)
  unfolding build_session
  build_sessions profiling libs model_path zero = ok []
  build_sessions profiling libs model_path (suc n) = do
    session ← build_session profiling libs model_path
    rest ← build_sessions profiling libs model_path n
    ok (session ∷ rest)

  -- `&sessions[0]`
  abbrev pub first_session : List D → Result LoadError D
  first_session [] = panic
  first_session (session ∷ rest) = ok session

  unfoldable pub run_once :
      D → Option Io → List HostTensor → Result InferError (D × List Value × Observed)
  unfolding run_host run_gpu_bound
  run_once d (some io) inputs = run_gpu_bound device d io inputs times
  run_once d none inputs = run_host device d inputs times

  -- A call of `warmup`, whose closure runs the session and unwraps its result. What the run observes
  -- of its times is left out.
  unfoldable pub warm_once :
      D → Option Io → SuperTensorBuffer → Result LoadError (D × SuperTensorBuffer)
  unfolding run_once
  warm_once d gpu_io b = do
    inputs ← expect (get_data_view b b.head)
    (d1, _, _) ← expect (run_once d gpu_io inputs)
    let (c, warmed) = warmup b
    _ ← expect warmed
    ok (d1, c)

  unfoldable pub warm_iterations :
      ℕ → D → Option Io → SuperTensorBuffer → Result LoadError (D × SuperTensorBuffer)
  unfolding warm_once
  warm_iterations zero d gpu_io b = ok (d, b)
  warm_iterations (suc n) d gpu_io b = do
    (d1, b1) ← warm_once d gpu_io b
    warm_iterations n d1 gpu_io b1

  -- `gpu_io` of a session.
  unfoldable pub bind_io :
      Option (List BoundTensor × List BoundTensor) → D → Result LoadError (D × Option Io)
  unfolding new_gpu_bound_io
  bind_io none d = ok (d, none)
  bind_io (some spec) d = do
    (bound, io) ← expect (new_gpu_bound_io memory d spec)
    ok (bound, some io)

  unfoldable pub warm_sessions :
      Option (List BoundTensor × List BoundTensor)
      → List D
      → SuperTensorBuffer
      → Result LoadError (List (D × Option Io) × SuperTensorBuffer)
  unfolding warm_iterations bind_io
  warm_sessions gpu_spec [] b = ok ([], b)
  warm_sessions gpu_spec (d ∷ ds) b = do
    (d1, gpu_io) ← bind_io gpu_spec d
    (d2, b1) ← warm_iterations 3 d1 gpu_io b
    (rest, b2) ← warm_sessions gpu_spec ds b1
    ok ((d2, gpu_io) ∷ rest, b2)

  -- `gpu_spec`
  unfoldable pub gpu_spec_of :
      ModelRepositoryConfig
      → List Outlet
      → List Outlet
      → Result LoadError (Option (List BoundTensor × List BoundTensor))
  unfolding build_gpu_bound_spec
  gpu_spec_of config inputs outputs = elim config.allocator [
    | cuda ↦ (do spec ← build_gpu_bound_spec config inputs outputs; ok (some spec))
    | _ ↦ ok none
  ]

  -- The buffer of the model, made for the first session.
  unfoldable pub new_buffer : ModelRepositoryConfig → D → Result LoadError SuperTensorBuffer
  unfolding memory_of
  new_buffer config first = do
    let (alloc_device, memory_type) = memory_of config.allocator
    info ← load_error allocator_create (memory.memory_info alloc_device memory_type)
    allocator ← load_error allocator_create (memory.new_allocator first info)
    build_error (
        new_with_overrides (zeroed allocator) config.capacity config.batch_size (build.inputs first)
          config.input_shapes)

  -- All that comes before the registration.
  unfoldable pub prepare_model :
      Manager
      → String
      → String
      → ModelRepositoryConfig
      → Result LoadError (ModelProxy × SuperTensorBuffer × List (D × Option Io))
  unfolding build_sessions new_buffer gpu_spec_of warm_sessions
  prepare_model m model_name model_path config = do
    sessions ← build_sessions config.profiling m.custom_op_libraries model_path config.num_executors
    first ← first_session sessions
    buffer ← new_buffer config first
    proxy ← build_proxy model_name config (build.inputs first) (build.outputs first)
    gpu_spec ← gpu_spec_of config (build.inputs first) (build.outputs first)
    (warmed, warm_buffer) ← warm_sessions gpu_spec sessions buffer
    ok (proxy, warm_buffer, warmed)

  unfoldable pub spawn_sessions :
      Option (List ℕ)
      → Option ℕ
      → ℕ
      → ℕ
      → List (D × Option Io)
      → Result LoadError (List (SessionThread D Io) × ℕ)
  unfolding next_pin
  spawn_sessions pool stop_after i counter [] = ok ([], counter)
  spawn_sessions pool stop_after i counter ((d, gpu_io) ∷ ds) = do
    (pin, counter1) ← next_pin pool counter
    (rest, last) ← spawn_sessions pool stop_after (suc i) counter1 ds
    ok (
      record {
        executor = i;
        session = d;
        stop_profiling_after = stop_after;
        pin_cpu = pin;
        gpu_io = gpu_io;
      }
          ∷ rest,
      last,
    )

  abbrev pub stop_after_batches : Option ProfilingConfig → Option ℕ
  stop_after_batches none = none
  stop_after_batches (some p) = p.stop_after_batches

  -- `load_model`: the manager after it, and the threads that it starts.
  unfoldable pub load_model :
      Manager
      → String
      → String
      → ModelRepositoryConfig
      → Result LoadError (Manager × List (SessionThread D Io))
  unfolding prepare_model spawn_sessions register
  load_model m model_name model_path config = do
    (proxy, buffer, warmed) ← prepare_model m model_name model_path config
    (threads, counter) ←
        spawn_sessions m.executor_pin_pool (stop_after_batches config.profiling) 0 m.pin_counter
          warmed
    let registered = record m {
      pin_counter = counter;
      loaded_models = register model_name proxy m.loaded_models;
      loaded_data = register model_name buffer m.loaded_data;
      loaded_count = suc m.loaded_count;
      configured_batch_sizes = register model_name config.batch_size m.configured_batch_sizes;
    }
    ok (registered, threads)
