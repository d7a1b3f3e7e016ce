-- ===== src/Tests/Loaded.antt =====
-- A manager that loads a model of one input, with one session bound to a GPU.
use toutates.Base.{ℕ, suc, List, [], ◌∷◌, length, none, some, ok, ap, ◌≡◌, refl, arith}
use toutates.Base.Int.{pos}
use toutates.Tensor.Element.{ElementType, uint8}
use toutates.Tensor.Bytes.{Bytes, Dims}
use toutates.Tensor.Copy.{HostTensor}
use toutates.SuperTensor.Buffer.{SuperTensorBuffer}
use toutates.Grpc.{ModelProxy, lookup}
use toutates.Metrics.Local.{model_session_run, model_h2d_copy, model_d2h_copy}
use toutates.Loader.{Device, Elapsed, copy_inputs}
use toutates.ModelRuntime.{BoundTensor, build_proxy}
use toutates.ModelRuntime.Binding.{Memory}
use toutates.ModelRuntime.Load.{
  Builder, Manager, SessionThread, Io, build_error, build_sessions, new_buffer, gpu_spec_of,
  bind_io, run_once, load_model,
}
use toutates.ModelRuntime.Load.Ready.{IsPrepared, load_model-IsPrepared}
use toutates.ModelRuntime.Load.Returns.{Runs, Binds, load_model-returns}
use toutates.Tests.{elements}
use toutates.Tests.Loading.{zeros, pairs, config, fresh, made, proxy}

-- A session is the number of calls on its builder and on it.
abbrev build : Builder ℕ ℕ
build = record {
  builder = ok 0;
  with_optimization_level3 = λ b. ok (suc b);
  with_verbose_log_level = λ b. ok (suc b);
  with_profiling = λ b prefix. ok (suc b);
  with_operator_library = λ b lib. ok (suc b);
  commit_from_file = λ b path. ok b;
  inputs = λ d. pairs ∷ [];
  outputs = λ d. [];
}

abbrev memory : Memory ℕ ℕ ℕ ℕ
memory = record {
  memory_info = λ on ty. ok 0;
  new_allocator = λ d info. ok 0;
  create_binding = λ d. ok (suc d);
  gpu_tensor = λ alloc ty shape. ok 7;
  bind_input = λ d name tensor. ok (suc d);
  bind_output = λ d name tensor. ok (suc d);
}

abbrev device : Device ℕ HostTensor ℕ (ElementType × Dims) ℕ
device = record {
  run_with_options = λ d inputs. ok (suc d, []);
  copy_into_async = λ d view input. ok (suc d);
  run_binding = λ d. ok (suc d, []);
  new_tensor = λ d spec. ok (d, 0);
  copy_out = λ d waits value host. ok (d, host);
}

abbrev times : Elapsed
times = record { h2d = 1; run = 2; d2h = 3 }

abbrev zeroed : ℕ → ElementType → Dims → Bytes
zeroed allocator = zeros

abbrev manager : Manager
manager = record {
  executor_pin_pool = some (4 ∷ 5 ∷ []);
  custom_op_libraries = "ops" ∷ [];
  pin_counter = 1;
  loaded_models = [];
  loaded_data = [];
  loaded_count = 0;
  configured_batch_sizes = [];
}

abbrev spec : List BoundTensor × List BoundTensor
spec = (record { name = "pairs"; dtype = uint8; shape = pos 4 ∷ pos 2 ∷ [] } ∷ [], [])

opened : build_sessions build memory device times zeroed none ("ops" ∷ []) "m.onnx" 1 ≡ ok (3 ∷ [])
unfolding build_sessions
opened = refl

new : new_buffer build memory device times zeroed config 3 ≡ ok fresh
unfolding new_buffer
new = ap build_error made

built : build_proxy "m" config (pairs ∷ []) [] ≡ ok proxy
unfolding build_proxy
built = refl

bound : gpu_spec_of build memory device times zeroed config (pairs ∷ []) [] ≡ ok (some spec)
unfolding gpu_spec_of
bound = refl

binds : Binds build memory device times zeroed (some spec)
unfolding bind_io
binds d = (_, refl)

copied :
    (d : ℕ) (views : List HostTensor) (gs : List ℕ)
    → (c : ℕ) × (copy_inputs device d views gs ≡ ok c)
unfolding copy_inputs
copied d [] gs = (d, refl)
copied d (v ∷ vs) [] = (d, refl)
copied d (v ∷ vs) (g ∷ gs) = copied (suc d) vs gs

runs : Runs build memory device times zeroed
unfolding run_once
runs d none views = (_, refl)
runs d (some io) views =
    let (c, e) = copied d views io.gpu_inputs in
    (
      (suc c, [], (model_session_run, 2) ∷ (model_h2d_copy, 1) ∷ (model_d2h_copy, 3) ∷ []),
      ground (arith, e),
    )

loaded :
    (r : Manager × List (SessionThread ℕ (Io build memory device times zeroed))) × (load_model build
        memory device times zeroed manager "m" "m.onnx" config
      ≡ ok r)
loaded =
    load_model-returns build memory device times zeroed manager "m" "m.onnx" config 3 [] fresh proxy
      (some spec) (omega arith) (omega arith) opened new built bound binds runs

load_model-returns_example :
    (r : Manager × List (SessionThread ℕ (Io build memory device times zeroed))) × (load_model build
        memory device times zeroed manager "m" "m.onnx" config
      ≡ ok r)
load_model-returns_example =
    load_model-returns build memory device times zeroed manager "m" "m.onnx" config 3 [] fresh proxy
      (some spec) (omega arith) (omega arith) opened new built bound binds runs

load_model-IsPrepared_example :
    (length loaded.0.1 ≡ 1)
    × ((p : ModelProxy) × (b c : SuperTensorBuffer) × (lookup "m" loaded.0.0.loaded_models ≡ some p)
        × (lookup "m" loaded.0.0.loaded_data ≡ some c)
        × IsPrepared build memory device times zeroed elements
            ("ops" ∷ [])
            "m"
            "m.onnx"
            config
            p
            b
            c)
load_model-IsPrepared_example =
    load_model-IsPrepared build memory device times zeroed elements manager "m" "m.onnx" config
      (omega arith) (omega arith) loaded.0.0 loaded.0.1 loaded.1
