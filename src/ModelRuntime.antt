-- ===== src/ModelRuntime.antt =====
-- src/model_runtime/manager.rs: what the manager derives from a model and its configuration, and
-- the registration of a loaded model.
pub mod Known
pub mod Shapes
pub mod Binding
pub mod Load
use toutates.Base.{
  ℕ, zero, suc, ◌+◌, ◌%◌, ◌==◌, List, [], ◌∷◌, length, get_elem?, Option, none, some, Result, ok,
  err, panic, ok_or, ◌>>=◌, String, usize_mod,
}
use toutates.Base.Int.{ℤ, pos, ◌+ℤ◌}
use toutates.Tensor.Element.{ElementType}
use toutates.Tensor.DataType.{from_element, to_metadata_string}
use toutates.Tensor.Bytes.{Dims}
use toutates.SuperTensor.Construct.{ValueType, tensor, Outlet, Overrides, find_override, overlay}
use toutates.Grpc.{ModelInput, TensorMetadata, ModelProxy, ModelMap}

-- `LoadError`
pub data LoadError : Type 0 where
  session_build allocator_create : String → LoadError
  super_tensor_build : LoadError

pub data AllocatorKind : Type 0 where
  cpu cuda_pinned cuda : AllocatorKind

pub record ProfilingConfig : Type 0 where
  pub file_prefix : String
  pub stop_after_batches : Option ℕ

-- `ModelRepositoryConfig`, but for `backend`, which has one value.
pub record ModelRepositoryConfig : Type 0 where
  pub batch_size : ℕ
  pub capacity : ℕ
  pub num_executors : ℕ
  pub allocator : AllocatorKind
  pub profiling : Option ProfilingConfig
  pub input_shapes : Overrides
  pub output_shapes : Overrides

-- An override of an input replaces the shape of the model.
unfoldable pub input_dims : Overrides → Outlet → Dims → Dims
input_dims overrides o shape = elim (find_override overrides o.name) [
  | some dims ↦ dims
  | none ↦ shape
]

-- An override of an output replaces the dimensions that it has.
unfoldable pub output_dims : Overrides → Outlet → Dims → Dims
unfolding overlay
output_dims overrides o shape = elim (find_override overrides o.name) [
  | some dims ↦ overlay shape dims
  | none ↦ shape
]

-- `input.dtype().tensor_type().unwrap()` and `tensor_shape().unwrap()`
unfoldable pub tensor_dtype : Outlet → Result LoadError (ElementType × Dims)
tensor_dtype o = elim o.dtype [ tensor ty shape ↦ ok (ty, shape) | _ ↦ panic ]

-- `inputs` of the configuration.
unfoldable pub model_inputs : Overrides → List Outlet → Result LoadError (List ModelInput)
unfolding tensor_dtype input_dims
model_inputs overrides [] = ok []
model_inputs overrides (o ∷ os) = do
  (_, shape) ← tensor_dtype o
  rest ← model_inputs overrides os
  ok (record { name = o.name; dims = input_dims overrides o shape } ∷ rest)

-- `inputs_metadata`; `input_shape[0] = 1` panics on an empty shape.
unfoldable pub inputs_metadata : Overrides → List Outlet → Result LoadError (List TensorMetadata)
unfolding tensor_dtype input_dims to_metadata_string from_element
inputs_metadata overrides [] = ok []
inputs_metadata overrides (o ∷ os) = do
  (ty, shape) ← tensor_dtype o
  let dims = input_dims overrides o shape
  _ ← set_first dims
  rest ← inputs_metadata overrides os
  ok (
      record { name = o.name; datatype = to_metadata_string (from_element ty); shape = dims }
      ∷ rest)
  where
    set_first : Dims → Result LoadError Dims
    set_first [] = panic
    set_first (_ ∷ ds) = ok (pos 1 ∷ ds)

-- `input_set`, whose entries are inserted in turn: the last entry of a name is the one found.
unfoldable pub input_set : ℕ → List Outlet → List (String × ℕ) → List (String × ℕ)
input_set i [] set = set
input_set i (o ∷ os) set = input_set (suc i) os ((o.name, i) ∷ set)

unfoldable pub outputs_metadata : Overrides → List Outlet → Result LoadError (List TensorMetadata)
unfolding tensor_dtype output_dims to_metadata_string from_element
outputs_metadata overrides [] = ok []
outputs_metadata overrides (o ∷ os) = do
  (ty, shape) ← tensor_dtype o
  rest ← outputs_metadata overrides os
  ok (
      record {
        name = o.name;
        datatype = to_metadata_string (from_element ty);
        shape = output_dims overrides o shape;
      }
      ∷ rest)

-- The proxy that `load_model` builds, beside its buffer.
unfoldable pub build_proxy :
    String → ModelRepositoryConfig → List Outlet → List Outlet → Result LoadError ModelProxy
unfolding model_inputs inputs_metadata outputs_metadata input_set
build_proxy name config inputs outputs = do
  config_input ← model_inputs config.input_shapes inputs
  input_meta ← inputs_metadata config.input_shapes inputs
  output_meta ← outputs_metadata config.output_shapes outputs
  ok (record {
    config_name = name;
    config_input = config_input;
    input_meta = input_meta;
    output_meta = output_meta;
    input_set = input_set 0 inputs [];
  })

-- `new_map.insert`: the entry hides an earlier one of the name.
unfoldable pub register {ℓ} : {A : Type ℓ} → String → A → List (String × A) → List (String × A)
register name proxy models = (name, proxy) ∷ models

-- `(name, dtype, shape)`
pub record BoundTensor : Type 0 where
  pub name : String
  pub dtype : ElementType
  pub shape : Dims

-- `dims[0] = batch_size as i64`; the batch size fits an `i64`.
abbrev pub set_batch : ℕ → Dims → Result LoadError Dims
set_batch batch_size [] = panic
set_batch batch_size (_ ∷ ds) = ok (pos batch_size ∷ ds)

-- `tensor_type().ok_or(…)?` and `tensor_shape().ok_or(…)?`
unfoldable pub bound_dtype : Outlet → Result LoadError (ElementType × Dims)
bound_dtype o = elim o.dtype [ tensor ty shape ↦ ok (ty, shape) | _ ↦ err super_tensor_build ]

-- A loop of `build_gpu_bound_spec`, with the shape of each tensor by `dims_of`.
unfoldable pub bound_tensors :
    ℕ → (Outlet → Dims → Dims) → List Outlet → Result LoadError (List BoundTensor)
unfolding bound_dtype
bound_tensors batch_size dims_of [] = ok []
bound_tensors batch_size dims_of (o ∷ os) = do
  (ty, shape) ← bound_dtype o
  dims ← set_batch batch_size (dims_of o shape)
  rest ← bound_tensors batch_size dims_of os
  ok (record { name = o.name; dtype = ty; shape = dims } ∷ rest)

-- `build_gpu_bound_spec`
unfoldable pub build_gpu_bound_spec :
    ModelRepositoryConfig
    → List Outlet
    → List Outlet
    → Result LoadError (List BoundTensor × List BoundTensor)
unfolding bound_tensors input_dims output_dims
build_gpu_bound_spec config inputs outputs = do
  bound_inputs ← bound_tensors config.batch_size (input_dims config.input_shapes) inputs
  bound_outputs ← bound_tensors config.batch_size (output_dims config.output_shapes) outputs
  ok (bound_inputs, bound_outputs)

-- The CPU of the next session thread, and the counter after it.
unfoldable pub next_pin : Option (List ℕ) → ℕ → Result LoadError (Option ℕ × ℕ)
next_pin none counter = ok (none, counter)
next_pin (some []) counter = ok (none, counter)
next_pin (some (c ∷ cs)) counter = elim (get_elem? (c ∷ cs) (counter % length (c ∷ cs))) [
  | none ↦ panic
  | some core ↦ ok (some core, (counter + 1) % usize_mod)
]
