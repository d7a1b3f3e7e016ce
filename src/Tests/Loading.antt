-- ===== src/Tests/Loading.antt =====
-- A model of one input, loaded into a ring of two batches of four slots.
use toutates.Base.{
  none, ℕ, ◌+◌, ◌-◌, ◌/◌, ◌^◌, ◌<◌, List, [], ◌∷◌, length, replicate, ok, ◌≡◌, refl, arith,
  usize_mod,
}
use toutates.Base.Int.{pos, negsuc}
use toutates.Tensor.Element.{ElementType, uint8}
use toutates.Tensor.Bytes.{Bytes, Dims}
use toutates.Tensor.Copy.{BatchableTensor}
use toutates.SuperTensor.Index.{masks_of}
use toutates.SuperTensor.Index.Power.{is_power_of_two_iff}
use toutates.SuperTensor.Index.Position.{IsRing}
use toutates.SuperTensor.Buffer.{SuperTensorBuffer, new_batch_state}
use toutates.SuperTensor.Construct.{Outlet, tensor, Overrides, batch_inputs, new_with_overrides}
use toutates.SuperTensor.Construct.Fresh.{IsFresh, new_with_overrides-IsFresh}
use toutates.SuperTensor.Executor.{metrics_snapshot}
use toutates.SuperTensor.Executor.Snapshot.{metrics_snapshot_lem}
use toutates.Grpc.{ModelProxy, Keyed, InferInput, keyed_inputs, find_input}
use toutates.ModelRuntime.{ModelRepositoryConfig, cuda, build_proxy, bound_tensors, input_dims}
use toutates.ModelRuntime.Known.{build_proxy-keyed_inputs}
use toutates.ModelRuntime.Shapes.{SameRanks, Agree, batch_inputs-Agree}
use toutates.Tests.{eight_zeros, tracker, ring}

abbrev pub zeros : ElementType → Dims → Bytes
zeros ty dims = replicate 8 0

abbrev pub pairs : Outlet
pairs = record { name = "pairs"; dtype = tensor uint8 (negsuc 0 ∷ negsuc 0 ∷ []) }

-- The second dimension is dynamic in the model, and given by the configuration.
abbrev pub overrides : Overrides
overrides = ("pairs", negsuc 0 ∷ pos 2 ∷ []) ∷ []

abbrev pub config : ModelRepositoryConfig
config = record {
  batch_size = 4;
  capacity = 2;
  num_executors = 1;
  allocator = cuda;
  profiling = none;
  input_shapes = overrides;
  output_shapes = [];
}

abbrev pub fresh : SuperTensorBuffer
fresh = ring 0 0 0 (tracker 0 0 0 ∷ tracker 0 0 1 ∷ [])

pub made : new_with_overrides zeros 2 4 (pairs ∷ []) overrides ≡ ok fresh
unfolding new_with_overrides new_batch_state
made = rw ((is_power_of_two_iff 2).1 (1, refl), (is_power_of_two_iff 4).1 (2, refl)) refl

new_with_overrides-IsFresh_example :
    IsRing 2 4
    × (fresh.masks ≡ masks_of 2 4)
    × ((fresh.capacity ≡ 2) × (fresh.batch_size ≡ 4))
    × ((fresh.head ≡ 0) × (fresh.executor_head ≡ 0) × (fresh.tail ≡ 0))
    × (length fresh.trackers ≡ 2)
    × ((tensors : List BatchableTensor) × (batch_inputs zeros 4 overrides (pairs ∷ []) ≡ ok tensors)
        × ((i : ℕ) → i < 2 → IsFresh fresh tensors i))
new_with_overrides-IsFresh_example =
    new_with_overrides-IsFresh zeros 2 4 (pairs ∷ []) overrides fresh (omega arith) made

abbrev pub proxy : ModelProxy
proxy = record {
  config_name = "m";
  config_input = record { name = "pairs"; dims = negsuc 0 ∷ pos 2 ∷ [] } ∷ [];
  input_meta = record { name = "pairs"; datatype = "UINT8"; shape = negsuc 0 ∷ pos 2 ∷ [] } ∷ [];
  output_meta = [];
  input_set = ("pairs", 0) ∷ [];
}

abbrev asked : List InferInput
asked = record { name = "pairs"; datatype = "UINT8"; shape = pos 3 ∷ pos 2 ∷ [] } ∷ []

build_proxy-keyed_inputs_example :
    (ks : List Keyed) × (keyed_inputs proxy.input_set 0 asked ≡ ok ks)
unfolding build_proxy find_input
build_proxy-keyed_inputs_example =
    build_proxy-keyed_inputs "m" config (pairs ∷ []) [] proxy asked refl
      ((record { name = "pairs"; dims = negsuc 0 ∷ pos 2 ∷ [] }, refl, (refl, refl)), tt)

two_dimensions : SameRanks overrides (pairs ∷ [])
two_dimensions = (λ ty shape dims e found. ground arith, tt)

batch_inputs-Agree_example :
    Agree
      (eight_zeros ∷ [])
      (record { name = "pairs"; dtype = uint8; shape = pos 4 ∷ pos 2 ∷ [] } ∷ [])
unfolding batch_inputs bound_tensors input_dims
batch_inputs-Agree_example =
    batch_inputs-Agree zeros 4 overrides (pairs ∷ []) (eight_zeros ∷ [])
      (record { name = "pairs"; dtype = uint8; shape = pos 4 ∷ pos 2 ∷ [] } ∷ []) two_dimensions
      refl refl

-- A head that has wrapped, six slots past a tail that has not.
abbrev wrapped : SuperTensorBuffer
wrapped = ring 2 8 (2 ^ 64 - 4) (tracker 1 4 0 ∷ tracker 1 2 1 ∷ [])

metrics_snapshot_lem_example :
    ((2 ^ 64 + 2) / usize_mod ≡ (2 ^ 64 - 4) / usize_mod
      → (metrics_snapshot wrapped).inflight ≡ 2 ^ 64 + 2 - (2 ^ 64 - 4))
    × ((2 ^ 64 - 4) / usize_mod < (2 ^ 64 + 2) / usize_mod
        → (metrics_snapshot wrapped).inflight ≡ 0)
metrics_snapshot_lem_example =
    metrics_snapshot_lem (2 ^ 64 - 4) (2 ^ 64 + 2) wrapped (omega arith) (omega arith) (omega arith)
      (omega arith) (omega arith)
