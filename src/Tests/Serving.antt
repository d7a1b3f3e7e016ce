-- ===== src/Tests/Serving.antt =====
-- A request of two inputs to a loaded model, and a plan of four pairs on two nodes.
use toutates.Base.{
  ◌^◌, ℕ, ◌≤◌, ◌<◌, List, [], ◌∷◌, length, some, ok, err, true, false, ◌≡◌, ◌↔◌, refl, arith,
  String,
}
use toutates.Base.Int.{pos, negsuc}
use toutates.Tensor.DataType.{
  DataType, type_fp32, from_str, to_metadata_string, from_str_name, as_str_name,
  from_str-to_metadata_string, from_str_name-as_str_name,
}
use toutates.Tensor.Bytes.{TensorBytes}
use toutates.SuperTensor.Infer.{client_batch_size}
use toutates.Grpc.{
  not_found, invalid_argument, model_not_found, ModelInput, ModelProxy, ModelMap, lookup,
  InferInput, InferRequest, find_input, validate_inputs, prepare_request,
}
use toutates.Grpc.Validate.{AllValid, validate_inputs_iff, prepare_request-err_iff, IsRefused}
use toutates.Tests.{elements}
use toutates.Grpc.Infer.{requests_not_found, Answer, Clock, model_infer}
use toutates.Grpc.{Status}
use toutates.Grpc.Handlers.{
  model_config, model_ready, ready, answer_server, repository_model_load, loaded, answer_admin,
}
use toutates.Grpc.Counted.{counted, model_infer-counted}
use toutates.Grpc.Prepared.{AllFit, prepare_request-ok, prepare_request-client_batch_size}
use toutates.Topology.{SmtGroup, Pair, contains, could_not_place, plan_pairs}
use toutates.Topology.Plan.{plan_capacity, plan_pairs-ok_iff}
use toutates.Topology.Uses.{occurs, uses, plan_pairs-uses}

abbrev config : List ModelInput
config =
    record { name = "ids"; dims = negsuc 0 ∷ pos 2 ∷ [] }
    ∷ record { name = "mask"; dims = negsuc 0 ∷ pos 1 ∷ [] }
    ∷ []

abbrev proxy : ModelProxy
proxy = record {
  config_name = "bert";
  config_input = config;
  input_meta = [];
  output_meta = [];
  input_set = ("ids", 0) ∷ ("mask", 1) ∷ [];
}

abbrev models : ModelMap
models = ("bert", proxy) ∷ []

abbrev ids : InferInput
ids = record { name = "ids"; datatype = "UINT8"; shape = pos 3 ∷ pos 2 ∷ [] }

abbrev mask : InferInput
mask = record { name = "mask"; datatype = "UINT8"; shape = pos 3 ∷ pos 1 ∷ [] }

abbrev other : InferInput
other = record mask { name = "other" }

-- The inputs come in the other order than the model's.
abbrev request : List InferInput → InferRequest
request inputs = record {
  model_name = "bert";
  id = "1";
  inputs = inputs;
  raw_input_contents = (7 ∷ 8 ∷ 9 ∷ []) ∷ (1 ∷ 2 ∷ 3 ∷ 4 ∷ 5 ∷ 6 ∷ []) ∷ [];
}

from_str-to_metadata_string_example : from_str (to_metadata_string type_fp32) ≡ type_fp32
from_str-to_metadata_string_example = from_str-to_metadata_string type_fp32

from_str_name-as_str_name_example : from_str_name (as_str_name type_fp32) ≡ some type_fp32
from_str_name-as_str_name_example = from_str_name-as_str_name type_fp32

validate_inputs_iff_example :
    (validate_inputs config (mask ∷ ids ∷ []) ≡ ok tt) ↔ AllValid config (mask ∷ ids ∷ [])
validate_inputs_iff_example = validate_inputs_iff config (mask ∷ ids ∷ [])

prepare_request-err_iff_example :
    ((s : Status) × (prepare_request models (request (other ∷ [])) ≡ err s)
      × (s.code ≡ invalid_argument))
    ↔ IsRefused models (request (other ∷ [])) invalid_argument
prepare_request-err_iff_example =
    prepare_request-err_iff models (request (other ∷ [])) invalid_argument

abbrev prepared : List TensorBytes
prepared =
    record {
      data_type = DataType.type_uint8;
      shape = pos 3 ∷ pos 2 ∷ [];
      content = 1 ∷ 2 ∷ 3 ∷ 4 ∷ 5 ∷ 6 ∷ [];
    }
    ∷ record {
      data_type = DataType.type_uint8;
      shape = pos 3 ∷ pos 1 ∷ [];
      content = 7 ∷ 8 ∷ 9 ∷ [];
    }
    ∷ []

prepare_request-ok_example :
    (lookup "bert" models ≡ some proxy) × AllFit config prepared × (length prepared ≡ 2)
unfolding prepare_request
prepare_request-ok_example =
    prepare_request-ok models (request (mask ∷ ids ∷ [])) proxy prepared refl

no_scalar : (name : String) (m : ModelInput) → find_input config name ≡ some m → 0 < length m.dims
unfolding find_input
no_scalar name m e = ground arith

prepare_request-client_batch_size_example :
    (n : ℕ) × (0 < n) × (n < 2 ^ 63) × (client_batch_size prepared ≡ some n)
unfolding prepare_request
prepare_request-client_batch_size_example =
    prepare_request-client_batch_size models (request (mask ∷ ids ∷ [])) proxy prepared refl
      no_scalar ((omega arith, (omega arith, tt)), ((omega arith, (omega arith, tt)), tt))
      (omega arith)

abbrev groups : List SmtGroup
groups =
    record { vcpus = 0 ∷ 32 ∷ []; numa_node = 0 }
    ∷ record { vcpus = 4 ∷ 36 ∷ []; numa_node = 1 }
    ∷ record { vcpus = 1 ∷ 33 ∷ []; numa_node = 0 }
    ∷ record { vcpus = 5 ∷ 37 ∷ []; numa_node = 1 }
    ∷ []

abbrev allowed : List ℕ
allowed = 0 ∷ 1 ∷ 4 ∷ 5 ∷ 32 ∷ 33 ∷ 36 ∷ 37 ∷ []

plan_pairs-ok_iff_example :
    (plan_capacity allowed groups < 5
      → plan_pairs allowed groups 5 ≡ err (could_not_place 5 (plan_capacity allowed groups)))
    × (5 ≤ plan_capacity allowed groups
        → (ps : List Pair) × (plan_pairs allowed groups 5 ≡ ok ps) × (length ps ≡ 5))
plan_pairs-ok_iff_example = plan_pairs-ok_iff allowed groups 5

abbrev three_pairs : List Pair
three_pairs =
    record { runtime_vcpu = 0; sqpoll_vcpu = 1; numa_node = 0 }
    ∷ record { runtime_vcpu = 32; sqpoll_vcpu = 33; numa_node = 0 }
    ∷ record { runtime_vcpu = 4; sqpoll_vcpu = 5; numa_node = 1 }
    ∷ []

plan_pairs-uses_example :
    (uses (λ n. true) 32 three_pairs ≤ occurs (λ n. true) 32 groups)
    × (contains allowed 32 ≡ false → uses (λ n. true) 32 three_pairs ≡ 0)
unfolding plan_pairs
plan_pairs-uses_example = plan_pairs-uses (λ n. true) 32 allowed groups 3 three_pairs refl

abbrev clock : Clock
clock = record {
  start = 0;
  proxy_aquired = 1;
  serialized = 2;
  queued = 3;
  processed = 4;
  elapsed = 5;
}

-- A request for a model that is not loaded.
abbrev missing : Status
missing = record { code = not_found; message = model_not_found "gpt" }

abbrev refusal : Answer
refusal = record { events = requests_not_found ∷ []; outcome = err missing }

model_infer-counted_example : refusal.events ≡ counted not_found
unfolding model_infer prepare_request
model_infer-counted_example =
    model_infer-counted elements models (record (request (ids ∷ [])) { model_name = "gpt" }) clock
      [] [] refusal missing refl refl

model_config-bert : model_config models "bert" ≡ ok (record { name = "bert"; input = config })
unfolding model_config
model_config-bert = refl

-- A model that is served is reported as not ready.
answer_server-model_ready : answer_server (model_ready "bert") ≡ ok (ready false)
unfolding answer_server
answer_server-model_ready = refl

answer_admin-load : answer_admin repository_model_load ≡ ok loaded
unfolding answer_admin
answer_admin-load = refl
