-- ===== src/Grpc/Handlers.antt =====
-- src/grpc/mod.rs: the handlers that only read the table of models or nothing at all. `todo!()` is a
-- panic.
use toutates.Base.{List, [], ◌∷◌, none, some, Result, ok, err, panic, String, Bool, true, false}
use toutates.Grpc.{not_found, model_not_found, Status, ModelInput, ModelMap, lookup}

-- The configuration in the reply, by the fields of it that the model has.
pub record ModelConfigResponse : Type 0 where
  pub name : String
  pub input : List ModelInput

unfoldable pub model_config : ModelMap → String → Result Status ModelConfigResponse
model_config models name = elim (lookup name models) [
  | some proxy ↦ ok (record { name = proxy.config_name; input = proxy.config_input })
  | none ↦ err (record { code = not_found; message = model_not_found name })
]

pub record ServerMetadataResponse : Type 0 where
  pub name : String
  pub version : String
  pub extensions : List String

-- The requests about the server and the readiness of a model.
pub data ServerRequest : Type 0 where
  server_live server_ready server_metadata : ServerRequest
  model_ready : String → ServerRequest

pub data ServerResponse : Type 0 where
  live ready : Bool → ServerResponse
  metadata : ServerMetadataResponse → ServerResponse

unfoldable pub answer_server : ServerRequest → Result Status ServerResponse
answer_server server_live = ok (live true)
answer_server server_ready = ok (ready true)
answer_server (model_ready name) = ok (ready false)
answer_server server_metadata = ok (
    metadata (record {
      name = "toutates";
      version = "1.0.0-demo";
      extensions = "classification" ∷ "model_repository" ∷ [];
    }))

-- The requests below `model_config`, whose fields no handler reads.
pub data AdminRequest : Type 0 where
  model_statistics repository_index repository_model_load repository_model_unload : AdminRequest
  system_shared_memory_status system_shared_memory_register : AdminRequest
  system_shared_memory_unregister cuda_shared_memory_status : AdminRequest
  cuda_shared_memory_register cuda_shared_memory_unregister : AdminRequest
  trace_setting log_settings : AdminRequest

-- `models` is the reply of the index; the other replies are empty messages.
pub data AdminResponse : Type 0 where
  models : List String → AdminResponse
  loaded unloaded registered unregistered : AdminResponse

unfoldable pub answer_admin : AdminRequest → Result Status AdminResponse
answer_admin model_statistics = panic
answer_admin repository_index = ok (models [])
answer_admin repository_model_load = ok loaded
answer_admin repository_model_unload = ok unloaded
answer_admin system_shared_memory_status = panic
answer_admin system_shared_memory_register = panic
answer_admin system_shared_memory_unregister = panic
answer_admin cuda_shared_memory_status = panic
answer_admin cuda_shared_memory_register = ok registered
answer_admin cuda_shared_memory_unregister = ok unregistered
answer_admin trace_setting = panic
answer_admin log_settings = panic
