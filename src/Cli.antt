-- ===== src/Cli.antt =====
-- src/cli.rs: the arguments that the program's own code reads after `clap` has parsed them.
use toutates.Base.{
  ℕ, same_text, if◌then◌else◌, List, Option, none, some, Result, ok, err, Bool, ◌≡◌, refl, String,
}

pub data ExecutionProviderKind : Type 0 where
  cpu cuda tensorrt : ExecutionProviderKind

-- `Args`, less the sizes that are only handed on to the server and to ONNX Runtime.
pub record Args : Type 0 where
  pub processing_cores : ℕ
  pub executor_cores : ℕ
  pub ort_intra_threads : ℕ
  pub model_repository : Option String
  pub s3_endpoint : Option String
  pub s3_bucket : Option String
  pub s3_prefix : String
  pub s3_region : String
  pub model_cache_dir : String
  pub load_models : Option (List String)
  pub execution_providers : List ExecutionProviderKind
  pub cpu_pinning : Bool
  pub sqpoll_enabled : Bool

pub data UnknownProvider : Type 0 where
  unknown_provider : String → UnknownProvider

-- `str::to_lowercase` is a parameter.
unfoldable pub provider_from_str :
    (String → String) → String → Result UnknownProvider ExecutionProviderKind
provider_from_str to_lowercase s =
    let lower = to_lowercase s in
    if same_text lower "cpu"
    then ok cpu
    else if same_text lower "cuda"
    then ok cuda
    else if same_text lower "tensorrt"
    then ok tensorrt
    else if same_text lower "trt"
    then ok tensorrt
    else err (unknown_provider lower)

unfoldable pub provider_to_str : ExecutionProviderKind → String
provider_to_str cpu = "cpu"
provider_to_str cuda = "cuda"
provider_to_str tensorrt = "tensorrt"

pub record S3Source : Type 0 where
  pub endpoint : String
  pub bucket : String
  pub prefix : String
  pub region : String
  pub cache_dir : String

pub data ModelSource : Type 0 where
  local : String → ModelSource
  s3 : S3Source → ModelSource

-- `none`: the process exits with status 1.
unfoldable pub model_source : Args → Option ModelSource
model_source args = elim args.model_repository [
  | some path ↦ some (local path)
  | none ↦ elim args.s3_endpoint [
    | none ↦ none
    | some endpoint ↦ elim args.s3_bucket [
      | none ↦ none
      | some bucket ↦ some (
          s3 (record {
            endpoint = endpoint;
            bucket = bucket;
            prefix = args.s3_prefix;
            region = args.s3_region;
            cache_dir = args.model_cache_dir;
          }))
    ]
  ]
]

-- What is printed is read back, where lower case leaves the three printed texts as they are.
pub provider_from_str-to_str :
    (to_lowercase : String → String) (k : ExecutionProviderKind)
    → to_lowercase (provider_to_str k) ≡ provider_to_str k
    → provider_from_str to_lowercase (provider_to_str k) ≡ ok k
unfolding provider_from_str provider_to_str
provider_from_str-to_str to_lowercase cpu e = rw e refl
provider_from_str-to_str to_lowercase cuda e = rw e refl
provider_from_str-to_str to_lowercase tensorrt e = rw e refl
