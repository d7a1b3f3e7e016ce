-- ===== src/Tests/Versions.antt =====
-- A model directory with two versions, a file and a directory that is no version.
use toutates.Base.{
  ℕ, ◌≤◌, same_text, if◌then◌else◌, List, [], ◌∷◌, Option, none, some, ◌≡◌, refl, true, false, ◌==◌,
  String,
}
use toutates.ModelRuntime.{ModelRepositoryConfig, cuda}
use toutates.ModelRepository.{
  Entry, ConfigPath, version_config, model_config, ModelDir, LoadedModel, load_model,
}
use toutates.ModelRepository.Latest.{IsVersion, load_model-latest}

abbrev parse : String → Option ℕ
parse s = if same_text s "9" then some 9 else if same_text s "10" then some 10 else none

abbrev config : ModelRepositoryConfig
config = record {
  batch_size = 4;
  capacity = 2;
  num_executors = 1;
  allocator = cuda;
  profiling = none;
  input_shapes = [];
  output_shapes = [];
}

abbrev entries : List Entry
entries =
    record { name = "9"; is_dir = true }
    ∷ record { name = "10"; is_dir = true }
    ∷ record { name = "notes"; is_dir = true }
    ∷ record { name = "config.yaml"; is_dir = false }
    ∷ []

-- Only version 9 has a configuration of its own.
abbrev read : ConfigPath → Option (Option ModelRepositoryConfig)
read (version_config v) = if v == 9 then some none else none
read model_config = some (some config)

abbrev dir : ModelDir
dir = record {
  entries = some entries;
  has_config = λ v. v == 9;
  read = read;
  has_model = λ v. true;
}

abbrev ten : LoadedModel
ten = record { name = "matmul"; version = 10; config = config }

load_model-latest_example :
    (es : List Entry) × (some entries ≡ some es)
    × IsVersion parse 10 es
    × ((w : ℕ) → IsVersion parse w es → w ≤ 10)
    × (dir.has_model 10 ≡ true)
    × (read (if dir.has_config 10 then version_config 10 else model_config) ≡ some (some config))
    × (ten.name ≡ "matmul")
unfolding load_model
load_model-latest_example = load_model-latest parse dir "matmul" ten refl
