-- ===== src/ModelRepository.antt =====
-- src/model_repository/repository.rs: which version of a model the local repository loads, and with
-- which configuration. What the file system answers is an argument.
pub mod Latest
pub mod S3
use toutates.Base.{
  ℕ, ltb, if◌then◌else◌, List, [], ◌∷◌, Option, none, some, Result, ok, err, ok_or, ensure, ◌>>=◌,
  ◌>>◌, Bool, true, false, String,
}
use toutates.ModelRuntime.{ModelRepositoryConfig}

-- An entry of a directory.
pub record Entry : Type 0 where
  pub name : String
  pub is_dir : Bool

-- The file that a configuration is read from.
pub data ConfigPath : Type 0 where
  version_config : ℕ → ConfigPath
  model_config : ConfigPath

pub data RepositoryError : Type 0 where
  read_dir_failed : RepositoryError
  no_version : String → RepositoryError
  config_not_read : ConfigPath → RepositoryError
  config_not_parsed : ConfigPath → RepositoryError
  model_not_found : ℕ → RepositoryError

-- The directory of a model. A `none` of `entries` is an error of `read_dir` or of an entry; `read`
-- gives nothing for an unreadable file, and `none` within for one that does not parse.
pub record ModelDir : Type 0 where
  pub entries : Option (List Entry)
  pub has_config : ℕ → Bool
  pub read : ConfigPath → Option (Option ModelRepositoryConfig)
  pub has_model : ℕ → Bool

pub record LoadedModel : Type 0 where
  pub name : String
  pub version : ℕ
  pub config : ModelRepositoryConfig

-- `parse::<u64>` is the parameter `parse`.
module _ (parse : String → Option ℕ) where
  -- `if latest_version.map_or(true, |cur| v > cur)`
  unfoldable pub later_version : Option ℕ → ℕ → Option ℕ
  later_version none v = some v
  later_version (some cur) v = if ltb cur v then some v else some cur

  unfoldable pub latest_version : List Entry → Option ℕ → Option ℕ
  unfolding later_version
  latest_version [] latest = latest
  latest_version (e ∷ es) latest = latest_version es (
      if e.is_dir
      then (elim (parse e.name) [ none ↦ latest | some v ↦ later_version latest v ])
      else latest)

  -- `LocalModelRepository::load_model`
  unfoldable pub load_model : ModelDir → String → Result RepositoryError LoadedModel
  unfolding latest_version
  load_model dir model_name = do
    entries ← ok_or dir.entries read_dir_failed
    version ← ok_or (latest_version entries none) (no_version model_name)
    let path = if dir.has_config version then version_config version else model_config
    bytes ← ok_or (dir.read path) (config_not_read path)
    config ← ok_or bytes (config_not_parsed path)
    ensure (dir.has_model version) (model_not_found version)
    ok (record { name = model_name; version = version; config = config })

  -- `load_all`, for the entries of the root and the directory of each model; a name is valid UTF-8.
  unfoldable pub load_all :
      (String → ModelDir) → List Entry → Result RepositoryError (List LoadedModel)
  unfolding load_model
  load_all dirs [] = ok []
  load_all dirs (e ∷ es) =
      let rest = load_all dirs es in
      if e.is_dir
      then (load_model (dirs e.name) e.name >>= (λ model. rest >>= (λ models. ok (model ∷ models))))
      else rest
