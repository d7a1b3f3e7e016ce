-- ===== src/ModelRepository/S3.antt =====
-- The S3 repository of src/model_repository/repository.rs, on texts as lists of characters. The
-- object store, the parser of configurations and the local cache are arguments.
pub mod Sibling
use toutates.Base.{
  ℕ, ◌^◌, ◌==◌, ltb, if◌then◌else◌, List, [], ◌∷◌, ◌++◌, Option, none, some, Result, ok, err, ok_or,
  ensure, ◌>>=◌, ◌>>◌, Bool, true, false, not, ◌&&◌,
}
use toutates.Base.Chars.{Chars, is_empty, split, parse_unsigned, to_chars, strip_prefix}
use toutates.ModelRuntime.{ModelRepositoryConfig}

abbrev pub slash : ℕ
slash = 47

-- "config.yaml" and "model.onnx"
abbrev config_yaml : Chars
config_yaml = 99 ∷ 111 ∷ 110 ∷ 102 ∷ 105 ∷ 103 ∷ 46 ∷ 121 ∷ 97 ∷ 109 ∷ 108 ∷ []

abbrev model_onnx : Chars
model_onnx = 109 ∷ 111 ∷ 100 ∷ 101 ∷ 108 ∷ 46 ∷ 111 ∷ 110 ∷ 110 ∷ 120 ∷ []

abbrev pub same_chars : Chars → Chars → Bool
same_chars [] [] = true
same_chars (c ∷ cs) (d ∷ ds) = if c == d then same_chars cs ds else false
same_chars _ _ = false

abbrev pub has_chars : List Chars → Chars → Bool
has_chars [] s = false
has_chars (x ∷ xs) s = if same_chars x s then true else has_chars xs s

-- `trim_start_matches('/')`
unfoldable pub trim_slashes : Chars → Chars
trim_slashes [] = []
trim_slashes (c ∷ cs) = let rest = trim_slashes cs in if c == slash then rest else c ∷ cs

abbrev first_piece : List Chars → Chars
first_piece [] = []
first_piece (p ∷ ps) = p

-- What comes after a prefix of a path, up to the next `/`.
unfoldable pub segment_after : Chars → Chars → Option Chars
unfolding trim_slashes
segment_after prefix path = elim (strip_prefix prefix path) [
  | none ↦ none
  | some rest ↦ some (first_piece (split slash (trim_slashes rest)))
]

-- The object store: `list` gives the paths below a prefix, `none` within for an entry that cannot be
-- read; `read_file` the bytes of a key.
pub record Store (Bytes : Type 0) : Type 0 where
  pub list : Chars → Option (List (Option Chars))
  pub read_file : Chars → Option Bytes
  pub parse_config : Bytes → Option ModelRepositoryConfig
  -- `create_dir_all` and `write` of a model and version in the local cache.
  pub write_cache : Chars → ℕ → Bytes → Bool

pub record S3Model : Type 0 where
  pub name : Chars
  pub version : ℕ
  pub config : ModelRepositoryConfig

pub data S3Error : Type 0 where
  list_failed entry_failed config_not_fetched config_not_parsed no_version model_not_fetched :
      S3Error
  cache_failed : S3Error

-- `parse::<u64>` of the segment that stands for a version.
unfoldable pub version_of : Chars → Chars → Option ℕ
unfolding segment_after
version_of model_prefix path = elim (segment_after model_prefix path) [
  | none ↦ none
  | some segment ↦ parse_unsigned (2 ^ 64) segment
]

unfoldable pub later : Option ℕ → Option ℕ → Option ℕ
later latest none = latest
later none (some v) = some v
later (some cur) (some v) = if ltb cur v then some v else some cur

unfoldable pub latest_of : Chars → List (Option Chars) → Option ℕ → Result S3Error (Option ℕ)
unfolding version_of later
latest_of model_prefix [] latest = ok latest
latest_of model_prefix (none ∷ es) latest = err entry_failed
latest_of model_prefix (some path ∷ es) latest =
    latest_of model_prefix es (later latest (version_of model_prefix path))

-- `HashSet::insert`
abbrev insert_name : Chars → List Chars → List Chars
insert_name name names = if has_chars names name then names else name ∷ names

abbrev wanted : Option (List Chars) → Chars → Bool
wanted none name = true
wanted (some filter) name = has_chars filter name

-- The names in the order of a list; the order of a `HashSet` is not specified.
unfoldable pub model_names :
    Chars → Option (List Chars) → List (Option Chars) → List Chars → Result S3Error (List Chars)
unfolding segment_after
model_names prefix filter [] names = ok names
model_names prefix filter (none ∷ es) names = err entry_failed
model_names prefix filter (some path ∷ es) names =
    model_names prefix filter es (elim (segment_after prefix path) [
      | none ↦ names
      | some name ↦
          if not (is_empty name) && wanted filter name then insert_name name names else names
    ])

module _ {Bytes : Type 0} (store : Store Bytes) (prefix : Chars) where
  unfoldable pub s3_load_model : Chars → Result S3Error S3Model
  unfolding latest_of
  s3_load_model name = do
    let model_prefix = prefix ++ (slash ∷ name)
    config_bytes ←
        ok_or (store.read_file (model_prefix ++ (slash ∷ config_yaml))) config_not_fetched
    config ← ok_or (store.parse_config config_bytes) config_not_parsed
    entries ← ok_or (store.list model_prefix) list_failed
    latest ← latest_of model_prefix entries none
    version ← ok_or latest no_version
    onnx ←
        ok_or (store.read_file (model_prefix ++ (slash ∷ to_chars version ++ (slash ∷ model_onnx))))
          model_not_fetched
    ensure (store.write_cache name version onnx) cache_failed
    ok (record { name = name; version = version; config = config })

  unfoldable pub load_names : List Chars → Result S3Error (List S3Model)
  unfolding s3_load_model
  load_names [] = ok []
  load_names (n ∷ ns) = do model ← s3_load_model n; rest ← load_names ns; ok (model ∷ rest)

  -- `ModelRepository::load_all`
  unfoldable pub s3_load_all : Option (List Chars) → Result S3Error (List S3Model)
  unfolding model_names load_names
  s3_load_all filter = do
    entries ← ok_or (store.list prefix) list_failed
    names ← model_names prefix filter entries []
    load_names names
