-- ===== src/Tests/Store.antt =====
-- An object store with the models "f", in version 1, and "f2", in version 3.
use toutates.Base.{
  ℕ, ◌++◌, List, [], ◌∷◌, Option, none, some, ok, err, if◌then◌else◌, ◌≡◌, refl, true, arith,
}
use toutates.Base.Chars.{
  Chars, strip_prefix, split, parse_unsigned, parse_digits, to_chars, decimal,
}
use toutates.ModelRuntime.{ModelRepositoryConfig, cuda}
use toutates.ModelRepository.S3.{
  slash, same_chars, trim_slashes, segment_after, Store, model_not_fetched, version_of, later,
  latest_of, model_names, s3_load_model, load_names, s3_load_all,
}
use toutates.ModelRepository.S3.Sibling.{version_of-sibling}

-- "m", the prefix of the repository, and "m/f"
abbrev repository : Chars
repository = 109 ∷ []

abbrev model_f : Chars
model_f = 109 ∷ 47 ∷ 102 ∷ []

-- "m/f/1/x" and "m/f2/3/x"
abbrev paths : List (Option Chars)
paths =
    some (109 ∷ 47 ∷ 102 ∷ 47 ∷ 49 ∷ 47 ∷ 120 ∷ [])
    ∷ some (109 ∷ 47 ∷ 102 ∷ 50 ∷ 47 ∷ 51 ∷ 47 ∷ 120 ∷ [])
    ∷ []

abbrev config : ModelRepositoryConfig
config = record {
  batch_size = 4;
  capacity = 2;
  num_executors = 1;
  allocator = cuda;
  profiling = none;
  input_shapes = [];
  output_shapes = [];
}

-- "m/f/2/model.onnx" is no key.
abbrev no_key : Chars
no_key =
    109 ∷ 47 ∷ 102 ∷ 47 ∷ 50 ∷ 47 ∷ 109 ∷ 111 ∷ 100 ∷ 101 ∷ 108 ∷ 46 ∷ 111 ∷ 110 ∷ 110 ∷ 120 ∷ []

-- A store that lists by the prefix of the texts, whatever the folder.
abbrev store : Store ℕ
store = record {
  list = λ prefix. some paths;
  read_file = λ key. if same_chars key no_key then none else some 0;
  parse_config = λ bytes. some config;
  write_cache = λ name version bytes. true;
}

abbrev f2_only : List Chars
f2_only = (102 ∷ 50 ∷ []) ∷ []

s3_load_all-f2 :
    s3_load_all store repository (some f2_only)
    ≡ ok (record { name = 102 ∷ 50 ∷ []; version = 3; config = config } ∷ [])
unfolding s3_load_all s3_load_model load_names latest_of later model_names version_of segment_after
    trim_slashes strip_prefix split parse_unsigned parse_digits to_chars decimal
s3_load_all-f2 = refl

-- The version of "f2" in its name is taken for one of "f".
s3_load_model-f : s3_load_model store repository (102 ∷ []) ≡ err model_not_fetched
unfolding s3_load_all s3_load_model load_names latest_of later model_names version_of segment_after
    trim_slashes strip_prefix split parse_unsigned parse_digits to_chars decimal
s3_load_model-f = refl

version_of-sibling_example :
    (version_of model_f (model_f ++ (slash ∷ to_chars 2 ++ (slash ∷ 120 ∷ []))) ≡ some 2)
    × (version_of model_f (model_f ++ (to_chars 2 ++ (slash ∷ 120 ∷ []))) ≡ some 2)
version_of-sibling_example = version_of-sibling model_f (120 ∷ []) 2 (omega arith)
