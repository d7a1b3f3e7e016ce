-- ===== src/Grpc.antt =====
-- src/grpc/mod.rs: the handlers that read the table of loaded models, up to the tensors that a
-- request hands to the batch buffer, and the reply.
pub mod Infer
pub mod Validate
pub mod Order
pub mod Prepared
pub mod Counted
pub mod Handlers
use toutates.Base.{
  ℕ, suc, ◌==◌, ltb, same_text, if◌then◌else◌, List, [], ◌∷◌, length, get_elem?, Option, none, some,
  Result, ok, err, panic, unwrap, ok_or, ensure, ◌>>=◌, ◌>>◌, String, Bool,
}
use toutates.Base.Int.{ℤ, is_positive, eqb_ℤ}
use toutates.Tensor.Errors.{InferError, ring_full}
use toutates.Tensor.DataType.{DataType, from_str, from_element, as_str_name}
use toutates.Tensor.Bytes.{Bytes, Dims, TensorBytes}
use toutates.SuperTensor.Response.{Metadata}

-- The codes of `pajamax::status::Code` that the handlers use.
pub data Code : Type 0 where
  not_found invalid_argument resource_exhausted internal : Code

-- The texts that the handlers format, by what they are made of.
pub data Message : Type 0 where
  model_not_found : String → Message
  unknown_input : String → Message
  rank_mismatch : String → ℕ → ℕ → Message
  batch_size_not_positive : String → ℤ → Message
  dimension_mismatch : String → ℕ → ℤ → ℤ → Message
  infer_failed : InferError → Message

pub record Status : Type 0 where
  pub code : Code
  pub message : Message

-- `ModelInput`: the fields that are read.
pub record ModelInput : Type 0 where
  pub name : String
  pub dims : Dims

-- `TensorMetadata`
pub record TensorMetadata : Type 0 where
  pub name : String
  pub datatype : String
  pub shape : Dims

-- `ModelProxy` beside its buffer. `input_set` maps the name of an input to its order.
pub record ModelProxy : Type 0 where
  pub config_name : String
  pub config_input : List ModelInput
  pub input_meta : List TensorMetadata
  pub output_meta : List TensorMetadata
  pub input_set : List (String × ℕ)

abbrev pub ModelMap : Type 0
ModelMap = List (String × ModelProxy)

-- `HashMap::get`
abbrev pub lookup {ℓ} : {A : Type ℓ} → String → List (String × A) → Option A
lookup name [] = none
lookup name ((key, a) ∷ rest) = if same_text key name then some a else lookup name rest

pub record InferInput : Type 0 where
  pub name : String
  pub datatype : String
  pub shape : Dims

pub record InferRequest : Type 0 where
  pub model_name : String
  pub id : String
  pub inputs : List InferInput
  pub raw_input_contents : List Bytes

-- `infer_error_to_status`
unfoldable pub infer_error_to_status : InferError → Status
infer_error_to_status e = record {
  code = elim e [ ring_full ↦ resource_exhausted | _ ↦ internal ];
  message = infer_failed e;
}

unfoldable pub find_input : List ModelInput → String → Option ModelInput
find_input [] name = none
find_input (i ∷ is) name = if same_text i.name name then some i else find_input is name

abbrev invalid : Message → Status
invalid m = record { code = invalid_argument; message = m }

-- The loop over the zipped dimensions, from position `i` on.
unfoldable pub check_dims : String → ℕ → Dims → Dims → Result Status (Unit {0})
check_dims name i (r ∷ req) (m ∷ model) =
    let rest = check_dims name (suc i) req model in
    (do
      if i == 0
          then ensure (is_positive r) (invalid (batch_size_not_positive name r))
          else ensure (eqb_ℤ r m) (invalid (dimension_mismatch name i m r))
      rest)
check_dims name i _ _ = ok tt

unfoldable pub validate_input : List ModelInput → InferInput → Result Status (Unit {0})
unfolding find_input check_dims
validate_input config input = do
  model_input ← ok_or (find_input config input.name) (invalid (unknown_input input.name))
  ensure (length input.shape == length model_input.dims)
      (invalid (rank_mismatch input.name (length model_input.dims) (length input.shape)))
  check_dims input.name 0 input.shape model_input.dims

unfoldable pub validate_inputs : List ModelInput → List InferInput → Result Status (Unit {0})
unfolding validate_input
validate_inputs config [] = ok tt
validate_inputs config (i ∷ is) = validate_input config i >> validate_inputs config is

-- An input with its place in the request and its key.
pub record Keyed : Type 0 where
  pub key : ℕ
  pub place : ℕ
  pub input : InferInput

-- `.enumerate()` with the keys looked up; a missing key panics.
unfoldable pub keyed_inputs : List (String × ℕ) → ℕ → List InferInput → Result Status (List Keyed)
keyed_inputs set place [] = ok []
keyed_inputs set place (i ∷ is) = do
  order ← unwrap (lookup i.name set)
  rest ← keyed_inputs set (suc place) is
  ok (record { key = order; place = place; input = i } ∷ rest)

-- `sort_by_key`, which is stable: an element goes before those with a greater or equal key.
unfoldable pub insert_by_key : Keyed → List Keyed → List Keyed
insert_by_key k [] = k ∷ []
insert_by_key k (x ∷ xs) =
    let later = insert_by_key k xs in if ltb x.key k.key then x ∷ later else k ∷ x ∷ xs

unfoldable pub sort_by_key : List Keyed → List Keyed
unfolding insert_by_key
sort_by_key [] = []
sort_by_key (k ∷ ks) = insert_by_key k (sort_by_key ks)

-- The inputs in the order of the model's; a single one is not looked up, as there is nothing to
-- compare.
unfoldable pub sorted_inputs : List (String × ℕ) → List InferInput → Result Status (List Keyed)
unfolding keyed_inputs sort_by_key
sorted_inputs set [] = ok []
sorted_inputs set (i ∷ []) = ok (record { key = 0; place = 0; input = i } ∷ [])
sorted_inputs set (i ∷ j ∷ is) = do keyed ← keyed_inputs set 0 (i ∷ j ∷ is); ok (sort_by_key keyed)

-- The tensors of the request, with `raw_input_contents[i]` for the input at place `i`.
unfoldable pub tensors : List Bytes → List Keyed → Result Status (List TensorBytes)
unfolding from_str
tensors raw [] = ok []
tensors raw (k ∷ ks) = do
  content ← unwrap (get_elem? raw k.place)
  rest ← tensors raw ks
  ok (
      record { data_type = from_str k.input.datatype; shape = k.input.shape; content = content }
      ∷ rest)

-- `model_infer` up to the call of `proxy.data.infer`.
unfoldable pub prepare_request :
    ModelMap → InferRequest → Result Status (ModelProxy × List TensorBytes)
unfolding validate_inputs sorted_inputs tensors
prepare_request models request = do
  proxy ←
      ok_or (lookup request.model_name models)
        (record { code = not_found; message = model_not_found request.model_name })
  validate_inputs proxy.config_input request.inputs
  sorted ← sorted_inputs proxy.input_set request.inputs
  inputs ← tensors request.raw_input_contents sorted
  ok (proxy, inputs)

-- `InferOutputTensor`
pub record InferOutput : Type 0 where
  pub name : String
  pub datatype : String
  pub shape : Dims

-- The outputs zipped with their metadata: the longer of the two is cut.
unfoldable pub output_tensors : List Metadata → List TensorMetadata → List InferOutput
unfolding as_str_name from_element
output_tensors (m ∷ ms) (t ∷ ts) =
    record { name = t.name; datatype = as_str_name (from_element m.data_type); shape = m.shape }
    ∷ output_tensors ms ts
output_tensors _ _ = []

pub record InferResponse : Type 0 where
  pub model_name : String
  pub id : String
  pub outputs : List InferOutput
  pub raw_output_contents : List Bytes

pub record MetadataResponse : Type 0 where
  pub name : String
  pub inputs : List TensorMetadata
  pub outputs : List TensorMetadata

-- `model_metadata`
unfoldable pub model_metadata : ModelMap → String → Result Status MetadataResponse
model_metadata models name = elim (lookup name models) [
  | some proxy ↦ ok (record { name = name; inputs = proxy.input_meta; outputs = proxy.output_meta })
  | none ↦ err (record { code = not_found; message = model_not_found name })
]
