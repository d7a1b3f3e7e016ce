-- ===== src/Grpc/Validate.antt =====
-- What a request must be for the handler of src/grpc/mod.rs to pass it on, and what is then certain
-- of its tensors.
use toutates.Base.{
  ℕ, suc, List, [], ◌∷◌, length, none, some, Result, ok, err, ensure, ◌>>=◌, ◌>>◌, ◌==◌,
  if◌then◌else◌, Bool, false, sym, ◌∙◌, bind-err, String, true, ◌≡◌, ◌≢◌, ◌↔◌, ◌⊎◌, inl, inr, refl,
  ap, arith, Option-cases,
}
use toutates.Base.Int.{is_positive, eqb_ℤ, eqb_ℤ_iff}
use toutates.Tensor.Bytes.{Bytes, Dims, TensorBytes}
use toutates.Grpc.{
  Code, unknown_input, validate_input, not_found, invalid_argument, model_not_found, Status,
  ModelInput, ModelProxy, ModelMap, lookup, InferInput, InferRequest, find_input, check_dims,
  validate_input, validate_inputs, prepare_request, Keyed, keyed_inputs, sorted_inputs, tensors,
  sort_by_key,
}

-- A request's shape fits a model's: a positive batch dimension, and the model's other dimensions.
abbrev pub Fits : Dims → Dims → Type 0
Fits [] [] = Unit {0}
Fits [] (m ∷ ms) = ⊥
Fits (r ∷ rs) [] = ⊥
Fits (r ∷ rs) (m ∷ ms) = (is_positive r ≡ true) × (rs ≡ ms)

-- The input is one that the model has, and its shape fits.
abbrev pub IsValid : List ModelInput → InferInput → Type 0
IsValid config input =
    (m : ModelInput) × (find_input config input.name ≡ some m) × Fits input.shape m.dims

abbrev pub AllValid : List ModelInput → List InferInput → Type 0
AllValid config [] = Unit {0}
AllValid config (i ∷ is) = IsValid config i × AllValid config is

check_dims-tail :
    (name : String) (i : ℕ) (req model : Dims)
    → length req ≡ length model
    → (check_dims name (suc i) req model ≡ ok tt) ↔ (req ≡ model)
unfolding check_dims
check_dims-tail name i [] [] e = (λ _. refl, λ _. refl)
check_dims-tail name i [] (m ∷ ms) e = absurd (omega arith)
check_dims-tail name i (r ∷ rs) [] e = absurd (omega arith)
check_dims-tail name i (r ∷ rs) (m ∷ ms) e =
    ground (arith, check_dims-tail name (suc i) rs ms, eqb_ℤ_iff r m)

check_dims_iff :
    (name : String) (req model : Dims)
    → length req ≡ length model
    → (check_dims name 0 req model ≡ ok tt) ↔ Fits req model
unfolding check_dims
check_dims_iff name [] [] e = (λ _. tt, λ _. refl)
check_dims_iff name [] (m ∷ ms) e = absurd (omega arith)
check_dims_iff name (r ∷ rs) [] e = absurd (omega arith)
check_dims_iff name (r ∷ rs) (m ∷ ms) e = ground (arith, check_dims-tail name 0 rs ms)

Fits-length : (req model : Dims) → Fits req model → length req ≡ length model
Fits-length [] [] f = refl
Fits-length [] (m ∷ ms) f = absurd f
Fits-length (r ∷ rs) [] f = absurd f
Fits-length (r ∷ rs) (m ∷ ms) (_, e) = ap (λ t. suc (length t)) e

validate_input_iff :
    (config : List ModelInput) (input : InferInput)
    → (validate_input config input ≡ ok tt) ↔ IsValid config input
unfolding validate_input
validate_input_iff config input = (
  λ e. elim (Option-cases (find_input config input.name)) [
    | inl missing ↦ absurd (ground arith)
    | inr (m, found) ↦ (m, found, ground (arith, check_dims_iff input.name input.shape m.dims))
  ],
  λ (m, found, fits). ground (
    arith,
    found,
    check_dims_iff input.name input.shape m.dims,
    Fits-length input.shape m.dims fits,
  ),
)

-- The checks accept a list of inputs exactly when each of them is one that the model has, with as
-- many dimensions, a positive first one, and the model's others.
pub validate_inputs_iff :
    (config : List ModelInput) (inputs : List InferInput)
    → (validate_inputs config inputs ≡ ok tt) ↔ AllValid config inputs
unfolding validate_inputs
validate_inputs_iff config [] = (λ _. tt, λ _. refl)
validate_inputs_iff config (i ∷ is) =
    ground (arith, validate_input_iff config i, validate_inputs_iff config is)

-- A check that accepts, or refuses with the code for an invalid argument.
abbrev Checked : Result Status (Unit {0}) → Type 0
Checked r = (r ≡ ok tt) ⊎ ((s : Status) × (r ≡ err s) × (s.code ≡ invalid_argument))

Checked-ensure : (t : Bool) (s : Status) → s.code ≡ invalid_argument → Checked (ensure t s)
Checked-ensure true s e = inl refl
Checked-ensure false s e = inr (s, refl, e)

Checked-then : (r k : Result Status (Unit {0})) → Checked r → Checked k → Checked (r >> k)
Checked-then r k (inl e) c = rw e c
Checked-then r k (inr (s, e, code)) c = inr (s, rw e refl, code)

Checked-if :
    (t : Bool) (r k : Result Status (Unit {0}))
    → Checked r
    → Checked k
    → Checked (if t then r else k)
Checked-if true r k c d = c
Checked-if false r k c d = d

check_dims-Checked :
    (name : String) (i : ℕ) (req model : Dims) → Checked (check_dims name i req model)
unfolding check_dims
check_dims-Checked name i [] model = inl refl
check_dims-Checked name i (r ∷ rs) [] = inl refl
check_dims-Checked name i (r ∷ rs) (m ∷ ms) =
    Checked-then _ (check_dims name (suc i) rs ms)
      (Checked-if (i == 0) _ _ (Checked-ensure (is_positive r) _ refl)
        (Checked-ensure (eqb_ℤ r m) _ refl))
      (check_dims-Checked name (suc i) rs ms)

validate_input-Checked :
    (config : List ModelInput) (input : InferInput) → Checked (validate_input config input)
unfolding validate_input
validate_input-Checked config input = elim (Option-cases (find_input config input.name)) [
  | inl missing ↦ inr (
    record { code = invalid_argument; message = unknown_input input.name },
    rw missing refl,
    refl,
  )
  | inr (m, found) ↦ rw found (
      Checked-then _ (check_dims input.name 0 input.shape m.dims)
        (Checked-ensure (length input.shape == length m.dims) _ refl)
        (check_dims-Checked input.name 0 input.shape m.dims))
]

validate_inputs-Checked :
    (config : List ModelInput) (inputs : List InferInput) → Checked (validate_inputs config inputs)
unfolding validate_inputs
validate_inputs-Checked config [] = inl refl
validate_inputs-Checked config (i ∷ is) =
    Checked-then (validate_input config i) (validate_inputs config is)
      (validate_input-Checked config i) (validate_inputs-Checked config is)

keyed_inputs-err :
    (set : List (String × ℕ)) (place : ℕ) (inputs : List InferInput) (s : Status)
    → keyed_inputs set place inputs ≢ err s
unfolding keyed_inputs
keyed_inputs-err set place [] s e = ground arith
keyed_inputs-err set place (i ∷ is) s e = ground (arith, keyed_inputs-err set (suc place) is s)

sorted_inputs-err :
    (set : List (String × ℕ)) (inputs : List InferInput) (s : Status)
    → sorted_inputs set inputs ≢ err s
unfolding sorted_inputs
sorted_inputs-err set [] s e = ground arith
sorted_inputs-err set (i ∷ []) s e = ground arith
sorted_inputs-err set (i ∷ j ∷ is) s e =
    bind-err {B = List Keyed} (keyed_inputs set 0 (i ∷ j ∷ is)) (λ keyed. ok (sort_by_key keyed)) s
      (keyed_inputs-err set 0 (i ∷ j ∷ is) s) (λ keyed e. ground arith) e

tensors-err : (raw : List Bytes) (ks : List Keyed) (s : Status) → tensors raw ks ≢ err s
unfolding tensors
tensors-err raw [] s e = ground arith
tensors-err raw (k ∷ ks) s e = ground (arith, tensors-err raw ks s)

-- Once the model is found, an error is one of the checks on its inputs.
refused_input :
    (models : ModelMap) (request : InferRequest) (proxy : ModelProxy) (s : Status)
    → lookup request.model_name models ≡ some proxy
    → prepare_request models request ≡ err s
    → validate_inputs proxy.config_input request.inputs ≡ err s
unfolding prepare_request
refused_input models request proxy s loaded e = ground (
  arith,
  loaded,
  bind-err {B = ModelProxy × List TensorBytes} (sorted_inputs proxy.input_set request.inputs)
      (λ sorted. tensors request.raw_input_contents sorted >>= (λ inputs. ok (proxy, inputs))) s
      (sorted_inputs-err proxy.input_set request.inputs s)
      (λ sorted.
        bind-err {B = ModelProxy × List TensorBytes} (tensors request.raw_input_contents sorted)
          (λ inputs. ok (proxy, inputs)) s (tensors-err request.raw_input_contents sorted s)
          (λ inputs e. ground arith)),
)

-- Why a request is refused with a code.
abbrev pub IsRefused : ModelMap → InferRequest → Code → Type 0
IsRefused models request code =
    ((lookup request.model_name models ≡ none) × (code ≡ not_found))
    ⊎ ((proxy : ModelProxy) × (lookup request.model_name models ≡ some proxy)
        × (code ≡ invalid_argument)
        × ¬ AllValid proxy.config_input request.inputs)

prepare_request-refuses :
    (models : ModelMap) (request : InferRequest) (code : Code)
    → IsRefused models request code
    → (s : Status) × (prepare_request models request ≡ err s) × (s.code ≡ code)
unfolding prepare_request
prepare_request-refuses models request code (inl (missing, e)) = (
  record { code = not_found; message = model_not_found request.model_name },
  ground (arith, missing),
  sym e,
)
prepare_request-refuses models request code (inr (proxy, loaded, e, invalid)) =
    elim (validate_inputs-Checked proxy.config_input request.inputs) [
      | inl valid ↦
          absurd (invalid ((validate_inputs_iff proxy.config_input request.inputs).0 valid))
      | inr (s, refused, c) ↦ (s, ground (arith, loaded, refused), c ∙ sym e)
    ]

-- A request is refused before it reaches the buffer exactly when its model is not loaded, with the
-- code for that, or its model is loaded and an input of it is invalid, with the code for that.
pub prepare_request-err_iff :
    (models : ModelMap) (request : InferRequest) (code : Code)
    → ((s : Status) × (prepare_request models request ≡ err s) × (s.code ≡ code))
      ↔ IsRefused models request code
unfolding prepare_request
prepare_request-err_iff models request code = (
  λ (s, e, c). elim (Option-cases (lookup request.model_name models)) [
    | inl missing ↦ inl (missing, ground (arith, e, c, missing))
    | inr (proxy, loaded) ↦
        (let refused = refused_input models request proxy s loaded e in
          inr (
            proxy,
            loaded,
            elim (validate_inputs-Checked proxy.config_input request.inputs) [
              | inl valid ↦ absurd (ground (arith, refused, valid))
              | inr (s', refused', c') ↦ ground (arith, refused, refused', c', c)
            ],
            λ valid.
                ground
                  (arith, refused, (validate_inputs_iff proxy.config_input request.inputs).1 valid),
          ))
  ],
  prepare_request-refuses models request code,
)
