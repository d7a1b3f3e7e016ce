-- ===== src/ModelRuntime/Known.antt =====
-- The invariants between the two tables that src/model_runtime/manager.rs builds for a model, on
-- which the handler of src/grpc/mod.rs relies.
use text.Mathlib.TextEquality.{eq_iff}
use toutates.Base.{
  ℕ, suc, same_text, List, [], ◌∷◌, some, ok, ok-injective, bind-ok, ◌≡◌, refl, sym, ap, ◌∙◌, true,
  Bool-cases, inl, inr, arith, String,
}
use toutates.SuperTensor.Construct.{Outlet, Overrides}
use toutates.Grpc.{ModelInput, ModelProxy, lookup, find_input, InferInput, Keyed, keyed_inputs}
use toutates.Grpc.Validate.{AllValid}
use toutates.ModelRuntime.{
  ModelRepositoryConfig, tensor_dtype, model_inputs, input_dims, inputs_metadata, outputs_metadata,
  input_set, build_proxy,
}

-- A name that the table has.
abbrev Has : List (String × ℕ) → String → Type 0
Has set name = (i : ℕ) × (lookup name set ≡ some i)

abbrev HasAll : List (String × ℕ) → List Outlet → Type 0
HasAll set [] = Unit {0}
HasAll set (o ∷ os) = Has set o.name × HasAll set os

pub same_text_self : (s : String) → same_text s s ≡ true
same_text_self s = (eq_iff s s).1 refl

Has-insert :
    (set : List (String × ℕ)) (key name : String) (k : ℕ) → Has set name → Has ((key, k) ∷ set) name
Has-insert set key name k (i, e) = elim (Bool-cases (same_text key name)) [
  | inl same ↦ (k, ground (arith, same))
  | inr other ↦ (i, ground (arith, other, e))
]

input_set-Has :
    (i : ℕ) (os : List Outlet) (set : List (String × ℕ)) (name : String)
    → Has set name
    → Has (input_set i os set) name
unfolding input_set
input_set-Has i [] set name h = h
input_set-Has i (o ∷ os) set name h =
    input_set-Has (suc i) os ((o.name, i) ∷ set) name (Has-insert set o.name name i h)

input_set-HasAll :
    (i : ℕ) (os : List Outlet) (set : List (String × ℕ)) → HasAll (input_set i os set) os
unfolding input_set
input_set-HasAll i [] set = tt
input_set-HasAll i (o ∷ os) set = (
  input_set-Has (suc i) os ((o.name, i) ∷ set) o.name (i, ground (arith, same_text_self o.name)),
  input_set-HasAll (suc i) os ((o.name, i) ∷ set),
)

model_inputs-Has :
    (overrides : Overrides) (os : List Outlet) (config : List ModelInput) (set : List (String × ℕ))
    (name : String) (m : ModelInput)
    → HasAll set os
    → model_inputs overrides os ≡ ok config
    → find_input config name ≡ some m
    → Has set name
unfolding model_inputs find_input
model_inputs-Has overrides [] config set name m all e found =
    absurd (ground (arith, ok-injective [] config e, found))
model_inputs-Has overrides (o ∷ os) config set name m (known, all) e found =
    let ((ty, shape), typed, later) = bind-ok (tensor_dtype o) _ config e in
    let (rest, made, last) = bind-ok (model_inputs overrides os) _ config later in
    let here : find_input (record { name = o.name; dims = input_dims overrides o shape } ∷ rest)
          name
        ≡ some m =
      ap (λ c. find_input c name) (ok-injective _ config last) ∙ found in
    elim (Bool-cases (same_text o.name name)) [
      | inl same ↦ rw ((eq_iff o.name name).0 same) at known
      | inr other ↦
          model_inputs-Has overrides os rest set name m all made (ground (arith, here, other))
    ]

keyed_inputs-total :
    (config : List ModelInput) (set : List (String × ℕ)) (place : ℕ) (inputs : List InferInput)
    → ((name : String) (m : ModelInput) → find_input config name ≡ some m → Has set name)
    → AllValid config inputs
    → (ks : List Keyed) × (keyed_inputs set place inputs ≡ ok ks)
unfolding keyed_inputs
keyed_inputs-total config set place [] known valid = ([], refl)
keyed_inputs-total config set place (i ∷ is) known ((m, found, fits), valid) =
    let (order, e) = known i.name m found in
    let (ks, es) = keyed_inputs-total config set (suc place) is known valid in
    (record { key = order; place = place; input = i } ∷ ks, rw (e, es) refl)

-- For the tables that the manager builds for a model, the handler finds the order of each input of
-- a request that has passed the checks: the lookup does not panic.
pub build_proxy-keyed_inputs :
    (name : String) (config : ModelRepositoryConfig) (inputs outputs : List Outlet)
    (proxy : ModelProxy) (request : List InferInput)
    → build_proxy name config inputs outputs ≡ ok proxy
    → AllValid proxy.config_input request
    → (ks : List Keyed) × (keyed_inputs proxy.input_set 0 request ≡ ok ks)
unfolding build_proxy
build_proxy-keyed_inputs name config inputs outputs proxy request e valid =
    let (config_input, made, e₁) = bind-ok (model_inputs config.input_shapes inputs) _ proxy e in
    let (input_meta, _, e₂) = bind-ok (inputs_metadata config.input_shapes inputs) _ proxy e₁ in
    let (output_meta, _, last) =
      bind-ok (outputs_metadata config.output_shapes outputs) _ proxy e₂ in
    let same = ok-injective _ proxy last in
    keyed_inputs-total proxy.config_input proxy.input_set 0 request
      (rw (sym same) (λ n m found.
        model_inputs-Has config.input_shapes inputs config_input (input_set 0 inputs []) n m
          (input_set-HasAll 0 inputs []) made found))
      valid
