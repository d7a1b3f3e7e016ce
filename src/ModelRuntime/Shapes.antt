-- ===== src/ModelRuntime/Shapes.antt =====
-- The shapes that src/model_runtime/manager.rs gives to the device tensors of a model against those
-- of the batch buffers of src/tensor/supertensor.rs, which are copied into them.
use toutates.Base.{
  ℕ, List, [], ◌∷◌, length, some, ok, ok-injective, bind-ok, assert, ◌≡◌, refl, sym, ap, ◌∙◌, arith,
  inl, inr, Option-cases,
}
use toutates.Base.Int.{pos, negsuc, eqb_ℤ}
use toutates.Tensor.Element.{ElementType}
use toutates.Tensor.Bytes.{Bytes, Dims}
use toutates.Tensor.Copy.{BatchableTensor, new_batchable, all_static}
use toutates.SuperTensor.Construct.{
  Outlet, ValueType, tensor, Overrides, find_override, overlay, overlay_tail, effective_shape,
  batch_inputs,
}
use toutates.ModelRuntime.{BoundTensor, input_dims, set_batch, bound_dtype, bound_tensors}

overlay-same_rank : (shape dims : Dims) → length shape ≡ length dims → overlay shape dims ≡ dims
unfolding overlay
overlay-same_rank [] [] e = refl
overlay-same_rank [] (o ∷ os) e = absurd (omega arith)
overlay-same_rank (s ∷ ss) [] e = absurd (omega arith)
overlay-same_rank (s ∷ ss) (o ∷ os) e = ap (λ t. o ∷ t) (overlay-same_rank ss os (omega arith))

-- The overrides have the ranks of the inputs that they are for.
abbrev pub SameRanks : Overrides → List Outlet → Type 0
SameRanks overrides [] = Unit {0}
SameRanks overrides (o ∷ os) =
    ((ty : ElementType) (shape dims : Dims)
      → o.dtype ≡ tensor ty shape
      → find_override overrides o.name ≡ some dims
      → length shape ≡ length dims)
    × SameRanks overrides os

-- The host buffers and the device tensors agree in types and shapes, one by one.
abbrev pub Agree : List BatchableTensor → List BoundTensor → Type 0
Agree [] [] = Unit {0}
Agree [] (d ∷ ds) = ⊥
Agree (t ∷ ts) [] = ⊥
Agree (t ∷ ts) (d ∷ ds) = (t.inner_tensor.shape ≡ d.shape) × (t.data_type ≡ d.dtype) × Agree ts ds

-- The first dimension apart, both ways of applying an override of the same rank agree.
set_batch-effective_shape :
    (overrides : Overrides) (o : Outlet) (ty : ElementType) (shape : Dims) (batch_size : ℕ)
    → ((dims : Dims) → find_override overrides o.name ≡ some dims → length shape ≡ length dims)
    → set_batch batch_size (input_dims overrides o shape)
      ≡ set_batch batch_size (effective_shape overrides o.name shape)
unfolding input_dims effective_shape overlay_tail
set_batch-effective_shape overrides o ty [] batch_size ranks =
    elim (Option-cases (find_override overrides o.name)) [
      | inl missing ↦ ground (arith, missing)
      | inr ([], found) ↦ ground (arith, found)
      | inr (d ∷ ds, found) ↦ absurd (omega (arith, ranks (d ∷ ds) found))
    ]
set_batch-effective_shape overrides o ty (s ∷ ss) batch_size ranks =
    elim (Option-cases (find_override overrides o.name)) [
      | inl missing ↦ ground (arith, missing)
      | inr ([], found) ↦ absurd (omega (arith, ranks [] found))
      | inr (d ∷ ds, found) ↦
          ground (arith, found, overlay-same_rank ss ds (omega (arith, ranks (d ∷ ds) found)))
    ]

new_batchable-shape :
    (zeroed : ElementType → Dims → Bytes) (ty : ElementType) (shape : Dims) (batch_size : ℕ)
    (t : BatchableTensor)
    → new_batchable zeroed ty shape batch_size ≡ ok t
    → (set_batch batch_size shape ≡ ok t.inner_tensor.shape) × (t.data_type ≡ ty)
unfolding new_batchable
new_batchable-shape zeroed ty [] batch_size t e = absurd (ground arith)
new_batchable-shape zeroed ty (d ∷ ds) batch_size t e =
    let (_, _, e₁) = bind-ok (assert (eqb_ℤ d (negsuc 0))) _ t e in
    let (_, _, last) = bind-ok (assert (all_static (pos batch_size ∷ ds))) _ t e₁ in
    let same = ok-injective _ t last in rw (sym same) (refl, refl)

batch_inputs-tensor :
    (zeroed : ElementType → Dims → Bytes) (batch_size : ℕ) (overrides : Overrides) (o : Outlet)
    (os : List Outlet) (ts : List BatchableTensor)
    → batch_inputs zeroed batch_size overrides (o ∷ os) ≡ ok ts
    → (ty : ElementType) × (shape : Dims) × (t : BatchableTensor) × (rest : List BatchableTensor)
      × (o.dtype ≡ tensor ty shape)
      × (new_batchable zeroed ty (effective_shape overrides o.name shape) batch_size ≡ ok t)
      × (batch_inputs zeroed batch_size overrides os ≡ ok rest)
      × (t ∷ rest ≡ ts)
unfolding batch_inputs
batch_inputs-tensor zeroed batch_size overrides o os ts e = of_type o.dtype e
  where
    of_type :
        (v : ValueType)
        → batch_inputs zeroed batch_size overrides (record o { dtype = v } ∷ os) ≡ ok ts
        → (ty : ElementType) × (shape : Dims) × (t : BatchableTensor) × (rest : List
            BatchableTensor)
          × (v ≡ tensor ty shape)
          × (new_batchable zeroed ty (effective_shape overrides o.name shape) batch_size ≡ ok t)
          × (batch_inputs zeroed batch_size overrides os ≡ ok rest)
          × (t ∷ rest ≡ ts)
    of_type (tensor ty shape) e =
        let (t, et, later) =
          bind-ok (new_batchable zeroed ty (effective_shape overrides o.name shape) batch_size) _ ts
            e in
        let (rest, er, last) = bind-ok (batch_inputs zeroed batch_size overrides os) _ ts later in
        (ty, shape, t, rest, refl, et, er, ok-injective _ ts last)
    of_type ValueType.sequence e = absurd (ground arith)
    of_type ValueType.map e = absurd (ground arith)
    of_type ValueType.optional e = absurd (ground arith)

bound_tensors-tensor :
    (batch_size : ℕ) (overrides : Overrides) (o : Outlet) (os : List Outlet) (ds : List BoundTensor)
    (ty : ElementType) (shape : Dims)
    → o.dtype ≡ tensor ty shape
    → bound_tensors batch_size (input_dims overrides) (o ∷ os) ≡ ok ds
    → (dims : Dims) × (rest : List BoundTensor) × (set_batch batch_size
          (input_dims overrides o shape)
        ≡ ok dims)
      × (bound_tensors batch_size (input_dims overrides) os ≡ ok rest)
      × (record { name = o.name; dtype = ty; shape = dims } ∷ rest ≡ ds)
unfolding bound_tensors bound_dtype input_dims
bound_tensors-tensor batch_size overrides o os ds ty shape typed e =
    let e₀ = rw typed at e in
    let (dims, set, e₁) = bind-ok (set_batch batch_size (input_dims overrides o shape)) _ ds e₀ in
    let (rest, more, last) = bind-ok (bound_tensors batch_size (input_dims overrides) os) _ ds e₁ in
    (dims, rest, set, more, ok-injective _ ds last)

-- Where the overrides of the inputs have the ranks of the model's shapes, the device tensor that
-- `build_gpu_bound_spec` asks for each input has the type and the shape of the batch buffer whose
-- data is copied into it.
pub batch_inputs-Agree :
    (zeroed : ElementType → Dims → Bytes) (batch_size : ℕ) (overrides : Overrides)
    (inputs : List Outlet) (ts : List BatchableTensor) (ds : List BoundTensor)
    → SameRanks overrides inputs
    → batch_inputs zeroed batch_size overrides inputs ≡ ok ts
    → bound_tensors batch_size (input_dims overrides) inputs ≡ ok ds
    → Agree ts ds
unfolding bound_tensors bound_dtype batch_inputs
batch_inputs-Agree zeroed batch_size overrides [] ts ds ranks et ed =
    rw (sym (ok-injective [] ts et), sym (ok-injective [] ds ed)) tt
batch_inputs-Agree zeroed batch_size overrides (o ∷ os) ts ds (rank, ranks) et ed =
    let (ty, shape, t, rest, typed, made, more, same) =
      batch_inputs-tensor zeroed batch_size overrides o os ts et in
    let (bound_shape, rest', set, more', same') =
      bound_tensors-tensor batch_size overrides o os ds ty shape typed ed in
    let (host_shape, host_type) =
      new_batchable-shape zeroed ty (effective_shape overrides o.name shape) batch_size t made in
    let agree : t.inner_tensor.shape ≡ bound_shape = ok-injective _ _ (
      sym host_shape
      ∙ sym (
          set_batch-effective_shape overrides o ty shape batch_size
            (λ dims found. rank ty shape dims typed found))
      ∙ set) in
    rw (sym same, sym same')
      (
        agree,
        host_type,
        batch_inputs-Agree zeroed batch_size overrides os rest rest' ranks more more',
      )
