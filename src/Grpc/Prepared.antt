-- ===== src/Grpc/Prepared.antt =====
-- What reaches the batch buffer from `model_infer` of src/grpc/mod.rs.
use toutates.Base.{
  ℕ, suc, ◌<◌, ◌^◌, List, [], ◌∷◌, length, get_elem?, some, ok, bind-ok, ok-injective, unwrap,
  ok_or, ok_or-ok, String, ◌≡◌, refl, sym, ap, ◌∙◌, arith,
}
use toutates.Base.Int.{ℤ, pos, negsuc, as_usize}
use toutates.Tensor.Bytes.{Bytes, Dims, TensorBytes}
use toutates.SuperTensor.Infer.{client_batch_size}
use toutates.Grpc.{
  ModelInput, ModelProxy, ModelMap, lookup, InferInput, InferRequest, find_input, Keyed,
  keyed_inputs, sorted_inputs, insert_by_key, sort_by_key, tensors, validate_inputs,
  prepare_request,
}
use toutates.Grpc.Validate.{Fits, AllValid, validate_inputs_iff}

-- A tensor whose shape fits an input of the model.
abbrev pub FitsModel : List ModelInput → Dims → Type 0
FitsModel config shape =
    (name : String) × (m : ModelInput) × (find_input config name ≡ some m) × Fits shape m.dims

abbrev AllKeyed : List ModelInput → List Keyed → Type 0
AllKeyed config [] = Unit {0}
AllKeyed config (k ∷ ks) = FitsModel config k.input.shape × AllKeyed config ks

abbrev pub AllFit : List ModelInput → List TensorBytes → Type 0
AllFit config [] = Unit {0}
AllFit config (t ∷ ts) = FitsModel config t.shape × AllFit config ts

module _ (config : List ModelInput) where
  keyed_inputs-AllKeyed :
      (set : List (String × ℕ)) (place : ℕ) (inputs : List InferInput) (ks : List Keyed)
      → AllValid config inputs
      → keyed_inputs set place inputs ≡ ok ks
      → AllKeyed config ks × (length ks ≡ length inputs)
  unfolding keyed_inputs
  keyed_inputs-AllKeyed set place [] ks valid e = rw (sym (ok-injective [] ks e)) (tt, refl)
  keyed_inputs-AllKeyed set place (i ∷ is) ks ((m, found, fits), valid) e =
      let (order, known, later) = bind-ok (unwrap (lookup i.name set)) _ ks e in
      let (rest, es, last) = bind-ok (keyed_inputs set (suc place) is) _ ks later in
      let (all, same) = keyed_inputs-AllKeyed set (suc place) is rest valid es in
      rw (sym (ok-injective _ ks last)) (((i.name, m, found, fits), all), ap suc same)

  insert_by_key-AllKeyed :
      (k : Keyed) (ks : List Keyed)
      → FitsModel config k.input.shape
      → AllKeyed config ks
      → AllKeyed config (insert_by_key k ks) × (length (insert_by_key k ks) ≡ suc (length ks))
  unfolding insert_by_key
  insert_by_key-AllKeyed k [] f all = ((f, tt), refl)
  insert_by_key-AllKeyed k (x ∷ xs) f (g, all) = ground (arith, insert_by_key-AllKeyed k xs f all)

  sort_by_key-AllKeyed :
      (ks : List Keyed)
      → AllKeyed config ks
      → AllKeyed config (sort_by_key ks) × (length (sort_by_key ks) ≡ length ks)
  unfolding sort_by_key
  sort_by_key-AllKeyed [] all = (tt, refl)
  sort_by_key-AllKeyed (k ∷ ks) (f, all) =
      let (sorted, same) = sort_by_key-AllKeyed ks all in
      let (inserted, one_more) = insert_by_key-AllKeyed k (sort_by_key ks) f sorted in
      (inserted, one_more ∙ ap suc same)

  sorted_inputs-AllKeyed :
      (set : List (String × ℕ)) (inputs : List InferInput) (ks : List Keyed)
      → AllValid config inputs
      → sorted_inputs set inputs ≡ ok ks
      → AllKeyed config ks × (length ks ≡ length inputs)
  unfolding sorted_inputs
  sorted_inputs-AllKeyed set [] ks valid e = rw (sym (ok-injective [] ks e)) (tt, refl)
  sorted_inputs-AllKeyed set (i ∷ []) ks ((m, found, fits), _) e =
      rw (sym (ok-injective _ ks e)) (((i.name, m, found, fits), tt), refl)
  sorted_inputs-AllKeyed set (i ∷ j ∷ is) ks valid e =
      let (keyed, looked_up, last) = bind-ok (keyed_inputs set 0 (i ∷ j ∷ is)) _ ks e in
      let (fit, same) = keyed_inputs-AllKeyed set 0 (i ∷ j ∷ is) keyed valid looked_up in
      let (sorted_fit, sorted_same) = sort_by_key-AllKeyed keyed fit in
      rw (sym (ok-injective _ ks last)) (sorted_fit, sorted_same ∙ same)

  tensors-AllFit :
      (raw : List Bytes) (ks : List Keyed) (ts : List TensorBytes)
      → AllKeyed config ks
      → tensors raw ks ≡ ok ts
      → AllFit config ts × (length ts ≡ length ks)
  unfolding tensors
  tensors-AllFit raw [] ts all e = rw (sym (ok-injective [] ts e)) (tt, refl)
  tensors-AllFit raw (k ∷ ks) ts (f, all) e =
      let (content, there, later) = bind-ok (unwrap (get_elem? raw k.place)) _ ts e in
      let (rest, es, last) = bind-ok (tensors raw ks) _ ts later in
      let (fit, same) = tensors-AllFit raw ks rest all es in
      rw (sym (ok-injective _ ts last)) ((f, fit), ap suc same)

-- Where a request is passed on, its model is loaded, and there is a tensor for each of its inputs,
-- each with a shape that fits an input of the model.
pub prepare_request-ok :
    (models : ModelMap) (request : InferRequest) (proxy : ModelProxy) (inputs : List TensorBytes)
    → prepare_request models request ≡ ok (proxy, inputs)
    → (lookup request.model_name models ≡ some proxy)
      × AllFit proxy.config_input inputs
      × (length inputs ≡ length request.inputs)
unfolding prepare_request
prepare_request-ok models request proxy inputs e =
    let (p, loaded, checks) =
      bind-ok (ok_or (lookup request.model_name models) _) _ (proxy, inputs) e in
    let (_, valid, keys) =
      bind-ok (validate_inputs p.config_input request.inputs) _ (proxy, inputs) checks in
    let (ks, sorted, content) =
      bind-ok (sorted_inputs p.input_set request.inputs) _ (proxy, inputs) keys in
    let (ts, made, last) =
      bind-ok (tensors request.raw_input_contents ks) _ (proxy, inputs) content in
    let both : Path (ModelProxy × List TensorBytes) (p, ts) (proxy, inputs) =
      ok-injective _ _ last in
    let same_model : p ≡ proxy = ap (λ q. q.0) both in
    let same_inputs : ts ≡ inputs = ap (λ q. q.1) both in
    let (sorted_fit, sorted_length) =
      sorted_inputs-AllKeyed p.config_input p.input_set request.inputs ks
        ((validate_inputs_iff p.config_input request.inputs).0 valid) sorted in
    let (fit, made_length) =
      tensors-AllFit p.config_input request.raw_input_contents ks ts sorted_fit made in
    rw (sym same_model, sym same_inputs)
      (ok_or-ok (lookup request.model_name models) _ p loaded, fit, made_length ∙ sorted_length)

-- Dimensions are `i64`s.
abbrev pub IsI64 : ℤ → Type 0
IsI64 (pos n) = n < 2 ^ 63
IsI64 (negsuc n) = n < 2 ^ 63

abbrev pub AllI64 : Dims → Type 0
AllI64 [] = Unit {0}
AllI64 (d ∷ ds) = IsI64 d × AllI64 ds

abbrev pub AllShapesI64 : List TensorBytes → Type 0
AllShapesI64 [] = Unit {0}
AllShapesI64 (t ∷ ts) = AllI64 t.shape × AllShapesI64 ts

head_size :
    (config : List ModelInput) (inputs : List TensorBytes)
    → ((name : String) (m : ModelInput) → find_input config name ≡ some m → 0 < length m.dims)
    → AllFit config inputs
    → AllShapesI64 inputs
    → 0 < length inputs
    → (n : ℕ) × (0 < n) × (n < 2 ^ 63) × (client_batch_size inputs ≡ some n)
unfolding client_batch_size
head_size config [] ranked fit words h = absurd (omega arith)
head_size config (t ∷ ts) ranked ((name, m, found, fits), _) (words, _) h =
    of_shape t.shape m.dims fits words (ranked name m found)
  where
    of_shape :
        (shape dims : Dims)
        → Fits shape dims
        → AllI64 shape
        → 0 < length dims
        → (n : ℕ) × (0 < n)
          × (n < 2 ^ 63)
          × (client_batch_size (record t { shape = shape } ∷ ts) ≡ some n)
    of_shape [] [] fits words h = absurd (omega arith)
    of_shape [] (m ∷ ms) fits words h = absurd fits
    of_shape (r ∷ rs) [] fits words h = absurd fits
    of_shape (pos d ∷ rs) (m ∷ ms) (p, _) (small, _) h =
        let same : as_usize (pos d) ≡ d = omega arith in (d, ground arith, small, ap some same)
    of_shape (negsuc d ∷ rs) (m ∷ ms) (p, _) words h = absurd (ground arith)

-- For a model none of whose inputs is a scalar, a request of at least one input that is passed on,
-- with dimensions that are `i64`s, asks the buffer for a positive number of slots below 2 ^ 63.
pub prepare_request-client_batch_size :
    (models : ModelMap) (request : InferRequest) (proxy : ModelProxy) (inputs : List TensorBytes)
    → prepare_request models request ≡ ok (proxy, inputs)
    → ((name : String) (m : ModelInput)
        → find_input proxy.config_input name ≡ some m
        → 0 < length m.dims)
    → AllShapesI64 inputs
    → 0 < length request.inputs
    → (n : ℕ) × (0 < n) × (n < 2 ^ 63) × (client_batch_size inputs ≡ some n)
prepare_request-client_batch_size models request proxy inputs e ranked words some_input =
    let (_, fit, same) = prepare_request-ok models request proxy inputs e in
    head_size proxy.config_input inputs ranked fit words (rw same some_input)
