-- ===== src/SuperTensor/Construct/Fresh.antt =====
-- The buffer that `new_with_overrides` of src/tensor/supertensor.rs returns.
use toutates.Base.{
  ℕ, zero, suc, ◌+◌, ◌*◌, ◌<◌, List, length, get_elem?, replicate, some, Result, ok, ok-injective,
  bind-ok, assert, ◌≡◌, refl, sym, ap, ◌∙◌, true, Bool, arith, usize_mod,
}
use toutates.Tensor.Element.{ElementType}
use toutates.Tensor.Errors.{InferError}
use toutates.Tensor.Bytes.{Bytes, Dims}
use toutates.Tensor.Copy.{BatchableTensor}
use toutates.SuperTensor.Index.{is_power_of_two, masks_of}
use toutates.SuperTensor.Index.Position.{IsRing}
use toutates.SuperTensor.Buffer.{new_batch_state, SuperTensorBuffer}
use toutates.SuperTensor.Construct.{
  Outlet, Overrides, batch_inputs, new_trackers, new_with_overrides,
}

assert-true :
    (t : Bool) (u : Unit {0}) → Path (Result InferError (Unit {0})) (assert t) (ok u) → t ≡ true
assert-true t u e = ground arith

get_elem?-replicate {ℓ} :
    {A : Type ℓ} (n i : ℕ) (a : A) → i < n → get_elem? (replicate n a) i ≡ some a
get_elem?-replicate zero i a h = absurd (omega arith)
get_elem?-replicate (suc n) zero a h = refl
get_elem?-replicate (suc n) (suc i) a h = get_elem?-replicate n i a (omega arith)

get_elem?-new_trackers :
    (k n i : ℕ)
    → i < n
    → get_elem? (new_trackers k n) i ≡ some (record { dirty = 0; written_slots = 0; state = k + i })
unfolding new_trackers
get_elem?-new_trackers k zero i h = absurd (omega arith)
get_elem?-new_trackers k (suc n) zero h =
    ap (λ s. some (record { dirty = 0; written_slots = 0; state = s })) (omega arith)
get_elem?-new_trackers k (suc n) (suc i) h =
    get_elem?-new_trackers (suc k) n i (omega arith)
    ∙ ap (λ s. some (record { dirty = 0; written_slots = 0; state = s })) (omega arith)

length-new_trackers : (k n : ℕ) → length (new_trackers k n) ≡ n
unfolding new_trackers
length-new_trackers k zero = refl
length-new_trackers k (suc n) = ap suc (length-new_trackers (suc k) n)

-- A free batch with a state of its own and its input buffers.
pub record IsFresh (b : SuperTensorBuffer) (tensors : List BatchableTensor) (i : ℕ) : Type 0 where
  pub tracker : get_elem? b.trackers i ≡ some (record { dirty = 0; written_slots = 0; state = i })
  pub state : get_elem? b.states i ≡ some new_batch_state
  pub inputs : get_elem? b.input_tensors i ≡ some tensors

-- A buffer is only made of sizes that are powers of two. It has one tracker for each batch of its
-- capacity, each free, with its own empty state and the same input buffers; its counters are at
-- zero, and its sizes and masks are those it was made with.
pub new_with_overrides-IsFresh :
    (zeroed : ElementType → Dims → Bytes) (capacity batch_size : ℕ) (inputs : List Outlet)
    (overrides : Overrides) (b : SuperTensorBuffer)
    → capacity * batch_size < usize_mod
    → new_with_overrides zeroed capacity batch_size inputs overrides ≡ ok b
    → IsRing capacity batch_size
      × (b.masks ≡ masks_of capacity batch_size)
      × ((b.capacity ≡ capacity) × (b.batch_size ≡ batch_size))
      × ((b.head ≡ 0) × (b.executor_head ≡ 0) × (b.tail ≡ 0))
      × (length b.trackers ≡ capacity)
      × ((tensors : List BatchableTensor) × (batch_inputs zeroed batch_size overrides inputs
            ≡ ok tensors)
          × ((i : ℕ) → i < capacity → IsFresh b tensors i))
unfolding new_with_overrides
new_with_overrides-IsFresh zeroed capacity batch_size inputs overrides b fits e =
    let (u, capacity_ok, e₁) = bind-ok (assert (is_power_of_two capacity)) _ b e in
    let (v, batch_ok, e₂) = bind-ok (assert (is_power_of_two batch_size)) _ b e₁ in
    let (tensors, made, last) = bind-ok (batch_inputs zeroed batch_size overrides inputs) _ b e₂ in
    let same = sym (ok-injective _ b last) in
    rw same (
      record {
        capacity_power = assert-true (is_power_of_two capacity) u capacity_ok;
        batch_power = assert-true (is_power_of_two batch_size) v batch_ok;
        fits = fits;
      },
      refl,
      (refl, refl),
      (refl, refl, refl),
      length-new_trackers 0 capacity,
      (
        tensors,
        made,
        λ i h. record {
          tracker =
              get_elem?-new_trackers 0 capacity i h
              ∙ ap (λ s. some (record { dirty = 0; written_slots = 0; state = s })) (omega arith);
          state = get_elem?-replicate capacity i new_batch_state h;
          inputs = get_elem?-replicate capacity i tensors h;
        },
      ),
    )
