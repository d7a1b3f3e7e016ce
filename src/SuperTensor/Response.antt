-- ===== src/SuperTensor/Response.antt =====
-- `WriteReservation::get_result` and `InferenceResponse::get_data` of src/tensor/supertensor.rs: a
-- client collects the results of the batches that its request was split over.
pub mod Replies
use toutates.Base.{
  ℕ, List, [], ◌∷◌, ◌++◌, get_elem?, Option, none, some, Result, ok, err, panic, ◌>>=◌,
}
use toutates.Base.Int.{◌+ℤ◌}
use toutates.Tensor.Element.{ElementType}
use toutates.Tensor.Errors.{InferError}
use toutates.Tensor.Bytes.{Bytes, Dims}
use toutates.Tensor.Copy.{HostTensor, value_as_byte_slice}
use toutates.SuperTensor.Buffer.{Output, values, failed, BatchState}
use toutates.SuperTensor.Infer.{WriteReservation}

-- `(TensorElementType, Shape)`
pub record Metadata : Type 0 where
  pub data_type : ElementType
  pub shape : Dims

abbrev pub empty_outputs : List HostTensor → List Bytes
empty_outputs [] = []
empty_outputs (_ ∷ vs) = [] ∷ empty_outputs vs

-- `if data.is_empty()`
abbrev pub prepare : List Bytes → List HostTensor → List Bytes
prepare [] vs = empty_outputs vs
prepare (d ∷ ds) vs = d ∷ ds

-- The loop over the outputs: each extends its own vector of `data`, and vectors past the last
-- output stay.
unfoldable pub append_slices : ℕ → ℕ → List HostTensor → List Bytes → Result InferError (List Bytes)
unfolding value_as_byte_slice
append_slices start end [] ds = ok ds
append_slices start end (v ∷ vs) [] = value_as_byte_slice v start end >>= λ _. panic
append_slices start end (v ∷ vs) (d ∷ ds) = do
  slice ← value_as_byte_slice v start end
  rest ← append_slices start end vs ds
  ok ((d ++ slice) ∷ rest)

abbrev pub metadatas : List HostTensor → List Metadata
metadatas [] = []
metadatas (v ∷ vs) = record { data_type = v.data_type; shape = v.shape } ∷ metadatas vs

-- `get_result` on a finished batch: the reply's bytes so far and the shapes of the batch's outputs.
unfoldable pub take_result :
    Output → WriteReservation → List Bytes → Result InferError (List Bytes × List Metadata)
unfolding append_slices
take_result (failed e) r reply = err e
take_result (values vs) r reply = do
  filled ← append_slices r.start r.end vs (prepare reply vs)
  ok (filled, metadatas vs)

-- `metadatas.0[i].1[0] += shape[0]`: a missing output or an empty shape panics.
abbrev pub add_first_dim : Dims → Dims → Result InferError Dims
add_first_dim [] _ = panic
add_first_dim (d ∷ ds) [] = panic
add_first_dim (d ∷ ds) (e ∷ _) = ok ((d +ℤ e) ∷ ds)

unfoldable pub add_batches : List Metadata → List Metadata → Result InferError (List Metadata)
add_batches ms [] = ok ms
add_batches [] (n ∷ ns) = panic
add_batches (m ∷ ms) (n ∷ ns) = do
  shape ← add_first_dim m.shape n.shape
  rest ← add_batches ms ns
  ok (record m { shape = shape } ∷ rest)

-- What `get_data` has gathered: shapes, and the cell whose trace it hands on.
abbrev pub Gathered : Type 0
Gathered = Option (List Metadata × ℕ)

unfoldable pub gather : Gathered → List Metadata → ℕ → Result InferError (List Metadata × ℕ)
unfolding add_batches
gather none ms cell = ok (ms, cell)
gather (some (old, first)) ms cell = do sums ← add_batches old ms; ok (sums, first)

-- One round of `get_data`: the result of a batch, added to what was gathered.
unfoldable pub collect :
    Output
    → WriteReservation
    → List Bytes
    → Gathered
    → Result InferError (List Bytes × (List Metadata × ℕ))
unfolding take_result gather
collect output r reply gathered = do
  (filled, ms) ← take_result output r reply
  gathered' ← gather gathered ms r.state
  ok (filled, gathered')

-- `get_data`, on the states as they are: `none` while a batch of the request has no output.
unfoldable pub get_data :
    List BatchState
    → List WriteReservation
    → List Bytes
    → Gathered
    → Option (Result InferError (List Bytes × (List Metadata × ℕ)))
unfolding collect
get_data states [] reply none = some panic
get_data states [] reply (some g) = some (ok (reply, g))
get_data states (r ∷ rs) reply gathered = elim (get_elem? states r.state) [
  | none ↦ some panic
  | some state ↦ elim state.output [
    | none ↦ none
    | some output ↦ elim (collect output r reply gathered) [
      | ok (filled, g) ↦ get_data states rs filled (some g)
      | err e ↦ some (err e)
      | panic ↦ some panic
    ]
  ]
]
