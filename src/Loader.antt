-- ===== src/Loader.antt =====
-- src/loader.rs: how an executor runs its session on the inputs of a batch, on the host or over
-- tensors on the GPU. The session and the device are an interface, with their state explicit; after
-- an error the state is dropped with the values.
use toutates.Base.{
  ℕ, suc, ◌+◌, ◌==◌, List, [], ◌∷◌, ◌++◌, length, Option, none, some, Result, ok, err, panic, ◌>>=◌,
  String, Bool,
}
use toutates.Tensor.Errors.{InferError, session_run}
use toutates.Metrics.Local.{
  Instrument, model_execution, model_session_run, model_h2d_copy, model_d2h_copy,
}

-- `map_err(|e| InferError::SessionRun(..))`
abbrev session_error : {A : Type 0} → Result String A → Result InferError A
session_error (ok a) = ok a
session_error (err e) = err (session_run e)
session_error panic = panic

-- What the crate `ort` does: D is its state, View an input in host memory, GpuInput a tensor that
-- is bound, Value an output, and Spec its type and shape.
pub record Device (D View GpuInput Spec Value : Type 0) : Type 0 where
  pub run_with_options : D → List View → Result String (D × List (String × Value))
  pub copy_into_async : D → View → GpuInput → Result String D
  pub run_binding : D → Result String (D × List (String × Value))
  pub new_tensor : D → Spec → Result String (D × Value)
  -- A copy from the GPU into a new tensor, which waits for the stream or not.
  pub copy_out : D → Bool → Value → Value → Result String (D × Value)

-- `GpuBoundIo`
pub record GpuBoundIo (GpuInput Spec : Type 0) : Type 0 where
  pub gpu_inputs : List GpuInput
  pub output_dtypes_shapes : List Spec

-- The times between two readings of the clock.
pub record Elapsed : Type 0 where
  pub h2d : ℕ
  pub run : ℕ
  pub d2h : ℕ

-- What is observed of a run, in order.
abbrev pub Observed : Type 0
Observed = List (Instrument × ℕ)

abbrev values_of : {A : Type 0} → List (String × A) → List A
values_of [] = []
values_of ((name, a) ∷ rest) = a ∷ values_of rest

module _ {D View GpuInput Spec Value : Type 0} (device : Device D View GpuInput Spec Value) where
  unfoldable pub run_host : D → List View → Elapsed → Result InferError (D × List Value × Observed)
  run_host d inputs t = do
    (d', outputs) ← session_error (device.run_with_options d inputs)
    ok (d', values_of outputs, (model_session_run, t.run) ∷ [])

  -- `inputs.iter().zip(gpu_inputs)`
  unfoldable pub copy_inputs : D → List View → List GpuInput → Result InferError D
  copy_inputs d [] gpu = ok d
  copy_inputs d (v ∷ vs) [] = ok d
  copy_inputs d (v ∷ vs) (g ∷ gs) = do
    d' ← session_error (device.copy_into_async d v g)
    copy_inputs d' vs gs

  -- The copies of the outputs from the i-th on, of n in all.
  unfoldable pub copy_outputs :
      D → ℕ → ℕ → List (String × Value) → List Spec → Result InferError (D × List Value)
  copy_outputs d i n [] specs = ok (d, [])
  copy_outputs d i n ((name, v) ∷ vs) [] = ok (d, [])
  copy_outputs d i n ((name, v) ∷ vs) (s ∷ ss) = do
    (d1, cpu) ← session_error (device.new_tensor d s)
    (d2, filled) ← session_error (device.copy_out d1 (i + 1 == n) v cpu)
    (d3, rest) ← copy_outputs d2 (suc i) n vs ss
    ok (d3, filled ∷ rest)

  unfoldable pub run_gpu_bound :
      D
      → GpuBoundIo GpuInput Spec
      → List View
      → Elapsed
      → Result InferError (D × List Value × Observed)
  unfolding copy_inputs copy_outputs
  run_gpu_bound d io inputs t = do
    d1 ← copy_inputs d inputs io.gpu_inputs
    (d2, outputs) ← session_error (device.run_binding d1)
    (d3, values) ← copy_outputs d2 0 (length outputs) outputs io.output_dtypes_shapes
    let observed =
        (model_session_run, t.run) ∷ (model_h2d_copy, t.h2d) ∷ (model_d2h_copy, t.d2h) ∷ []
    ok (d3, values, observed)

  -- The closure that `OnnxExecutor::run` hands to `execute_on_batch`; `total` is the time of it all.
  unfoldable pub run_session :
      D
      → Option (GpuBoundIo GpuInput Spec)
      → List View
      → Elapsed
      → ℕ
      → Result InferError (D × List Value × Observed)
  unfolding run_host run_gpu_bound
  run_session d gpu_io inputs t total = do
    (d', values, observed) ← elim gpu_io [
      | some io ↦ run_gpu_bound d io inputs t
      | none ↦ run_host d inputs t
    ]
    ok (d', values, observed ++ ((model_execution, total) ∷ []))
