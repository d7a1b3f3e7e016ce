-- ===== src/Tracing.antt =====
-- src/tracing/mod.rs: the timers that a request carries, and what they report at its end.
-- An `Instant` is a number of nanoseconds; the difference of two stops at zero, as in Rust.
use toutates.Base.{ℕ, ◌-◌, Option, none, some, List, [], ◌∷◌, Result, ok, unwrap, ◌>>=◌}
use toutates.Tensor.Errors.{InferError}

pub record ClientTrace : Type 0 where
  pub start : ℕ
  pub model_proxy_aquired : Option ℕ
  pub serialization_done : Option ℕ
  pub inference_in_queue : Option ℕ
  pub inference_exec_start : Option ℕ
  pub inference_exec_end : Option ℕ
  pub output_processed : Option ℕ

-- `ClientTrace::start`
unfoldable pub start_trace : ℕ → ClientTrace
start_trace now = record {
  start = now;
  model_proxy_aquired = none;
  serialization_done = none;
  inference_in_queue = none;
  inference_exec_start = none;
  inference_exec_end = none;
  output_processed = none;
}

unfoldable pub record_model_proxy_aquired : ℕ → ClientTrace → ClientTrace
record_model_proxy_aquired now t = record t { model_proxy_aquired = some now }

unfoldable pub record_serialization_done : ℕ → ClientTrace → ClientTrace
record_serialization_done now t = record t { serialization_done = some now }

unfoldable pub record_inference_in_queue : ℕ → ClientTrace → ClientTrace
record_inference_in_queue now t = record t { inference_in_queue = some now }

-- The two cells of the `ExecutionTrace` are unwrapped.
unfoldable pub record_execution_trace :
    Option ℕ → Option ℕ → ClientTrace → Result InferError ClientTrace
record_execution_trace exec_start exec_end t = do
  s ← unwrap exec_start
  e ← unwrap exec_end
  ok (record t { inference_exec_start = some s; inference_exec_end = some e })

unfoldable pub record_output_processed : ℕ → ClientTrace → ClientTrace
record_output_processed now t = record t { output_processed = some now }

-- `record_metrics`: the six durations, in the order in which they are observed.
unfoldable pub record_metrics : ClientTrace → Result InferError (List ℕ)
record_metrics t = do
  proxy ← unwrap t.model_proxy_aquired
  serialized ← unwrap t.serialization_done
  queued ← unwrap t.inference_in_queue
  exec_start ← unwrap t.inference_exec_start
  exec_end ← unwrap t.inference_exec_end
  processed ← unwrap t.output_processed
  ok (
      (proxy - t.start)
      ∷ (serialized - proxy)
      ∷ (queued - serialized)
      ∷ (exec_start - queued)
      ∷ (exec_end - exec_start)
      ∷ (processed - exec_end)
      ∷ [])
