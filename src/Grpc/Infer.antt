-- ===== src/Grpc/Infer.antt =====
-- `model_infer` of src/grpc/mod.rs, whole: what it answers, and what it counts.
use toutates.Base.{
  ℕ, List, [], ◌∷◌, get_elem?, Option, none, some, Result, ok, err, panic, unwrap, ◌>>=◌,
}
use toutates.Base.Int.{ℤ}
use toutates.Tensor.Errors.{InferError, ring_full}
use toutates.Tensor.Bytes.{Bytes, Dims}
use toutates.Tracing.{
  ClientTrace, start_trace, record_model_proxy_aquired, record_serialization_done,
  record_execution_trace, record_output_processed, record_metrics,
}
use toutates.SuperTensor.Buffer.{BatchState}
use toutates.SuperTensor.Infer.{Round, infer}
use toutates.SuperTensor.Response.{Metadata, get_data}
use toutates.Grpc.{
  Code, Status, ModelProxy, ModelMap, InferInput, InferRequest, InferResponse,
  infer_error_to_status, prepare_request, output_tensors,
}

-- What a request adds to the metrics of its model.
pub data MetricEvent : Type 0 where
  requests_ok requests_not_found requests_resource_exhausted requests_error : MetricEvent
  request_duration : ℕ → MetricEvent
  client_batch_size : ℤ → MetricEvent
  request_times : List ℕ → MetricEvent

pub record Answer : Type 0 where
  pub events : List MetricEvent
  pub outcome : Result Status InferResponse

-- The readings of the clock in the course of a request.
pub record Clock : Type 0 where
  pub start : ℕ
  pub proxy_aquired : ℕ
  pub serialized : ℕ
  pub queued : ℕ
  pub processed : ℕ
  pub elapsed : ℕ

-- `request.inputs.first().and_then(|input| input.shape.first())`
unfoldable pub first_dim : List InferInput → Option ℤ
first_dim [] = none
first_dim (i ∷ _) = first i.shape
  where
    first : Dims → Option ℤ
    first [] = none
    first (d ∷ _) = some d

unfoldable pub failure_event : InferError → MetricEvent
failure_event ring_full = requests_resource_exhausted
failure_event _ = requests_error

unfoldable pub refuse : InferError → Answer
unfolding failure_event infer_error_to_status
refuse e = record { events = failure_event e ∷ []; outcome = err (infer_error_to_status e) }

abbrev crash : Answer
crash = record { events = []; outcome = panic }

unfoldable pub finish_trace : Clock → List BatchState → ℕ → ClientTrace → Result InferError (List ℕ)
unfolding record_execution_trace record_output_processed record_metrics
finish_trace clock states cell trace = do
  state ← unwrap (get_elem? states cell)
  executed ← record_execution_trace state.exec_start state.exec_end trace
  record_metrics (record_output_processed clock.processed executed)

-- The reply to a request whose batches have run.
unfoldable pub respond :
    ModelProxy
    → InferRequest
    → Clock
    → List BatchState
    → ClientTrace
    → List Bytes
    → List Metadata
    → ℕ
    → Answer
unfolding finish_trace output_tensors first_dim
respond proxy request clock states trace raw metas cell =
    elim (finish_trace clock states cell trace) [
      | ok times ↦ record {
        events = requests_ok ∷ request_duration clock.elapsed ∷ (elim (first_dim request.inputs) [
          | some n ↦ client_batch_size n ∷ request_times times ∷ []
          | none ↦ request_times times ∷ []
        ]);
        outcome = ok (record {
          model_name = proxy.config_name;
          id = request.id;
          outputs = output_tensors metas proxy.output_meta;
          raw_output_contents = raw;
        });
      }
      | _ ↦ crash
    ]

-- `model_infer`. The rounds are those of `infer` on the model's buffer, and `states` the cells when
-- the batches have run; `none` while it waits for one of them.
unfoldable pub model_infer :
    (Dims → ℕ) → ModelMap → InferRequest → Clock → List Round → List BatchState → Option Answer
unfolding refuse respond
model_infer num_elements models request clock rounds states =
    elim (prepare_request models request) [
      | err s ↦ some (record {
        events = elim s.code [ Code.not_found ↦ requests_not_found ∷ [] | _ ↦ [] ];
        outcome = err s;
      })
      | panic ↦ some crash
      | ok (proxy, inputs) ↦
          (let aquired = record_model_proxy_aquired clock.proxy_aquired (start_trace clock.start) in
            let trace = record_serialization_done clock.serialized aquired in
            elim (infer num_elements inputs trace clock.queued rounds) [
              | none ↦ none
              | some (_, r) ↦ elim r [
                | err e ↦ some (refuse e)
                | panic ↦ some crash
                | ok (reservations, queued) ↦ elim (get_data states reservations [] none) [
                  | none ↦ none
                  | some collected ↦ elim collected [
                    | err e ↦ some (refuse e)
                    | panic ↦ some crash
                    | ok (raw, (metas, cell)) ↦
                        some (respond proxy request clock states queued raw metas cell)
                  ]
                ]
              ]
            ])
    ]
