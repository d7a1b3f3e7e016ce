-- ===== src/Grpc/Counted.antt =====
-- What `model_infer` of src/grpc/mod.rs counts for a request that it refuses.
use toutates.Base.{
  refl, ℕ, List, [], ◌∷◌, none, some, err, ◌≡◌, inl, inr, arith, Option-cases, Result-cases,
}
use toutates.Tensor.Errors.{InferError, ring_full, unsupported_data_type, session_run}
use toutates.Tensor.Bytes.{Dims}
use toutates.SuperTensor.Buffer.{BatchState}
use toutates.SuperTensor.Infer.{Round, infer}
use toutates.SuperTensor.Response.{get_data}
use toutates.Tracing.{start_trace, record_model_proxy_aquired, record_serialization_done}
use toutates.Grpc.{
  Code, not_found, invalid_argument, resource_exhausted, internal, Status, ModelMap, InferRequest,
  infer_error_to_status, prepare_request,
}
use toutates.Grpc.Infer.{
  MetricEvent, requests_not_found, requests_resource_exhausted, requests_error, Answer, Clock,
  failure_event, refuse, respond, finish_trace, model_infer,
}
use toutates.Grpc.Validate.{prepare_request-err_iff}

-- The counter that goes with a code: an invalid request is not counted.
abbrev pub counted : Code → List MetricEvent
counted not_found = requests_not_found ∷ []
counted invalid_argument = []
counted resource_exhausted = requests_resource_exhausted ∷ []
counted internal = requests_error ∷ []

refuse-counted :
    (e : InferError) (s : Status) → (refuse e).outcome ≡ err s → (refuse e).events ≡ counted s.code
unfolding refuse failure_event infer_error_to_status
refuse-counted ring_full s e = ground arith
refuse-counted unsupported_data_type s e = ground arith
refuse-counted (session_run t) s e = ground arith

-- A request that is refused adds to the metrics the one counter that goes with the code of its
-- status, and nothing else; with the code for an invalid argument it adds nothing.
pub model_infer-counted :
    (num_elements : Dims → ℕ) (models : ModelMap) (request : InferRequest) (clock : Clock)
    (rounds : List Round) (states : List BatchState) (a : Answer) (s : Status)
    → model_infer num_elements models request clock rounds states ≡ some a
    → a.outcome ≡ err s
    → a.events ≡ counted s.code
unfolding model_infer respond
model_infer-counted num_elements models request clock rounds states a s e refused =
    elim (Result-cases (prepare_request models request)) [
      | inr (inl (t, unprepared)) ↦
          elim ((prepare_request-err_iff models request t.code).0 (t, unprepared, refl)) [
            | inl (_, code) ↦ ground (arith, unprepared, code)
            | inr (_, _, code, _) ↦ ground (arith, unprepared, code)
          ]
      | inr (inr crashed) ↦ ground (arith, crashed)
      | inl ((proxy, inputs), prepared) ↦
          (let trace =
              record_serialization_done clock.serialized
                (record_model_proxy_aquired clock.proxy_aquired (start_trace clock.start)) in
            elim (Option-cases (infer num_elements inputs trace clock.queued rounds)) [
              | inl waiting ↦ absurd (ground (arith, prepared, waiting))
              | inr ((b, r), ran) ↦ elim (Result-cases r) [
                | inr (inl (x, failed)) ↦ ground (arith, prepared, ran, failed, refuse-counted x s)
                | inr (inr crashed) ↦ ground (arith, prepared, ran, crashed)
                | inl ((reservations, queued), claimed) ↦
                    elim (Option-cases (get_data states reservations [] none)) [
                      | inl waiting ↦ absurd (ground (arith, prepared, ran, claimed, waiting))
                      | inr (collected, got) ↦ elim (Result-cases collected) [
                        | inr (inl (x, failed)) ↦
                            ground (arith, prepared, ran, claimed, got, failed, refuse-counted x s)
                        | inr (inr crashed) ↦ ground (arith, prepared, ran, claimed, got, crashed)
                        | inl ((raw, (metas, cell)), there) ↦
                            elim (Result-cases (finish_trace clock states cell queued)) [
                              | inl (times, timed) ↦
                                  absurd (ground (arith, prepared, ran, claimed, got, there, timed))
                              | inr (inl (x, failed)) ↦
                                  absurd
                                    (ground (arith, prepared, ran, claimed, got, there, failed))
                              | inr (inr crashed) ↦
                                  absurd
                                    (ground (arith, prepared, ran, claimed, got, there, crashed))
                            ]
                      ]
                    ]
              ]
            ])
    ]
