-- ===== src/Metrics/Local.antt =====
-- `LocalMetrics` of src/metrics/local.rs: what a thread has counted for each model and not yet given
-- to the registry. The counters and histograms of the crate `prometheus` are an interface.
pub mod Laws
pub mod Flush
pub mod Models
pub mod Updates
pub mod Sums
use toutates.Base.{
  ℕ, ◌==◌, same_text, if◌then◌else◌, List, [], ◌∷◌, Option, none, some, Result, ok, err, panic,
  String,
}
use toutates.Metrics.Registry.{
  Family, inference_requests_total, inference_request_duration_seconds, inference_batch_items,
  inference_client_batch_size, inference_model_execution_seconds,
  inference_model_session_run_seconds, inference_model_h2d_copy_seconds,
  inference_model_d2h_copy_seconds, inference_requests_model_proxy_aquired,
  inference_requests_serialization_done, inference_requests_inference_in_queue,
  inference_requests_inference_exec_start, inference_requests_inference_exec_end,
  inference_requests_output_processed,
}

-- The fields of `LocalModelMetrics`.
pub data Instrument : Type 0 where
  requests_ok : Instrument
  requests_not_found : Instrument
  requests_resource_exhausted : Instrument
  requests_error : Instrument
  request_duration : Instrument
  batch_items : Instrument
  client_batch_size : Instrument
  model_execution : Instrument
  model_session_run : Instrument
  model_h2d_copy : Instrument
  model_d2h_copy : Instrument
  model_proxy_aquired : Instrument
  serialization_done : Instrument
  inference_in_queue : Instrument
  inference_exec_start : Instrument
  inference_exec_end : Instrument
  output_processed : Instrument

-- The families and the label values that `ensure_model` takes a field from.
unfoldable pub family : Instrument → Family
family requests_ok = inference_requests_total
family requests_not_found = inference_requests_total
family requests_resource_exhausted = inference_requests_total
family requests_error = inference_requests_total
family request_duration = inference_request_duration_seconds
family batch_items = inference_batch_items
family client_batch_size = inference_client_batch_size
family model_execution = inference_model_execution_seconds
family model_session_run = inference_model_session_run_seconds
family model_h2d_copy = inference_model_h2d_copy_seconds
family model_d2h_copy = inference_model_d2h_copy_seconds
family model_proxy_aquired = inference_requests_model_proxy_aquired
family serialization_done = inference_requests_serialization_done
family inference_in_queue = inference_requests_inference_in_queue
family inference_exec_start = inference_requests_inference_exec_start
family inference_exec_end = inference_requests_inference_exec_end
family output_processed = inference_requests_output_processed

unfoldable pub label_values : Instrument → String → List String
label_values requests_ok model = model ∷ "ok" ∷ []
label_values requests_not_found model = model ∷ "not_found" ∷ []
label_values requests_resource_exhausted model = model ∷ "resource_exhausted" ∷ []
label_values requests_error model = model ∷ "error" ∷ []
label_values _ model = model ∷ []

-- The place of a field in the struct.
unfoldable pub place : Instrument → ℕ
place requests_ok = 0
place requests_not_found = 1
place requests_resource_exhausted = 2
place requests_error = 3
place request_duration = 4
place batch_items = 5
place client_batch_size = 6
place model_execution = 7
place model_session_run = 8
place model_h2d_copy = 9
place model_d2h_copy = 10
place model_proxy_aquired = 11
place serialization_done = 12
place inference_in_queue = 13
place inference_exec_start = 14
place inference_exec_end = 15
place output_processed = 16

unfoldable pub all_instruments : List Instrument
all_instruments =
    requests_ok ∷ requests_not_found ∷ requests_resource_exhausted ∷ requests_error
    ∷ request_duration ∷ batch_items ∷ client_batch_size ∷ model_execution ∷ model_session_run
    ∷ model_h2d_copy ∷ model_d2h_copy ∷ model_proxy_aquired ∷ serialization_done
    ∷ inference_in_queue ∷ inference_exec_start ∷ inference_exec_end ∷ output_processed ∷ []

-- A series of the registry: a family and the values of its labels.
abbrev pub Series : Type 0
Series = Family × List String

-- What is recorded at a series: `inc()`, or `observe(v)`.
pub data Entry (V : Type 0) : Type 0 where
  inc : Entry V
  observe : V → Entry V

-- What the code uses of `prometheus::local`; `local` is `with_label_values(…).local()`.
pub record Handles (V : Type 0) : Type 1 where
  pub Registry : Type 0
  pub Handle : Type 0
  pub local : Series → Handle
  pub record_entry : Entry V → Handle → Handle
  pub flush : Handle → Registry → Registry × Handle

module _ {V : Type 0} (h : Handles V) where
  -- The struct, as what each of its fields holds.
  abbrev pub LocalModelMetrics : Type 0
  LocalModelMetrics = Instrument → h.Handle

  -- The map `per_model`.
  abbrev pub PerModel : Type 0
  PerModel = List (String × LocalModelMetrics)

  unfoldable pub find_model : String → PerModel → Option LocalModelMetrics
  find_model model [] = none
  find_model model ((name, m) ∷ rest) =
      if same_text name model then some m else find_model model rest

  unfoldable pub new_model : String → LocalModelMetrics
  new_model model i = h.local (family i, label_values i model)

  unfoldable pub ensure_model : String → PerModel → PerModel
  unfolding find_model new_model
  ensure_model model t = elim (find_model model t) [
    | none ↦ (model, new_model model) ∷ t
    | some _ ↦ t
  ]

  abbrev pub set_field : Instrument → h.Handle → LocalModelMetrics → LocalModelMetrics
  set_field i x m j = if place i == place j then x else m j

  -- `self.per_model.borrow()[model].field.op()`; a model without an entry is a panic.
  unfoldable pub update_field : Instrument → String → Entry V → PerModel → Result String PerModel
  unfolding place
  update_field i model e [] = panic
  update_field i model e ((name, m) ∷ rest) =
      let later = update_field i model e rest in
      if same_text name model
      then ok ((name, set_field i (h.record_entry e (m i)) m) ∷ rest)
      else elim later [ ok rest' ↦ ok ((name, m) ∷ rest') | err x ↦ err x | panic ↦ panic ]

  -- `inc_requests_ok` to `observe_output_processed`: they differ in the field.
  unfoldable pub record_on : Instrument → String → Entry V → PerModel → Result String PerModel
  unfolding ensure_model update_field
  record_on i model e t = update_field i model e (ensure_model model t)

  unfoldable pub flush_fields :
      List Instrument → LocalModelMetrics → h.Registry → h.Registry × LocalModelMetrics
  unfolding place
  flush_fields [] m r = (r, m)
  flush_fields (i ∷ is) m r = let (r', x) = h.flush (m i) r in flush_fields is (set_field i x m) r'

  -- `LocalMetrics::flush`, and its `drop`.
  unfoldable pub flush_models : PerModel → h.Registry → h.Registry × PerModel
  flush_models [] r = (r, [])
  flush_models ((name, m) ∷ rest) r =
      let (r₁, m') = flush_fields all_instruments m r in
      let (r₂, rest') = flush_models rest r₁ in (r₂, (name, m') ∷ rest')

  -- The thread's `LOCAL_METRICS`. `init_local_metrics` drops what was there.
  abbrev pub ThreadMetrics : Type 0
  ThreadMetrics = Option PerModel

  unfoldable pub init_local_metrics : ThreadMetrics → h.Registry → h.Registry × ThreadMetrics
  unfolding flush_models
  init_local_metrics none r = (r, some [])
  init_local_metrics (some t) r = ((flush_models t r).0, some [])

  unfoldable pub with_local_metrics :
      Instrument → String → Entry V → ThreadMetrics → Result String ThreadMetrics
  unfolding record_on
  with_local_metrics i model e none = panic
  with_local_metrics i model e (some t) = elim (record_on i model e t) [
    | ok t' ↦ ok (some t')
    | err x ↦ err x
    | panic ↦ panic
  ]

  unfoldable pub flush_local_metrics : ThreadMetrics → h.Registry → h.Registry × ThreadMetrics
  unfolding flush_models
  flush_local_metrics none r = (r, none)
  flush_local_metrics (some t) r = let (r', t') = flush_models t r in (r', some t')
