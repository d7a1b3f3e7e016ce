-- ===== src/Metrics/Local/Laws.antt =====
-- What src/metrics/local.rs relies on of `prometheus::local`, and how its fields name their series.
use toutates.Base.{
  same_text, if◌then◌else◌, List, [], ◌∷◌, ◌++◌, get_elem?, length, Option, none, some, ◌≡◌, ◌≢◌,
  refl, sym, ap, ◌∙◌, arith, String,
}
use toutates.Metrics.Registry.{
  opts, make_histogram_opts, inference_requests_total, inference_request_duration_seconds,
  inference_batch_items, inference_client_batch_size, inference_model_execution_seconds,
  inference_model_session_run_seconds, inference_model_h2d_copy_seconds,
  inference_model_d2h_copy_seconds, inference_requests_model_proxy_aquired,
  inference_requests_serialization_done, inference_requests_inference_in_queue,
  inference_requests_inference_exec_start, inference_requests_inference_exec_end,
  inference_requests_output_processed,
}
use toutates.Metrics.Local.{
  Instrument, family, label_values, place, all_instruments, Series, Entry, Handles, requests_ok,
  requests_not_found, requests_resource_exhausted, requests_error, request_duration, batch_items,
  client_batch_size, model_execution, model_session_run, model_h2d_copy, model_d2h_copy,
  model_proxy_aquired, serialization_done, inference_in_queue, inference_exec_start,
  inference_exec_end, output_processed,
}

-- A local handle belongs to a series, and holds back what is recorded with it until it is flushed;
-- a flush adds that to its series of the registry, and to no other. Newest entries come first.
pub record IsHandles {V : Type 0} (h : Handles V) : Type 0 where
  pub series : h.Handle → Series
  pub pending : h.Handle → List (Entry V)
  pub recorded : h.Registry → Series → List (Entry V)
  pub local_series : (s : Series) → series (h.local s) ≡ s
  pub local_pending : (s : Series) → pending (h.local s) ≡ []
  pub record_series : (e : Entry V) (x : h.Handle) → series (h.record_entry e x) ≡ series x
  pub record_pending : (e : Entry V) (x : h.Handle) → pending (h.record_entry e x) ≡ e ∷ pending x
  pub flush_series : (x : h.Handle) (r : h.Registry) → series (h.flush x r).1 ≡ series x
  pub flush_pending : (x : h.Handle) (r : h.Registry) → pending (h.flush x r).1 ≡ []
  pub flush_recorded :
      (x : h.Handle) (r : h.Registry)
      → recorded (h.flush x r).0 (series x) ≡ pending x ++ recorded r (series x)
  pub flush_others :
      (x : h.Handle) (r : h.Registry) (s : Series)
      → s ≢ series x
      → recorded (h.flush x r).0 s ≡ recorded r s

-- The series of a field of a model.
unfoldable pub series_of : Instrument → String → Series
series_of i model = (family i, label_values i model)

first_label : Series → Option String
first_label (f, []) = none
first_label (f, l ∷ ls) = some l

status_field : String → Option Instrument
status_field s =
    if same_text s "ok"
    then some requests_ok
    else if same_text s "not_found"
    then some requests_not_found
    else if same_text s "resource_exhausted"
    then some requests_resource_exhausted
    else some requests_error

field_of : Series → Option Instrument
field_of (inference_requests_total, m ∷ s ∷ []) = status_field s
field_of (inference_request_duration_seconds, ls) = some request_duration
field_of (inference_batch_items, ls) = some batch_items
field_of (inference_client_batch_size, ls) = some client_batch_size
field_of (inference_model_execution_seconds, ls) = some model_execution
field_of (inference_model_session_run_seconds, ls) = some model_session_run
field_of (inference_model_h2d_copy_seconds, ls) = some model_h2d_copy
field_of (inference_model_d2h_copy_seconds, ls) = some model_d2h_copy
field_of (inference_requests_model_proxy_aquired, ls) = some model_proxy_aquired
field_of (inference_requests_serialization_done, ls) = some serialization_done
field_of (inference_requests_inference_in_queue, ls) = some inference_in_queue
field_of (inference_requests_inference_exec_start, ls) = some inference_exec_start
field_of (inference_requests_inference_exec_end, ls) = some inference_exec_end
field_of (inference_requests_output_processed, ls) = some output_processed
field_of _ = none

field_of-series_of : (i : Instrument) (model : String) → field_of (series_of i model) ≡ some i
unfolding series_of family label_values status_field field_of
field_of-series_of requests_ok model = refl
field_of-series_of requests_not_found model = refl
field_of-series_of requests_resource_exhausted model = refl
field_of-series_of requests_error model = refl
field_of-series_of request_duration model = refl
field_of-series_of batch_items model = refl
field_of-series_of client_batch_size model = refl
field_of-series_of model_execution model = refl
field_of-series_of model_session_run model = refl
field_of-series_of model_h2d_copy model = refl
field_of-series_of model_d2h_copy model = refl
field_of-series_of model_proxy_aquired model = refl
field_of-series_of serialization_done model = refl
field_of-series_of inference_in_queue model = refl
field_of-series_of inference_exec_start model = refl
field_of-series_of inference_exec_end model = refl
field_of-series_of output_processed model = refl

first_label-series_of :
    (i : Instrument) (model : String) → first_label (series_of i model) ≡ some model
unfolding series_of label_values first_label
first_label-series_of requests_ok model = refl
first_label-series_of requests_not_found model = refl
first_label-series_of requests_resource_exhausted model = refl
first_label-series_of requests_error model = refl
first_label-series_of request_duration model = refl
first_label-series_of batch_items model = refl
first_label-series_of client_batch_size model = refl
first_label-series_of model_execution model = refl
first_label-series_of model_session_run model = refl
first_label-series_of model_h2d_copy model = refl
first_label-series_of model_d2h_copy model = refl
first_label-series_of model_proxy_aquired model = refl
first_label-series_of serialization_done model = refl
first_label-series_of inference_in_queue model = refl
first_label-series_of inference_exec_start model = refl
first_label-series_of inference_exec_end model = refl
first_label-series_of output_processed model = refl

some-injective : {A : Type 0} (a b : A) → some a ≡ some b → a ≡ b
some-injective a b e = ground arith

-- Different fields, and different models, have different series.
pub series_of-injective :
    (i j : Instrument) (m n : String) → series_of i m ≡ series_of j n → (i ≡ j) × (m ≡ n)
series_of-injective i j m n e = (
  some-injective i j (sym (field_of-series_of i m) ∙ ap field_of e ∙ field_of-series_of j n),
  some-injective m n
      (sym (first_label-series_of i m) ∙ ap first_label e ∙ first_label-series_of j n),
)

pub get_elem?-place : (i : Instrument) → get_elem? all_instruments (place i) ≡ some i
unfolding all_instruments place
get_elem?-place requests_ok = refl
get_elem?-place requests_not_found = refl
get_elem?-place requests_resource_exhausted = refl
get_elem?-place requests_error = refl
get_elem?-place request_duration = refl
get_elem?-place batch_items = refl
get_elem?-place client_batch_size = refl
get_elem?-place model_execution = refl
get_elem?-place model_session_run = refl
get_elem?-place model_h2d_copy = refl
get_elem?-place model_d2h_copy = refl
get_elem?-place model_proxy_aquired = refl
get_elem?-place serialization_done = refl
get_elem?-place inference_in_queue = refl
get_elem?-place inference_exec_start = refl
get_elem?-place inference_exec_end = refl
get_elem?-place output_processed = refl

pub place-injective : (i j : Instrument) → place i ≡ place j → i ≡ j
place-injective i j e =
    some-injective i j
      (sym (get_elem?-place i) ∙ ap (λ k. get_elem? all_instruments k) e ∙ get_elem?-place j)

-- `with_label_values` gets a value for each label of the family.
pub length-label_values :
    (i : Instrument) (model : String)
    → length (label_values i model) ≡ length ((opts (family i)).labels)
unfolding label_values family opts make_histogram_opts
length-label_values requests_ok model = refl
length-label_values requests_not_found model = refl
length-label_values requests_resource_exhausted model = refl
length-label_values requests_error model = refl
length-label_values request_duration model = refl
length-label_values batch_items model = refl
length-label_values client_batch_size model = refl
length-label_values model_execution model = refl
length-label_values model_session_run model = refl
length-label_values model_h2d_copy model = refl
length-label_values model_d2h_copy model = refl
length-label_values model_proxy_aquired model = refl
length-label_values serialization_done model = refl
length-label_values inference_in_queue model = refl
length-label_values inference_exec_start model = refl
length-label_values inference_exec_end model = refl
length-label_values output_processed model = refl
