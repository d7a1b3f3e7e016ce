-- ===== src/Metrics/Registry/Unique.antt =====
-- `MetricsRegistry::new` of src/metrics/registry.rs unwraps each call of the crate `prometheus`.
use toutates.Base.{
  ◌<◌, List, [], ◌∷◌, same_text, if◌then◌else◌, Option, none, some, ok, ap, ◌∙◌, Bool, true, false,
  not, ◌&&◌, ◌≡◌, refl, arith, String,
}
use toutates.Metrics.Registry.{
  Buckets, Kind, counter, gauge, histogram, Prometheus, bounds_of, add_family, Family, Opts, opts,
  all_families, register_all, new_registry, inference_requests_total, inference_batches_total,
  inference_batch_items, inference_client_batch_size, inference_request_duration_seconds,
  inference_batch_duration_seconds, inference_model_execution_seconds,
  inference_model_session_run_seconds, inference_model_h2d_copy_seconds,
  inference_model_d2h_copy_seconds, inference_requests_model_proxy_aquired,
  inference_requests_serialization_done, inference_requests_inference_in_queue,
  inference_requests_inference_exec_start, inference_requests_inference_exec_end,
  inference_requests_output_processed, inference_inflight, inference_capacity,
  inference_executors_in_use, inference_configured_batch_size, loaded_models,
}
use toutates.Metrics.Registry.Accepted.{has_bounds, accepts}

abbrev pub has_name : List String → String → Bool
has_name [] name = false
has_name (n ∷ ns) name = if same_text n name then true else has_name ns name

-- What `prometheus` documents: bounds are made from a positive start, a factor above one and a count
-- above zero; a collector of one's name from options that it accepts, with the bounds of their
-- histogram; and a registry takes a collector whose name no collector that it holds has.
pub record IsPrometheus {Registry Collector Bounds : Type 0}
    (crate : Prometheus Registry Collector Bounds) (empty : Registry) : Type 0 where
  pub names : Registry → List String
  pub name_of : Collector → String
  pub names_empty : names empty ≡ []
  pub makes_bounds :
      (b : Buckets)
      → 0 < b.start
      → 1 < b.factor
      → 0 < b.count
      → (bounds : Bounds) × (crate.exponential_buckets b ≡ some bounds)
  pub makes_collector :
      (o : Opts) (bounds : Option Bounds)
      → accepts o ≡ true
      → bounds_of crate o.kind ≡ ok bounds
      → (c : Collector) × (crate.new_collector o bounds ≡ some c) × (name_of c ≡ o.name)
  pub registers :
      (r : Registry) (c : Collector)
      → has_name (names r) (name_of c) ≡ false
      → (r' : Registry) × (crate.register r c ≡ some r') × (names r' ≡ name_of c ∷ names r)

all_new : List Family → List String → Bool
all_new [] ns = true
all_new (f ∷ fs) ns = not (has_name ns (opts f).name) && all_new fs ((opts f).name ∷ ns)

push_names : List Family → List String → List String
push_names [] ns = ns
push_names (f ∷ fs) ns = push_names fs ((opts f).name ∷ ns)

registered : (f : Family) → has_name (push_names all_families []) (opts f).name ≡ true
unfolding push_names all_families opts
registered inference_requests_total = refl
registered inference_batches_total = refl
registered inference_batch_items = refl
registered inference_client_batch_size = refl
registered inference_request_duration_seconds = refl
registered inference_batch_duration_seconds = refl
registered inference_model_execution_seconds = refl
registered inference_model_session_run_seconds = refl
registered inference_model_h2d_copy_seconds = refl
registered inference_model_d2h_copy_seconds = refl
registered inference_requests_model_proxy_aquired = refl
registered inference_requests_serialization_done = refl
registered inference_requests_inference_in_queue = refl
registered inference_requests_inference_exec_start = refl
registered inference_requests_inference_exec_end = refl
registered inference_requests_output_processed = refl
registered inference_inflight = refl
registered inference_capacity = refl
registered inference_executors_in_use = refl
registered inference_configured_batch_size = refl
registered loaded_models = refl

all_families-new : all_new all_families [] ≡ true
unfolding all_new all_families opts
all_families-new = refl

accepted : (f : Family) → accepts (opts f) ≡ true
unfolding opts accepts
accepted inference_requests_total = refl
accepted inference_batches_total = refl
accepted inference_batch_items = refl
accepted inference_client_batch_size = refl
accepted inference_request_duration_seconds = refl
accepted inference_batch_duration_seconds = refl
accepted inference_model_execution_seconds = refl
accepted inference_model_session_run_seconds = refl
accepted inference_model_h2d_copy_seconds = refl
accepted inference_model_d2h_copy_seconds = refl
accepted inference_requests_model_proxy_aquired = refl
accepted inference_requests_serialization_done = refl
accepted inference_requests_inference_in_queue = refl
accepted inference_requests_inference_exec_start = refl
accepted inference_requests_inference_exec_end = refl
accepted inference_requests_output_processed = refl
accepted inference_inflight = refl
accepted inference_capacity = refl
accepted inference_executors_in_use = refl
accepted inference_configured_batch_size = refl
accepted loaded_models = refl

module _ {Registry Collector Bounds : Type 0} (crate : Prometheus Registry Collector Bounds)
    (empty : Registry) (law : IsPrometheus crate empty) where
  bounds_of-total :
      (k : Kind) → has_bounds k ≡ true → (bounds : Option Bounds) × (bounds_of crate k ≡ ok bounds)
  unfolding bounds_of
  bounds_of-total counter h = (none, refl)
  bounds_of-total gauge h = (none, refl)
  bounds_of-total (histogram b) h =
      let (bounds, made) = law.makes_bounds b (ground arith) (ground arith) (ground arith) in
      (some bounds, rw made refl)

  add_family-ok :
      (f : Family) (r : Registry)
      → has_name (law.names r) (opts f).name ≡ false
      → (r' : Registry) × (add_family crate f r ≡ ok r')
        × (law.names r' ≡ (opts f).name ∷ law.names r)
  unfolding add_family accepts
  add_family-ok f r new =
      let all = accepted f in
      let (bounds, bounded) = bounds_of-total (opts f).kind (ground (arith, all)) in
      let (c, made, named) = law.makes_collector (opts f) bounds all bounded in
      let (r', taken, now) = law.registers r c (ap (has_name (law.names r)) named ∙ new) in
      (r', rw (bounded, made, taken) refl, now ∙ ap (λ n. n ∷ law.names r) named)

  register_all-ok :
      (fs : List Family) (r : Registry)
      → all_new fs (law.names r) ≡ true
      → (r' : Registry) × (register_all crate fs r ≡ ok r')
        × (law.names r' ≡ push_names fs (law.names r))
  unfolding register_all all_new push_names
  register_all-ok [] r new = (r, refl, refl)
  register_all-ok (f ∷ fs) r new =
      let (r₁, added, now) = add_family-ok f r (ground arith) in
      let (r', all, names) = register_all-ok fs r₁ (rw now (ground arith)) in
      (r', rw added all, rw now at names)

  -- With a crate that makes the bounds and the collectors whose options it accepts (names of the
  -- characters that it allows, a help text, labels that differ), and a registry that takes a
  -- collector whenever it holds none of its name, no unwrap of the constructor panics, and the
  -- registry then holds every family.
  pub new_registry-ok :
      (r : Registry) × (new_registry crate empty ≡ ok r)
      × ((f : Family) → has_name (law.names r) (opts f).name ≡ true)
  unfolding new_registry all_new
  new_registry-ok =
      let (r, made, names) =
        register_all-ok all_families empty (rw law.names_empty all_families-new) in
      (r, made, λ f. rw (names, law.names_empty) (registered f))
