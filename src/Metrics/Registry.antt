-- ===== src/Metrics/Registry.antt =====
-- `MetricsRegistry` of src/metrics/registry.rs: the families of metrics, as the table that its
-- constructor registers. The crate `prometheus` is a parameter.
pub mod Accepted
pub mod Unique
use toutates.Base.{ℕ, ◌*◌, List, [], ◌∷◌, Option, none, some, Result, ok, unwrap, ◌>>=◌, String}

-- The fields of `MetricsRegistry` beside the registry.
pub data Family : Type 0 where
  inference_requests_total : Family
  inference_batches_total : Family
  inference_batch_items : Family
  inference_client_batch_size : Family
  inference_request_duration_seconds : Family
  inference_batch_duration_seconds : Family
  inference_model_execution_seconds : Family
  inference_model_session_run_seconds : Family
  inference_model_h2d_copy_seconds : Family
  inference_model_d2h_copy_seconds : Family
  inference_requests_model_proxy_aquired : Family
  inference_requests_serialization_done : Family
  inference_requests_inference_in_queue : Family
  inference_requests_inference_exec_start : Family
  inference_requests_inference_exec_end : Family
  inference_requests_output_processed : Family
  inference_inflight : Family
  inference_capacity : Family
  inference_executors_in_use : Family
  inference_configured_batch_size : Family
  loaded_models : Family

-- `exponential_buckets(start, factor, count)`, with the start in ten-thousandths.
pub record Buckets : Type 0 where
  pub start : ℕ
  pub factor : ℕ
  pub count : ℕ

pub data Kind : Type 0 where
  counter gauge : Kind
  histogram : Buckets → Kind

pub record Opts : Type 0 where
  pub name : String
  pub help : String
  pub kind : Kind
  pub labels : List String

-- `make_histogram_opts`, with the one label that its callers give.
unfoldable pub make_histogram_opts : String → String → Opts
make_histogram_opts name help = record {
  name = name;
  help = help;
  kind = histogram (record { start = 1; factor = 2; count = 18 });
  labels = "model" ∷ [];
}

unfoldable pub opts : Family → Opts
unfolding make_histogram_opts
opts inference_requests_total = record {
  name = "inference_requests_total";
  help = "Total number of inference requests";
  kind = counter;
  labels = "model" ∷ "status" ∷ [];
}
opts inference_batches_total = record {
  name = "inference_batches_total";
  help = "Total number of inference batches";
  kind = counter;
  labels = "model" ∷ [];
}
opts inference_batch_items = record {
  name = "inference_batch_items";
  help = "Number of items in a batch before execution";
  kind = histogram (record { start = 10000; factor = 2; count = 12 });
  labels = "model" ∷ [];
}
opts inference_client_batch_size = record {
  name = "inference_client_batch_size";
  help = "Batch size requested by clients (input tensor dim 0)";
  kind = histogram (record { start = 10000; factor = 2; count = 12 });
  labels = "model" ∷ [];
}
opts inference_request_duration_seconds =
    make_histogram_opts "inference_request_duration_seconds"
      "Duration of inference requests in seconds"
opts inference_batch_duration_seconds =
    make_histogram_opts "inference_batch_duration_seconds"
      "Duration of inference batches in seconds"
opts inference_model_execution_seconds =
    make_histogram_opts "inference_model_execution_seconds"
      "Duration of model execution (ORT session run) in seconds"
opts inference_model_session_run_seconds =
    make_histogram_opts "inference_model_session_run_seconds"
      "Duration of the ORT session run call only (excludes H2D/D2H copies) in seconds"
opts inference_model_h2d_copy_seconds =
    make_histogram_opts "inference_model_h2d_copy_seconds"
      "Duration of host-to-device input copy for GPU-bound executors in seconds"
opts inference_model_d2h_copy_seconds =
    make_histogram_opts "inference_model_d2h_copy_seconds"
      "Duration of device-to-host output copy for GPU-bound executors in seconds"
opts inference_requests_model_proxy_aquired =
    make_histogram_opts "inference_request_model_proxy_aquired_seconds"
      "STEP 1: How long it took to fetch the reference the model"
opts inference_requests_serialization_done =
    make_histogram_opts "inference_serialization_done_seconds"
      "STEP 2: How long it took to deserialize from GRPC and serialize to the inner batch structure"
opts inference_requests_inference_in_queue =
    make_histogram_opts "inference_inference_in_queue_seconds"
      "STEP 3: How long it took to acquire a slot within the inner batch structure and copy data"
opts inference_requests_inference_exec_start =
    make_histogram_opts "inference_exec_start_seconds" "STEP 4: How long request was queued"
opts inference_requests_inference_exec_end =
    make_histogram_opts "inference_exec_end_seconds" "STEP 5: How long request was executed"
opts inference_requests_output_processed =
    make_histogram_opts "inference_output_processed_seconds"
      "STEP 6: how long after execution it was processed by the response thread"
opts inference_inflight = record {
  name = "inference_inflight";
  help = "Total slots in the pipeline (queued + executing)";
  kind = gauge;
  labels = "model" ∷ [];
}
opts inference_capacity = record {
  name = "inference_capacity";
  help = "Total ring buffer capacity (batch_size * num_batches)";
  kind = gauge;
  labels = "model" ∷ [];
}
opts inference_executors_in_use = record {
  name = "inference_executors_in_use";
  help = "Number of executors currently running a batch";
  kind = gauge;
  labels = "model" ∷ [];
}
opts inference_configured_batch_size = record {
  name = "inference_configured_batch_size";
  help = "Configured batch size per model";
  kind = gauge;
  labels = "model" ∷ [];
}
opts loaded_models = record {
  name = "loaded_models";
  help = "Number of currently loaded models";
  kind = gauge;
  labels = [];
}

-- The families in the order in which the constructor registers them.
unfoldable pub all_families : List Family
all_families =
    inference_requests_total ∷ inference_batches_total ∷ inference_batch_items
    ∷ inference_client_batch_size ∷ inference_request_duration_seconds
    ∷ inference_batch_duration_seconds ∷ inference_model_execution_seconds
    ∷ inference_model_session_run_seconds ∷ inference_model_h2d_copy_seconds
    ∷ inference_model_d2h_copy_seconds ∷ inference_requests_model_proxy_aquired
    ∷ inference_requests_serialization_done ∷ inference_requests_inference_in_queue
    ∷ inference_requests_inference_exec_start ∷ inference_requests_inference_exec_end
    ∷ inference_requests_output_processed ∷ inference_inflight ∷ inference_capacity
    ∷ inference_executors_in_use ∷ inference_configured_batch_size ∷ loaded_models ∷ []

-- What the crate `prometheus` does: the bounds of a histogram, a collector (`IntCounterVec::new` and
-- its likes) for the options of a family and the bounds that it was given, and its registration.
pub record Prometheus (Registry Collector Bounds : Type 0) : Type 0 where
  pub exponential_buckets : Buckets → Option Bounds
  pub new_collector : Opts → Option Bounds → Option Collector
  pub register : Registry → Collector → Option Registry

module _ {Registry Collector Bounds : Type 0} (crate : Prometheus Registry Collector Bounds) where
  -- `exponential_buckets(…).unwrap()`, for a histogram.
  unfoldable pub bounds_of : Kind → Result String (Option Bounds)
  bounds_of counter = ok none
  bounds_of gauge = ok none
  bounds_of (histogram b) = do bounds ← unwrap (crate.exponential_buckets b); ok (some bounds)

  -- A family is made and registered; each of the calls is unwrapped.
  unfoldable pub add_family : Family → Registry → Result String Registry
  unfolding bounds_of
  add_family f r = do
    bounds ← bounds_of (opts f).kind
    collector ← unwrap (crate.new_collector (opts f) bounds)
    unwrap (crate.register r collector)

  unfoldable pub register_all : List Family → Registry → Result String Registry
  unfolding add_family
  register_all [] r = ok r
  register_all (f ∷ fs) r = do r' ← add_family f r; register_all fs r'

  -- `MetricsRegistry::new` on `Registry::new()`.
  unfoldable pub new_registry : Registry → Result String Registry
  unfolding register_all all_families
  new_registry empty = register_all all_families empty
