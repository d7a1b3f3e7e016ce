-- ===== src/Tests/Device.antt =====
-- A device that keeps a list of its calls, the latest first.
use toutates.Base.{ℕ, List, [], ◌∷◌, none, some, ok, err, ◌≡◌, refl, Bool, true, false}
use toutates.Tensor.Errors.{session_run}
use toutates.Metrics.Local.{model_execution, model_session_run, model_h2d_copy, model_d2h_copy}
use toutates.Loader.{
  Device, GpuBoundIo, Elapsed, run_host, copy_inputs, copy_outputs, run_gpu_bound, run_session,
}

data Call : Type 0 where
  ran bound allocated : Call
  copied_in : ℕ → ℕ → Call
  copied_out : Bool → ℕ → Call

abbrev device : Device (List Call) ℕ ℕ ℕ ℕ
device = record {
  run_with_options = λ d inputs. err "no host";
  copy_into_async = λ d view input. ok (copied_in view input ∷ d);
  run_binding = λ d. ok (bound ∷ d, ("a", 7) ∷ ("b", 8) ∷ []);
  new_tensor = λ d spec. ok (allocated ∷ d, spec);
  copy_out = λ d waits value cpu. ok (copied_out waits value ∷ d, value);
}

abbrev io : GpuBoundIo ℕ ℕ
io = record { gpu_inputs = 1 ∷ 2 ∷ []; output_dtypes_shapes = 0 ∷ 0 ∷ [] }

abbrev elapsed : Elapsed
elapsed = record { h2d = 10; run = 20; d2h = 30 }

-- Only the last copy waits for the stream.
run_session-gpu :
    run_session device [] (some io) (4 ∷ 5 ∷ []) elapsed 70
    ≡ ok (
      copied_out true 8
          ∷ allocated
          ∷ copied_out false 7
          ∷ allocated
          ∷ bound
          ∷ copied_in 5 2
          ∷ copied_in 4 1
          ∷ [],
      7 ∷ 8 ∷ [],
      (model_session_run, 20)
          ∷ (model_h2d_copy, 10)
          ∷ (model_d2h_copy, 30)
          ∷ (model_execution, 70)
          ∷ [],
    )
unfolding run_session run_gpu_bound copy_inputs copy_outputs
run_session-gpu = refl

run_session-host : run_session device [] none (4 ∷ 5 ∷ []) elapsed 70 ≡ err (session_run "no host")
unfolding run_session run_host
run_session-host = refl
