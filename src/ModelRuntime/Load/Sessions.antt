-- ===== src/ModelRuntime/Load/Sessions.antt =====
-- What the loops of `load_model` of src/model_runtime/manager.rs over its sessions return.
use toutates.Base.{
  ℕ, zero, suc, ◌+◌, ◌*◌, ◌≤◌, ◌<◌, ◌^◌, List, [], ◌∷◌, length, Option, Result, ok, err, panic,
  bind-ok, ok-injective, ap₂, ◌≡◌, sym, ap, ◌∙◌, arith, String,
}
use toutates.Tensor.Element.{ElementType}
use toutates.Tensor.Errors.{InferError}
use toutates.Tensor.Bytes.{Bytes, Dims}
use toutates.Tensor.Copy.{HostTensor}
use toutates.SuperTensor.Buffer.{SuperTensorBuffer}
use toutates.SuperTensor.Construct.{Outlet, Overrides, new_with_overrides}
use toutates.SuperTensor.Executor.{get_data_view, warmup}
use toutates.Loader.{Device, Elapsed}
use toutates.ModelRuntime.{
  allocator_create, ProfilingConfig, ModelRepositoryConfig, BoundTensor, next_pin,
}
use toutates.ModelRuntime.Binding.{Memory}
use toutates.ModelRuntime.Load.{
  Builder, SessionThread, Io, expect, run_once, warm_once, warm_iterations, bind_io, warm_sessions,
  build_session, memory_of, load_error, build_error, new_buffer, spawn_sessions, build_sessions,
}
use toutates.ModelRuntime.Load.Warm.{IsReady, warmup-IsReady}

expect-ok : {A : Type 0} (r : Result InferError A) (a : A) → expect r ≡ ok a → r ≡ ok a
expect-ok (ok x) a e = ground arith
expect-ok (err x) a e = absurd (ground arith)
expect-ok panic a e = absurd (ground arith)

module _ {B D MemoryInfo Allocator GpuInput Value : Type 0} (build : Builder B D)
    (memory : Memory D MemoryInfo Allocator GpuInput)
    (device : Device D HostTensor GpuInput (ElementType × Dims) Value) (times : Elapsed)
    (zeroed : Allocator → ElementType → Dims → Bytes) where
  module _ (allocated : ElementType → Dims → Bytes) (inputs : List Outlet) (overrides : Overrides)
      (num_elements : Dims → ℕ) (capacity batch_size : ℕ) (fits : capacity * batch_size ≤ 2 ^ 61)
      (two : 1 < capacity) (b : SuperTensorBuffer)
      (made : new_with_overrides allocated capacity batch_size inputs overrides ≡ ok b) where
    abbrev Warmed : ℕ → SuperTensorBuffer → Type 0
    Warmed = IsReady allocated inputs overrides num_elements capacity batch_size fits two b made

    warm_once-IsReady :
        (d d1 : D) (gpu_io : Option (Io build memory device times zeroed)) (n : ℕ)
        (c c1 : SuperTensorBuffer)
        → Warmed n c
        → warm_once build memory device times zeroed d gpu_io c ≡ ok (d1, c1)
        → Warmed (suc n) c1
    unfolding warm_once
    warm_once-IsReady d d1 gpu_io n c c1 r e =
        let (views, _, e₁) = bind-ok (expect (get_data_view c c.head)) _ (d1, c1) e in
        let ((d', _, _), _, e₂) =
          bind-ok (expect (run_once build memory device times zeroed d gpu_io views)) _ (d1, c1)
            e₁ in
        let (u, ran, last) = bind-ok (expect (warmup c).1) _ (d1, c1) e₂ in
        let same : (warmup c).0 ≡ c1 = ap (λ p. p.1) (ok-injective _ _ last) in
        warmup-IsReady allocated inputs overrides num_elements capacity batch_size fits two b made n
          c c1 r (ap₂ (λ x y. (x, y)) same (expect-ok (warmup c).1 tt ran))

    warm_iterations-IsReady :
        (k : ℕ) (d d1 : D) (gpu_io : Option (Io build memory device times zeroed)) (n : ℕ)
        (c c1 : SuperTensorBuffer)
        → Warmed n c
        → warm_iterations build memory device times zeroed k d gpu_io c ≡ ok (d1, c1)
        → Warmed (n + k) c1
    unfolding warm_iterations
    warm_iterations-IsReady zero d d1 gpu_io n c c1 r e =
        let same : c ≡ c1 = ap (λ p. p.1) (ok-injective _ _ e) in
        let count : n + 0 ≡ n = omega arith in rw (sym same, count) r
    warm_iterations-IsReady (suc k) d d1 gpu_io n c c1 r e =
        let ((d', c'), first, rest) =
          bind-ok (warm_once build memory device times zeroed d gpu_io c) _ (d1, c1) e in
        let r' = warm_once-IsReady d d' gpu_io n c c' r first in
        let count : n + suc k ≡ suc n + k = omega arith in
        rw count (warm_iterations-IsReady k d' d1 gpu_io (suc n) c' c1 r' rest)

    pub warm_sessions-IsReady :
        (gpu_spec : Option (List BoundTensor × List BoundTensor)) (ds : List D)
        (ws : List (D × Option (Io build memory device times zeroed))) (n : ℕ)
        (c c1 : SuperTensorBuffer)
        → Warmed n c
        → warm_sessions build memory device times zeroed gpu_spec ds c ≡ ok (ws, c1)
        → (length ws ≡ length ds) × Warmed (n + 3 * length ds) c1
    unfolding warm_sessions
    warm_sessions-IsReady gpu_spec [] ws n c c1 r e =
        let same = ok-injective _ _ e in
        let count : n + 3 * 0 ≡ n = omega arith in
        (ap (λ p. length p.0) (sym same), rw (count, ap (λ p. p.1) (sym same)) r)
    warm_sessions-IsReady gpu_spec (d ∷ ds) ws n c c1 r e =
        let ((d', gpu_io), _, e₁) =
          bind-ok (bind_io build memory device times zeroed gpu_spec d) _ (ws, c1) e in
        let ((d'', c'), iterated, e₂) =
          bind-ok (warm_iterations build memory device times zeroed 3 d' gpu_io c) _ (ws, c1) e₁ in
        let ((rest, c''), more, last) =
          bind-ok (warm_sessions build memory device times zeroed gpu_spec ds c') _ (ws, c1) e₂ in
        let same = ok-injective _ _ last in
        let (lengths, r') =
          warm_sessions-IsReady gpu_spec ds rest (n + 3) c' c''
            (warm_iterations-IsReady 3 d' d'' gpu_io n c c' r iterated) more in
        let count : n + 3 * suc (length ds) ≡ n + 3 + 3 * length ds = omega arith in
        (ap (λ p. length p.0) (sym same) ∙ ap suc lengths, rw (count, ap (λ p. p.1) (sym same)) r')

  pub length-build_sessions :
      (profiling : Option ProfilingConfig) (libs : List String) (path : String) (n : ℕ)
      (ds : List D)
      → build_sessions build memory device times zeroed profiling libs path n ≡ ok ds
      → length ds ≡ n
  unfolding build_sessions
  length-build_sessions profiling libs path zero ds e = ap length (sym (ok-injective _ _ e))
  length-build_sessions profiling libs path (suc n) ds e =
      let (d, _, e₁) =
        bind-ok (build_session build memory device times zeroed profiling libs path) _ ds e in
      let (rest, more, last) =
        bind-ok (build_sessions build memory device times zeroed profiling libs path n) _ ds e₁ in
      ap length (sym (ok-injective _ _ last))
      ∙ ap suc (length-build_sessions profiling libs path n rest more)

  pub length-spawn_sessions :
      (pool : Option (List ℕ)) (stop_after : Option ℕ) (i counter : ℕ)
      (ws : List (D × Option (Io build memory device times zeroed)))
      (ts : List (SessionThread D (Io build memory device times zeroed))) (last : ℕ)
      → spawn_sessions build memory device times zeroed pool stop_after i counter ws ≡ ok (ts, last)
      → length ts ≡ length ws
  unfolding spawn_sessions
  length-spawn_sessions pool stop_after i counter [] ts last e =
      ap (λ p. length p.0) (sym (ok-injective _ _ e))
  length-spawn_sessions pool stop_after i counter ((d, gpu_io) ∷ ws) ts last e =
      let ((pin, counter'), _, e₁) = bind-ok (next_pin pool counter) _ (ts, last) e in
      let ((rest, last'), more, done) =
        bind-ok
          (spawn_sessions build memory device times zeroed pool stop_after (suc i) counter' ws) _
          (ts, last) e₁ in
      ap (λ p. length p.0) (sym (ok-injective _ _ done))
      ∙ ap suc (length-spawn_sessions pool stop_after (suc i) counter' ws rest last' more)

  build_error-ok : {A : Type 0} (r : Result InferError A) (a : A) → build_error r ≡ ok a → r ≡ ok a
  build_error-ok (ok x) a e = ground arith
  build_error-ok (err x) a e = absurd (ground arith)
  build_error-ok panic a e = absurd (ground arith)

  pub new_buffer-ok :
      (config : ModelRepositoryConfig) (first : D) (b : SuperTensorBuffer)
      → new_buffer build memory device times zeroed config first ≡ ok b
      → (allocator : Allocator) × (new_with_overrides
            (zeroed allocator)
            config.capacity
            config.batch_size
            (build.inputs first)
            config.input_shapes
          ≡ ok b)
  unfolding new_buffer
  new_buffer-ok config first b e =
      let (device_of, type_of) = memory_of config.allocator in
      let (info, _, e₁) =
        bind-ok (load_error allocator_create (memory.memory_info device_of type_of)) _ b e in
      let (allocator, _, e₂) =
        bind-ok (load_error allocator_create (memory.new_allocator first info)) _ b e₁ in
      (allocator, build_error-ok _ b e₂)
