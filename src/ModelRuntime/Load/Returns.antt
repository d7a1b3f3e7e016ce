-- ===== src/ModelRuntime/Load/Returns.antt =====
-- When `load_model` of src/model_runtime/manager.rs returns.
use native.Mathlib.Nat.{mod-lt}
use toutates.Base.{
  ℕ, zero, suc, ◌+◌, ◌*◌, ◌%◌, ◌≤◌, ◌<◌, ◌^◌, List, [], ◌∷◌, length, Option, none, some, Result, ok,
  ◌>>=◌, ◌≡◌, refl, ap, arith, usize_mod, String,
}
use toutates.Tensor.Element.{ElementType}
use toutates.Tensor.Bytes.{Bytes, Dims}
use toutates.Tensor.Copy.{HostTensor}
use toutates.SuperTensor.Buffer.{SuperTensorBuffer}
use toutates.SuperTensor.Construct.{Outlet, Overrides, new_with_overrides}
use toutates.SuperTensor.Executor.{warmup}
use toutates.Grpc.{ModelProxy}
use toutates.Loader.{Observed, Device, Elapsed}
use toutates.ModelRuntime.{ModelRepositoryConfig, BoundTensor, next_pin, build_proxy}
use toutates.ModelRuntime.Binding.{Memory}
use toutates.ModelRuntime.Load.{
  Builder, Manager, SessionThread, Io, run_once, warm_once, warm_iterations, bind_io, warm_sessions,
  prepare_model, load_model, stop_after_batches, new_buffer, spawn_sessions, build_sessions,
  gpu_spec_of,
}
use toutates.SuperTensor.Ring.GiveBack.{elem_in_range}
use toutates.ModelRuntime.Load.Sessions.{new_buffer-ok}
use toutates.ModelRuntime.Load.Warm.{new-IsReady, IsReady-warmup, IsReady, warmup-IsReady}

module _ {B D MemoryInfo Allocator GpuInput Value : Type 0} (build : Builder B D)
    (memory : Memory D MemoryInfo Allocator GpuInput)
    (device : Device D HostTensor GpuInput (ElementType × Dims) Value) (times : Elapsed)
    (zeroed : Allocator → ElementType → Dims → Bytes) where
  -- Every run of a session succeeds, and the tensors of `gpu_spec` can be bound to each of them.
  abbrev pub Runs : Type 0
  Runs =
      (d : D) (gpu_io : Option (Io build memory device times zeroed)) (views : List HostTensor)
      → (r : D × List Value × Observed) × (run_once build memory device times zeroed d gpu_io views
          ≡ ok r)

  abbrev pub Binds : Option (List BoundTensor × List BoundTensor) → Type 0
  Binds gpu_spec =
      (d : D)
      → (r : D × Option (Io build memory device times zeroed)) × (bind_io build memory device times
            zeroed gpu_spec d
          ≡ ok r)

  module _ (allocated : ElementType → Dims → Bytes) (inputs : List Outlet) (overrides : Overrides)
      (num_elements : Dims → ℕ) (capacity batch_size : ℕ) (fits : capacity * batch_size ≤ 2 ^ 61)
      (two : 1 < capacity) (b : SuperTensorBuffer)
      (made : new_with_overrides allocated capacity batch_size inputs overrides ≡ ok b)
      (runs : Runs) where
    abbrev Warmed : ℕ → SuperTensorBuffer → Type 0
    Warmed = IsReady allocated inputs overrides num_elements capacity batch_size fits two b made

    warm_once-returns :
        (d : D) (gpu_io : Option (Io build memory device times zeroed)) (n : ℕ)
        (c : SuperTensorBuffer)
        → Warmed n c
        → (d1 : D) × (warm_once build memory device times zeroed d gpu_io c ≡ ok (d1, (warmup c).0))
          × Warmed (suc n) (warmup c).0
    unfolding warm_once
    warm_once-returns d gpu_io n c r =
        let (views, has_views, returns) =
          IsReady-warmup allocated inputs overrides num_elements capacity batch_size fits two b made
            n c r in
        let ((d1, values, observed), ran) = runs d gpu_io views in
        (
          d1,
          rw (has_views, ran, returns) refl,
          warmup-IsReady allocated inputs overrides num_elements capacity batch_size fits two b made
              n c (warmup c).0 r (ap (λ u. ((warmup c).0, u)) returns),
        )

    warm_iterations-returns :
        (k : ℕ) (d : D) (gpu_io : Option (Io build memory device times zeroed)) (n : ℕ)
        (c : SuperTensorBuffer)
        → Warmed n c
        → (d1 : D) × (c1 : SuperTensorBuffer) × (m : ℕ) × (warm_iterations build memory device times
              zeroed k d gpu_io c
            ≡ ok (d1, c1))
          × Warmed m c1
    unfolding warm_iterations
    warm_iterations-returns zero d gpu_io n c r = (d, c, n, refl, r)
    warm_iterations-returns (suc k) d gpu_io n c r =
        let (d1, once, r1) = warm_once-returns d gpu_io n c r in
        let (d2, c2, m, rest, r2) = warm_iterations-returns k d1 gpu_io (suc n) (warmup c).0 r1 in
        (d2, c2, m, rw (once, rest) refl, r2)

    pub warm_sessions-returns :
        (gpu_spec : Option (List BoundTensor × List BoundTensor)) (ds : List D) (n : ℕ)
        (c : SuperTensorBuffer)
        → Binds gpu_spec
        → Warmed n c
        → (ws : List (D × Option (Io build memory device times zeroed))) × (c1 : SuperTensorBuffer)
          × (warm_sessions build memory device times zeroed gpu_spec ds c ≡ ok (ws, c1))
    unfolding warm_sessions
    warm_sessions-returns gpu_spec [] n c binds r = ([], c, refl)
    warm_sessions-returns gpu_spec (d ∷ ds) n c binds r =
        let ((d1, gpu_io), bound) = binds d in
        let (d2, c2, m, iterated, r2) = warm_iterations-returns 3 d1 gpu_io n c r in
        let (ws, c3, rest) = warm_sessions-returns gpu_spec ds m c2 binds r2 in
        ((d2, gpu_io) ∷ ws, c3, rw (bound, iterated, rest) refl)

bind-returns :
    {E A B : Type 0} (r : Result E A) (f : A → Result E B) (a : A)
    → r ≡ ok a
    → (b : B) × (f a ≡ ok b)
    → (b : B) × ((r >>= f) ≡ ok b)
bind-returns r f a e (b, h) = (b, rw e h)

next_pin-returns :
    (pool : Option (List ℕ)) (counter : ℕ) → (r : Option ℕ × ℕ) × (next_pin pool counter ≡ ok r)
unfolding next_pin
next_pin-returns none counter = (_, refl)
next_pin-returns (some []) counter = (_, refl)
next_pin-returns (some (c ∷ cs)) counter =
    let (core, there) =
      elem_in_range (c ∷ cs) (counter % length (c ∷ cs)) (mod-lt counter (omega arith)) in
    ((some core, (counter + 1) % usize_mod), ground (arith, there))

module _ {B D MemoryInfo Allocator GpuInput Value : Type 0} (build : Builder B D)
    (memory : Memory D MemoryInfo Allocator GpuInput)
    (device : Device D HostTensor GpuInput (ElementType × Dims) Value) (times : Elapsed)
    (zeroed : Allocator → ElementType → Dims → Bytes) where
  spawn_sessions-returns :
      (pool : Option (List ℕ)) (stop_after : Option ℕ) (i counter : ℕ)
      (ws : List (D × Option (Io build memory device times zeroed)))
      → (r : List (SessionThread D (Io build memory device times zeroed)) × ℕ) × (spawn_sessions
            build memory device times zeroed pool stop_after i counter ws
          ≡ ok r)
  unfolding spawn_sessions
  spawn_sessions-returns pool stop_after i counter [] = (_, refl)
  spawn_sessions-returns pool stop_after i counter ((d, gpu_io) ∷ ws) =
      let ((pin, counter1), pinned) = next_pin-returns pool counter in
      let ((ts, last), rest) = spawn_sessions-returns pool stop_after (suc i) counter1 ws in
      bind-returns (next_pin pool counter) _ (pin, counter1) pinned
        (bind-returns
          (spawn_sessions build memory device times zeroed pool stop_after (suc i) counter1 ws) _
          (ts, last) rest (_, refl))

  -- `load_model` returns where there are two or more batches and at most 2 ^ 61 slots, all that it
  -- builds is built, with one session or more, and no run or binding of a session fails: neither a
  -- warmup nor the choice of a CPU stops it.
  pub load_model-returns :
      (m : Manager) (name path : String) (config : ModelRepositoryConfig) (first : D)
      (rest : List D) (fresh : SuperTensorBuffer) (proxy : ModelProxy)
      (gpu_spec : Option (List BoundTensor × List BoundTensor))
      → 1 < config.capacity
      → config.capacity * config.batch_size ≤ 2 ^ 61
      → build_sessions build memory device times zeroed config.profiling m.custom_op_libraries path
          config.num_executors
        ≡ ok (first ∷ rest)
      → new_buffer build memory device times zeroed config first ≡ ok fresh
      → build_proxy name config (build.inputs first) (build.outputs first) ≡ ok proxy
      → gpu_spec_of build memory device times zeroed config
          (build.inputs first)
          (build.outputs first)
        ≡ ok gpu_spec
      → Binds build memory device times zeroed gpu_spec
      → Runs build memory device times zeroed
      → (r : Manager × List (SessionThread D (Io build memory device times zeroed))) × (load_model
            build memory device times zeroed m name path config
          ≡ ok r)
  unfolding load_model prepare_model
  load_model-returns m name path config first rest fresh proxy gpu_spec two fits opened new built
        spec binds runs =
      let (allocator, made) =
        new_buffer-ok build memory device times zeroed config first fresh new in
      let (ws, c, heated) =
        warm_sessions-returns build memory device times zeroed (zeroed allocator)
          (build.inputs first) config.input_shapes (λ _. 0) config.capacity config.batch_size fits
          two fresh made runs gpu_spec (first ∷ rest) 0 fresh binds
          (new-IsReady (zeroed allocator) (build.inputs first) config.input_shapes (λ _. 0)
            config.capacity config.batch_size fits two fresh made) in
      let ((ts, counter), spawned) =
        spawn_sessions-returns m.executor_pin_pool
          (stop_after_batches build memory device times zeroed config.profiling) 0 m.pin_counter
          ws in
      bind-returns (prepare_model build memory device times zeroed m name path config) _
        (proxy, c, ws) (rw (opened, new, built, spec, heated) refl)
        (bind-returns
          (spawn_sessions build memory device times zeroed m.executor_pin_pool
            (stop_after_batches build memory device times zeroed config.profiling) 0 m.pin_counter
            ws)
          _ (ts, counter) spawned (_, refl))
