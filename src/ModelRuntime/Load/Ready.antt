-- ===== src/ModelRuntime/Load/Ready.antt =====
-- The models that `load_model` of src/model_runtime/manager.rs has registered.
use mathlib.Core.Path.{subst}
use toutates.Base.{
  ◌∷◌, ℕ, ◌+◌, ◌*◌, ◌%◌, ◌≤◌, ◌<◌, ◌^◌, List, [], length, Option, some, ok, bind-ok, ok-injective,
  ◌≡◌, sym, ap, ◌∙◌, arith, usize_mod, wrapping_sub, String,
}
use toutates.Tensor.Element.{ElementType}
use toutates.Tensor.Bytes.{Bytes, Dims}
use toutates.Tensor.Copy.{HostTensor}
use toutates.SuperTensor.Buffer.{SuperTensorBuffer}
use toutates.SuperTensor.Construct.{new_with_overrides}
use toutates.SuperTensor.Ring.Steps.{Reachable}
use toutates.Grpc.{ModelProxy, lookup}
use toutates.Loader.{Device, Elapsed}
use toutates.ModelRuntime.{ModelRepositoryConfig, BoundTensor, register, build_proxy}
use toutates.ModelRuntime.Known.{same_text_self}
use toutates.ModelRuntime.Binding.{Memory}
use toutates.ModelRuntime.Load.{
  Builder, Manager, SessionThread, Io, warm_sessions, prepare_model, load_model, first_session,
  stop_after_batches, new_buffer, spawn_sessions, build_sessions, gpu_spec_of,
}
use toutates.ModelRuntime.Load.Warm.{new-IsReady, IsReady-counters}
use toutates.ModelRuntime.Load.Sessions.{
  warm_sessions-IsReady, length-build_sessions, length-spawn_sessions, new_buffer-ok,
}

lookup-register {ℓ} :
    {A : Type ℓ} (name : String) (a : A) (xs : List (String × A))
    → lookup name (register name a xs) ≡ some a
unfolding register
lookup-register name a xs = ground (arith, same_text_self name)

module _ {B D MemoryInfo Allocator GpuInput Value : Type 0} (build : Builder B D)
    (memory : Memory D MemoryInfo Allocator GpuInput)
    (device : Device D HostTensor GpuInput (ElementType × Dims) Value) (times : Elapsed)
    (zeroed : Allocator → ElementType → Dims → Bytes) (num_elements : Dims → ℕ) where
  -- A model before it is registered: its sessions, the proxy built from the first, and a buffer that calls lead to from a new one.
  pub record IsPrepared (libs : List String) (name path : String) (config : ModelRepositoryConfig)
      (proxy : ModelProxy) (fresh c : SuperTensorBuffer) : Type 0 where
    pub first : D
    pub others : List D
    pub opened :
        build_sessions build memory device times zeroed config.profiling libs path
          config.num_executors
        ≡ ok (first ∷ others)
    pub allocator : Allocator
    pub built : build_proxy name config (build.inputs first) (build.outputs first) ≡ ok proxy
    pub made :
        new_with_overrides
          (zeroed allocator)
          config.capacity
          config.batch_size
          (build.inputs first)
          config.input_shapes
        ≡ ok fresh
    pub reached : Reachable num_elements fresh (record { buffer = c; running = [] })
    pub head_at : c.head ≡ config.batch_size * (3 * config.num_executors) % usize_mod
    pub no_claims : c.executor_head ≡ c.head
    pub room : wrapping_sub c.head c.tail ≤ config.batch_size

  module _ (m : Manager) (name path : String) (config : ModelRepositoryConfig)
      (two : 1 < config.capacity) (fits : config.capacity * config.batch_size ≤ 2 ^ 61) where
    warm_sessions-IsPrepared :
        (first : D) (others : List D) (proxy : ModelProxy) (fresh c : SuperTensorBuffer)
        (gpu_spec : Option (List BoundTensor × List BoundTensor))
        (ws : List (D × Option (Io build memory device times zeroed)))
        → build_proxy name config (build.inputs first) (build.outputs first) ≡ ok proxy
        → new_buffer build memory device times zeroed config first ≡ ok fresh
        → build_sessions build memory device times zeroed config.profiling m.custom_op_libraries
            path config.num_executors
          ≡ ok (first ∷ others)
        → warm_sessions build memory device times zeroed gpu_spec (first ∷ others) fresh
          ≡ ok (ws, c)
        → (length ws ≡ config.num_executors)
          × IsPrepared m.custom_op_libraries name path config proxy fresh c
    warm_sessions-IsPrepared first others proxy fresh c gpu_spec ws built new opened heated =
        let count =
          length-build_sessions build memory device times zeroed config.profiling
            m.custom_op_libraries path config.num_executors (first ∷ others) opened in
        let (allocator, made) =
          new_buffer-ok build memory device times zeroed config first fresh new in
        let (as_many, ready) =
          warm_sessions-IsReady build memory device times zeroed (zeroed allocator)
            (build.inputs first) config.input_shapes num_elements config.capacity config.batch_size
            fits two fresh made gpu_spec (first ∷ others) ws 0 fresh c
            (new-IsReady (zeroed allocator) (build.inputs first) config.input_shapes num_elements
              config.capacity config.batch_size fits two fresh made)
            heated in
        let (heads, drained, room) =
          IsReady-counters (zeroed allocator) (build.inputs first) config.input_shapes num_elements
            config.capacity config.batch_size fits two fresh made (0 + 3 * length (first ∷ others))
            c ready in
        let warmups : 0 + 3 * length (first ∷ others) ≡ 3 * config.num_executors =
          omega (arith, count) in
        (
          as_many ∙ count,
          record {
            first = first;
            others = others;
            opened = opened;
            allocator = allocator;
            built = built;
            made = made;
            reached = ready.reached;
            head_at = heads ∙ ap (λ k. config.batch_size * k % usize_mod) warmups;
            no_claims = drained;
            room = room;
          },
        )

    first_of :
        (sessions : List D) (first : D)
        → first_session build memory device times zeroed sessions ≡ ok first
        → (others : List D) × (sessions ≡ first ∷ others)
    first_of [] first e = absurd (ground arith)
    first_of (d ∷ ds) first e = (ds, ap (λ x. x ∷ ds) (ok-injective d first e))

    prepare_model-IsPrepared :
        (proxy : ModelProxy) (c : SuperTensorBuffer)
        (ws : List (D × Option (Io build memory device times zeroed)))
        → prepare_model build memory device times zeroed m name path config ≡ ok (proxy, c, ws)
        → (length ws ≡ config.num_executors)
          × ((fresh : SuperTensorBuffer) × IsPrepared m.custom_op_libraries name path config proxy
                fresh c)
    unfolding prepare_model
    prepare_model-IsPrepared proxy c ws e =
        let r : ModelProxy
            × SuperTensorBuffer
            × List (D × Option (Io build memory device times zeroed)) =
          (proxy, c, ws) in
        let (sessions, opened, e₁) =
          bind-ok
            (build_sessions build memory device times zeroed config.profiling m.custom_op_libraries
              path config.num_executors)
            _ r e in
        let (first, at_zero, e₂) =
          bind-ok (first_session build memory device times zeroed sessions) _ r e₁ in
        let (fresh, new, e₃) =
          bind-ok (new_buffer build memory device times zeroed config first) _ r e₂ in
        let (proxy', built, e₄) =
          bind-ok (build_proxy name config (build.inputs first) (build.outputs first)) _ r e₃ in
        let (gpu_spec, _, e₅) =
          bind-ok
            (gpu_spec_of build memory device times zeroed config (build.inputs first)
              (build.outputs first))
            _ r e₄ in
        let ((ws', c'), heated, last) =
          bind-ok (warm_sessions build memory device times zeroed gpu_spec sessions fresh) _ r e₅ in
        let same = ok-injective (proxy', c', ws') r last in
        let (others, split) = first_of sessions first at_zero in
        let (as_many, prepared) =
          warm_sessions-IsPrepared first others proxy' fresh c' gpu_spec ws' built new
            (opened ∙ ap ok split)
            (ap (λ ds. warm_sessions build memory device times zeroed gpu_spec ds fresh) (sym split)
              ∙ heated) in
        (
          ap (λ q. length q.2) (sym same) ∙ as_many,
          (
            fresh,
            subst (λ q. IsPrepared m.custom_op_libraries name path config q.0 fresh q.1) same
                prepared,
          ),
        )

    -- Where `load_model` succeeds, with two or more batches and at most 2 ^ 61 slots, it starts one
    -- thread for each session that the configuration asks for, and the model is found under its
    -- name, with the proxy built from its first session and its buffer. That buffer is one that calls
    -- lead to from a new one, with none of them running: its head is three batches on for each
    -- session, the head of the executors is there too, and the tail is at most one batch behind.
    pub load_model-IsPrepared :
        (m' : Manager) (threads : List (SessionThread D (Io build memory device times zeroed)))
        → load_model build memory device times zeroed m name path config ≡ ok (m', threads)
        → (length threads ≡ config.num_executors)
          × ((proxy : ModelProxy) × (fresh c : SuperTensorBuffer) × (lookup name m'.loaded_models
                ≡ some proxy)
              × (lookup name m'.loaded_data ≡ some c)
              × IsPrepared m.custom_op_libraries name path config proxy fresh c)
    unfolding load_model
    load_model-IsPrepared m' threads e =
        let ((proxy, c, ws), ready, e₁) =
          bind-ok (prepare_model build memory device times zeroed m name path config) _
            (m', threads) e in
        let ((ts, counter), spawned, last) =
          bind-ok
            (spawn_sessions build memory device times zeroed m.executor_pin_pool
              (stop_after_batches build memory device times zeroed config.profiling) 0 m.pin_counter
              ws)
            _ (m', threads) e₁ in
        let registered = ok-injective _ _ last in
        let (as_many, (fresh, prepared)) = prepare_model-IsPrepared proxy c ws ready in
        (
          ap (λ p. length p.1) (sym registered)
              ∙ length-spawn_sessions build memory device times zeroed m.executor_pin_pool
                  (stop_after_batches build memory device times zeroed config.profiling) 0
                  m.pin_counter ws ts counter spawned
              ∙ as_many,
          (
            proxy,
            fresh,
            c,
            ap (λ p. lookup name p.0.loaded_models) (sym registered)
                ∙ lookup-register name proxy m.loaded_models,
            ap (λ p. lookup name p.0.loaded_data) (sym registered)
                ∙ lookup-register name c m.loaded_data,
            prepared,
          ),
        )
