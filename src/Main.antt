-- ===== src/Main.antt =====
-- src/main.rs: which models are passed on to the manager, and to which CPUs the threads are pinned.
-- CPU ids and counts are taken to fit a `usize`.
pub mod Apart
pub mod InOrder
use toutates.Base.{
  ℕ, zero, suc, ◌+◌, ◌-◌, ◌%◌, ◌^◌, ◌==◌, leb, same_text, if◌then◌else◌, List, [], ◌∷◌, map, length,
  get_elem?, Option, none, some, Result, ok, err, panic, unwrap, ◌>>=◌, Bool, true, false, not,
  String,
}
use toutates.Topology.{SmtGroup, Pair, PlanError, contains, plan_pairs}
use toutates.Cli.{Args}

-- `id as u32`
abbrev pub as_u32 : ℕ → ℕ
as_u32 id = id % 2 ^ 32

abbrev pub has_text : List String → String → Bool
has_text [] s = false
has_text (x ∷ xs) s = if same_text x s then true else has_text xs s

module _ {A : Type 0} (name : A → String) where
  abbrev keep_named : List String → List A → List A
  keep_named names [] = []
  keep_named names (m ∷ ms) =
      let rest = keep_named names ms in if has_text names (name m) then m ∷ rest else rest

  -- The models that `--load-models` lets through.
  unfoldable pub filter_models : Option (List String) → List A → List A
  filter_models none ms = ms
  filter_models (some names) ms = keep_named names ms

-- The vCPUs of both roles of the pairs.
abbrev pub pair_vcpus : List Pair → List ℕ
pair_vcpus [] = []
pair_vcpus (p ∷ ps) = p.runtime_vcpu ∷ p.sqpoll_vcpu ∷ pair_vcpus ps

unfoldable pub reserved_vcpus : Option (List Pair) → List ℕ
reserved_vcpus none = []
reserved_vcpus (some ps) = pair_vcpus ps

unfoldable pub unreserved : List ℕ → List ℕ → List ℕ
unreserved reserved [] = []
unreserved reserved (c ∷ cs) =
    let rest = unreserved reserved cs in if contains reserved (as_u32 c) then rest else c ∷ rest

-- `cpus[index % cpus.len()]`: the remainder by zero is a panic.
unfoldable pub pin_at : List ℕ → ℕ → Result PlanError ℕ
pin_at [] index = panic
pin_at (c ∷ cs) index = unwrap (get_elem? (c ∷ cs) (index % length (c ∷ cs)))

-- The CPUs at `n` places from `start` on.
unfoldable pub pins_from : List ℕ → ℕ → ℕ → Result PlanError (List ℕ)
unfolding pin_at
pins_from cpus start zero = ok []
pins_from cpus start (suc n) = do
  c ← pin_at cpus start
  rest ← pins_from cpus (suc start) n
  ok (c ∷ rest)

-- `map` over an `Option` of a call that can panic.
abbrev pub map_option :
    {A B : Type 0} → (A → Result PlanError B) → Option A → Result PlanError (Option B)
map_option f none = ok none
map_option f (some a) = f a >>= λ b. ok (some b)

abbrev pub map_some : (List ℕ → List ℕ) → Option (List ℕ) → Option (List ℕ)
map_some f none = none
map_some f (some cs) = some (f cs)

unfoldable pub sqpoll_pairs :
    Args → Option (List ℕ) → Option (List SmtGroup) → Result PlanError (Option (List Pair))
unfolding plan_pairs
sqpoll_pairs args pin_cpus smt_groups =
    if args.sqpoll_enabled
    then (if args.cpu_pinning
        then (do
          cpus ← unwrap pin_cpus
          smt ← unwrap smt_groups
          elim (plan_pairs (map as_u32 cpus) smt args.processing_cores) [
            | ok pairs ↦ ok (some pairs)
            | _ ↦ panic
          ])
        else panic)
    else ok none

-- The entries of the affinity that ONNX Runtime gets, one less than it has threads; its ids start at 1.
unfoldable pub ort_intra_affinity : Args → Option (List ℕ) → ℕ → Result PlanError (Option (List ℕ))
unfolding pins_from
ort_intra_affinity args cpus ort_start =
    if leb args.ort_intra_threads 1
    then ok none
    else map_option
        (λ cs. pins_from cs ort_start (args.ort_intra_threads - 1) >>= λ ids. ok (map suc ids)) cpus

-- The CPUs of the program's threads; `none` where they are not pinned.
pub record Pinning : Type 0 where
  pub pairs : Option (List Pair)
  pub ort : Option (List ℕ)
  pub manager : Option ℕ
  pub executors : Option (List ℕ)
  pub processing : Option (List ℕ)

-- The pins, from the CPUs of the process and the pairs. With pairs the processing threads are pinned
-- to the pairs' runtime vCPUs.
unfoldable pub pin_with : Args → Option (List ℕ) → Option (List Pair) → Result PlanError Pinning
unfolding reserved_vcpus unreserved ort_intra_affinity
pin_with args pin_cpus pairs =
    let free = map_some (unreserved (reserved_vcpus pairs)) pin_cpus in
    let pool = if args.sqpoll_enabled then free else pin_cpus in
    (do
      ort ←
          if args.sqpoll_enabled
          then ort_intra_affinity args free (1 + args.executor_cores)
          else ort_intra_affinity args pin_cpus (1 + args.executor_cores + args.processing_cores)
      manager ← map_option (λ cs. pin_at cs 0) pool
      executors ← map_option (λ cs. pins_from cs 1 args.executor_cores) pool
      processing ←
          if args.sqpoll_enabled
          then ok none
          else map_option (λ cs. pins_from cs (1 + args.executor_cores) args.processing_cores)
              pin_cpus
      ok (record {
        pairs = pairs;
        ort = ort;
        manager = manager;
        executors = executors;
        processing = processing;
      }))

-- What `main` pins, from the CPUs of the process and the groups of the topology, as far as these can
-- be read.
unfoldable pub pin_threads :
    Args → Option (List ℕ) → Option (List SmtGroup) → Result PlanError Pinning
unfolding sqpoll_pairs pin_with
pin_threads args core_ids smt_groups = do
  pin_cpus ← if args.cpu_pinning then (unwrap core_ids >>= λ cs. ok (some cs)) else ok none
  pairs ← sqpoll_pairs args pin_cpus smt_groups
  pin_with args pin_cpus pairs

-- What the manager answers to a request to load a model, or that it did not answer.
pub data LoadReply (E : Type 0) : Type 0 where
  loaded dropped : LoadReply E
  load_failed : E → LoadReply E

-- The loop over the replies: any model that was not loaded is a panic.
unfoldable pub await_replies : {E : Type 0} → List (LoadReply E) → Result PlanError (Unit {0})
await_replies [] = ok tt
await_replies (loaded ∷ rest) = await_replies rest
await_replies (dropped ∷ rest) = panic
await_replies (load_failed e ∷ rest) = panic
