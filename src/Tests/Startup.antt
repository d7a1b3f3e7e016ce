-- ===== src/Tests/Startup.antt =====
-- A process with eight CPUs: two physical cores of two vCPUs for a pair of pairs, and four to spare.
use toutates.Base.{ℕ, List, [], ◌∷◌, map, none, some, ok, Bool, true, false, ◌≡◌, refl}
use toutates.Topology.{
  SmtGroup, Pair, contains, plan_pairs, usable_groups, group_by_node, push_group, map_pairs,
  node_pairs, chunk_pairs,
}
use toutates.Topology.Uses.{uses}
use toutates.Cli.{Args, tensorrt}
use toutates.Main.{
  as_u32, Pinning, pin_threads, pin_with, sqpoll_pairs, reserved_vcpus, unreserved, pin_at,
  pins_from, ort_intra_affinity,
}
use toutates.Main.Apart.{AreApart, pin_threads-AreApart}

abbrev args_with : Bool → Args
args_with sqpoll = record {
  processing_cores = 2;
  executor_cores = 1;
  ort_intra_threads = 3;
  model_repository = some "/models";
  s3_endpoint = none;
  s3_bucket = none;
  s3_prefix = "";
  s3_region = "us-east-1";
  model_cache_dir = "/tmp/model_cache";
  load_models = none;
  execution_providers = tensorrt ∷ [];
  cpu_pinning = true;
  sqpoll_enabled = sqpoll;
}

abbrev eight_cpus : List ℕ
eight_cpus = 0 ∷ 1 ∷ 2 ∷ 3 ∷ 32 ∷ 33 ∷ 34 ∷ 35 ∷ []

abbrev two_cores : List SmtGroup
two_cores =
    record { vcpus = 0 ∷ 32 ∷ []; numa_node = 0 }
    ∷ record { vcpus = 1 ∷ 33 ∷ []; numa_node = 0 }
    ∷ []

abbrev two_pairs : List Pair
two_pairs =
    record { runtime_vcpu = 0; sqpoll_vcpu = 1; numa_node = 0 }
    ∷ record { runtime_vcpu = 32; sqpoll_vcpu = 33; numa_node = 0 }
    ∷ []

abbrev pinning : Pinning
pinning = record {
  pairs = some two_pairs;
  ort = some (35 ∷ 36 ∷ []);
  manager = some 2;
  executors = some (3 ∷ []);
  processing = none;
}

pinned : pin_threads (args_with true) (some eight_cpus) (some two_cores) ≡ ok pinning
unfolding pin_threads pin_with sqpoll_pairs reserved_vcpus unreserved pin_at pins_from
    ort_intra_affinity plan_pairs usable_groups group_by_node push_group map_pairs node_pairs
    chunk_pairs
pinned = refl

pin_threads-AreApart_example :
    (cpus : List ℕ) × (ps : List Pair) × (some eight_cpus ≡ some cpus)
    × ((v : ℕ) → contains (map as_u32 cpus) v ≡ false → uses (λ _. true) v ps ≡ 0)
    × AreApart (args_with true) cpus ps refl pinning
pin_threads-AreApart_example =
    pin_threads-AreApart (args_with true) (some eight_cpus) (some two_cores) pinning refl pinned
