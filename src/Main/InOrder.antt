-- ===== src/Main/InOrder.antt =====
-- Without SQPOLL, the threads of src/main.rs are pinned to the first CPUs of the process in order.
use toutates.Base.{ℕ, ◌+◌, List, ◌∷◌, take, drop, Option, none, some}
use toutates.Cli.{Args}
use toutates.Main.{Pinning}

module _ (args : Args) (c : ℕ) (cs : List ℕ) where
  threads : ℕ
  threads = 1 + args.executor_cores + args.processing_cores

  pinned_so : Option (List ℕ) → Pinning
  pinned_so ort = record {
    pairs = none;
    ort = ort;
    manager = some c;
    executors = some (take args.executor_cores cs);
    processing = some (take args.processing_cores (drop (1 + args.executor_cores) (c ∷ cs)));
  }
