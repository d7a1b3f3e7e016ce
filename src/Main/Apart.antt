-- ===== src/Main/Apart.antt =====
-- With SQPOLL, the manager, the executors and ONNX Runtime of src/main.rs stay off the pairs' vCPUs.
use mathlib.Core.Path.{subst}
use toutates.Base.{
  ℕ, leb, zero, suc, ◌+◌, ◌-◌, if◌then◌else◌, List, [], ◌∷◌, map, get_elem?, Option, none, some,
  Result, ok, err, panic, unwrap, ◌>>=◌, bind-ok, ok-injective, Bool-cases, inl, inr, true, false,
  ◌≡◌, refl, sym, ap, ◌∙◌, arith,
}
use toutates.Topology.{SmtGroup, Pair, PlanError, contains, plan_pairs}
use toutates.Topology.Uses.{uses, plan_pairs-uses}
use toutates.Cli.{Args}
use toutates.Main.{
  as_u32, pair_vcpus, reserved_vcpus, unreserved, pin_at, pins_from, map_option, sqpoll_pairs,
  ort_intra_affinity, Pinning, pin_with, pin_threads,
}

abbrev pub All : {A : Type 0} → (A → Type 0) → List A → Type 0
All P [] = Unit {0}
All P (x ∷ xs) = P x × All P xs

abbrev pub AllOf : {A : Type 0} → (A → Type 0) → Option A → Type 0
AllOf P none = Unit {0}
AllOf P (some x) = P x

module _ (P : ℕ → Type 0) where
  All-get : (xs : List ℕ) (i x : ℕ) → All P xs → get_elem? xs i ≡ some x → P x
  All-get [] i x a e = absurd (ground (arith, e))
  All-get (y ∷ ys) zero x (p, a) e = subst P (some_same y x e) p
    where
      some_same : (a b : ℕ) → some a ≡ some b → a ≡ b
      some_same a b e = ground arith
  All-get (y ∷ ys) (suc i) x (p, a) e = All-get ys i x a e

  unwrap-ok : (o : Option ℕ) (x : ℕ) → Path (Result PlanError ℕ) (unwrap o) (ok x) → o ≡ some x
  unwrap-ok none x e = absurd (ground (arith, e))
  unwrap-ok (some y) x e = ap some (ok-injective y x e)

  pin_at-All : (cs : List ℕ) (k x : ℕ) → All P cs → pin_at cs k ≡ ok x → P x
  unfolding pin_at
  pin_at-All [] k x a e = absurd (ground (arith, e))
  pin_at-All (c ∷ cs) k x a e = All-get (c ∷ cs) _ x a (unwrap-ok _ x e)

  pins_from-All :
      (cs : List ℕ) (k n : ℕ) (xs : List ℕ) → All P cs → pins_from cs k n ≡ ok xs → All P xs
  unfolding pins_from
  pins_from-All cs k zero xs a e = rw (sym (ok-injective [] xs e)) tt
  pins_from-All cs k (suc n) xs a e =
      let (c, first, e₁) = bind-ok (pin_at cs k) _ xs e in
      let (rest, more, e₂) = bind-ok (pins_from cs (suc k) n) _ xs e₁ in
      rw (sym (ok-injective (c ∷ rest) xs e₂))
        (pin_at-All cs k c a first, pins_from-All cs (suc k) n rest a more)

-- A CPU of the process whose vCPU no pair uses.
abbrev pub IsFree : List ℕ → List Pair → ℕ → Type 0
IsFree cpus ps c = (contains cpus c ≡ true) × (uses (λ _. true) (as_u32 c) ps ≡ 0)

contains-pair_vcpus :
    (ps : List Pair) (v : ℕ) → contains (pair_vcpus ps) v ≡ false → uses (λ _. true) v ps ≡ 0
unfolding uses
contains-pair_vcpus [] v e = refl
contains-pair_vcpus (p ∷ ps) v e = ground (arith, contains-pair_vcpus ps v)

All-weaken :
    {A : Type 0} {P Q : A → Type 0} (xs : List A) → ((x : A) → P x → Q x) → All P xs → All Q xs
All-weaken [] f a = tt
All-weaken (x ∷ xs) f (p, a) = (f x p, All-weaken xs f a)

contains-later : (c : ℕ) (cs : List ℕ) (v : ℕ) → contains cs v ≡ true → contains (c ∷ cs) v ≡ true
contains-later c cs v e = ground (arith, e)

unreserved-IsFree :
    (cpus : List ℕ) (ps : List Pair) → All (IsFree cpus ps) (unreserved (pair_vcpus ps) cpus)
unfolding unreserved
unreserved-IsFree [] ps = tt
unreserved-IsFree (c ∷ cs) ps =
    let rest =
      All-weaken (unreserved (pair_vcpus ps) cs)
        (λ v (inside, off). (contains-later c cs v inside, off)) (unreserved-IsFree cs ps) in
    elim (Bool-cases (contains (pair_vcpus ps) (as_u32 c))) [
      | inl used ↦ rw used rest
      | inr off ↦ rw off ((ground arith, contains-pair_vcpus ps (as_u32 c) off), rest)
    ]

sqpoll_pairs-ok :
    (args : Args) (pin_cpus : Option (List ℕ)) (smt : Option (List SmtGroup))
    (pairs : Option (List Pair))
    → args.sqpoll_enabled ≡ true
    → sqpoll_pairs args pin_cpus smt ≡ ok pairs
    → (cpus : List ℕ) × (groups : List SmtGroup) × (ps : List Pair) × (pin_cpus ≡ some cpus)
      × (pairs ≡ some ps)
      × (plan_pairs (map as_u32 cpus) groups args.processing_cores ≡ ok ps)
unfolding sqpoll_pairs
sqpoll_pairs-ok args none smt pairs on e = absurd (ground (arith, on, e))
sqpoll_pairs-ok args (some cpus) none pairs on e = absurd (ground (arith, on, e))
sqpoll_pairs-ok args (some cpus) (some groups) pairs on e =
    let (ps, same, some_pairs, made) =
      planned (plan_pairs (map as_u32 cpus) groups args.processing_cores) refl in
    (cpus, groups, ps, same, some_pairs, made)
  where
    planned :
        (r : Result PlanError (List Pair))
        → plan_pairs (map as_u32 cpus) groups args.processing_cores ≡ r
        → (ps : List Pair) × (some cpus ≡ some cpus)
          × (pairs ≡ some ps)
          × (plan_pairs (map as_u32 cpus) groups args.processing_cores ≡ ok ps)
    planned (ok ps) p = (ps, refl, ground (arith, on, e, p), p)
    planned (err x) p = absurd (ground (arith, on, e, p))
    planned panic p = absurd (ground (arith, on, e, p))

module _ (args : Args) (cpus : List ℕ) (ps : List Pair) (on : args.sqpoll_enabled ≡ true) where
  -- An entry of the affinity of ONNX Runtime: a free CPU, counted from 1.
  abbrev pub IsEntry : ℕ → Type 0
  IsEntry id = (c : ℕ) × (id ≡ suc c) × IsFree cpus ps c

  pub record AreApart (pin : Pinning) : Type 0 where
    pub pairs : pin.pairs ≡ some ps
    pub manager : AllOf (IsFree cpus ps) pin.manager
    pub executors : AllOf (All (IsFree cpus ps)) pin.executors
    pub ort : AllOf (All IsEntry) pin.ort

  free : List ℕ
  free = unreserved (pair_vcpus ps) cpus

  unused_cpus : All (IsFree cpus ps) free
  unfolding free
  unused_cpus = unreserved-IsFree cpus ps

  map_suc-All : (xs : List ℕ) → All (IsFree cpus ps) xs → All IsEntry (map suc xs)
  map_suc-All [] a = tt
  map_suc-All (x ∷ xs) (p, a) = ((x, refl, p), map_suc-All xs a)

  map_option-AllOf :
      {A : Type 0} (P : A → Type 0) (f : List ℕ → Result PlanError A) (o : Option A)
      → ((x : A) → f free ≡ ok x → P x)
      → map_option f (some free) ≡ ok o
      → AllOf P o
  map_option-AllOf P f o keep e =
      let (x, done, e₁) = bind-ok (f free) (λ b. ok (some b)) o e in
      rw (sym (ok-injective (some x) o e₁)) (keep x done)

  ort_intra_affinity-All :
      (k : ℕ) (o : Option (List ℕ))
      → ort_intra_affinity args (some free) k ≡ ok o
      → AllOf (All IsEntry) o
  unfolding ort_intra_affinity
  ort_intra_affinity-All k o e = elim (Bool-cases (leb args.ort_intra_threads 1)) [
    | inl single ↦ rw (sym (ok-injective none o (rw single at e))) tt
    | inr several ↦
        map_option-AllOf (All IsEntry)
          (λ cs. pins_from cs k (args.ort_intra_threads - 1) >>= λ ids. ok (map suc ids)) o
          (λ xs done.
            let (ids, pinned, e₁) =
              bind-ok (pins_from free k (args.ort_intra_threads - 1)) (λ ids. ok (map suc ids)) xs
                done in
            rw (sym (ok-injective (map suc ids) xs e₁))
              (map_suc-All ids (pins_from-All (IsFree cpus ps) free k _ ids unused_cpus pinned)))
          (rw several at e)
  ]

  pub pin_with-AreApart :
      (pin : Pinning) → pin_with args (some cpus) (some ps) ≡ ok pin → AreApart pin
  unfolding pin_with reserved_vcpus free
  pin_with-AreApart pin e =
      let e₀ = rw on at e in
      let (ort, e_ort, e₁) =
        bind-ok (ort_intra_affinity args (some free) (1 + args.executor_cores)) _ pin e₀ in
      let (manager, e_manager, e₂) =
        bind-ok (map_option (λ cs. pin_at cs 0) (some free)) _ pin e₁ in
      let (executors, e_executors, e₃) =
        bind-ok (map_option (λ cs. pins_from cs 1 args.executor_cores) (some free)) _ pin e₂ in
      let made : Pinning = record {
        pairs = some ps;
        ort = ort;
        manager = manager;
        executors = executors;
        processing = none;
      } in
      rw (sym (ok-injective made pin e₃)) (record {
        pairs = refl;
        manager =
            map_option-AllOf (IsFree cpus ps) (λ cs. pin_at cs 0) manager
              (λ x done. pin_at-All (IsFree cpus ps) free 0 x unused_cpus done) e_manager;
        executors =
            map_option-AllOf (All (IsFree cpus ps)) (λ cs. pins_from cs 1 args.executor_cores)
              executors (λ xs done. pins_from-All (IsFree cpus ps) free 1 _ xs unused_cpus done)
              e_executors;
        ort = ort_intra_affinity-All (1 + args.executor_cores) ort e_ort;
      })

abbrev pinned_cpus : Args → Option (List ℕ) → Result PlanError (Option (List ℕ))
pinned_cpus args ids = if args.cpu_pinning then (unwrap ids >>= λ cs. ok (some cs)) else ok none

pinned_cpus-some :
    (args : Args) (ids : Option (List ℕ)) (cpus : List ℕ)
    → pinned_cpus args ids ≡ ok (some cpus)
    → ids ≡ some cpus
pinned_cpus-some args none cpus e = absurd (ground (arith, e))
pinned_cpus-some args (some cs) cpus e = ground (arith, e)

-- With SQPOLL, when `main` pins its threads: the CPUs of the process can be read, the pairs use none
-- but these, and the CPU of the manager, those of the executors, and those that ONNX Runtime gets,
-- which it counts from 1, are CPUs of the process that no pair uses in either role.
pub pin_threads-AreApart :
    (args : Args) (core_ids : Option (List ℕ)) (smt : Option (List SmtGroup)) (pin : Pinning)
    (on : args.sqpoll_enabled ≡ true)
    → pin_threads args core_ids smt ≡ ok pin
    → (cpus : List ℕ) × (ps : List Pair) × (core_ids ≡ some cpus)
      × ((v : ℕ) → contains (map as_u32 cpus) v ≡ false → uses (λ _. true) v ps ≡ 0)
      × AreApart args cpus ps on pin
unfolding pin_threads
pin_threads-AreApart args core_ids smt pin on e =
    let (pin_cpus, e_cpus, e₁) = bind-ok (pinned_cpus args core_ids) _ pin e in
    let (pairs, e_pairs, e₂) = bind-ok (sqpoll_pairs args pin_cpus smt) _ pin e₁ in
    let (cpus, groups, ps, some_cpus, some_pairs, planned) =
      sqpoll_pairs-ok args pin_cpus smt pairs on e_pairs in
    (
      cpus,
      ps,
      pinned_cpus-some args core_ids cpus (e_cpus ∙ ap ok some_cpus),
      λ v out.
          (plan_pairs-uses (λ _. true) v (map as_u32 cpus) groups args.processing_cores ps
              planned).1
            out,
      pin_with-AreApart args cpus ps on pin (rw (some_cpus, some_pairs) at e₂),
    )
