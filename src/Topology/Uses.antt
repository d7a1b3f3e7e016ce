-- ===== src/Topology/Uses.antt =====
-- Where the vCPUs of the pairs that `plan_pairs` of src/topology.rs makes come from.
use toutates.Base.{
  ℕ, zero, suc, ◌+◌, ◌-◌, ◌≤◌, ◌==◌, if◌then◌else◌, List, [], ◌∷◌, ◌++◌, length, ok, Bool, true,
  false, ◌≡◌, refl, sym, arith,
}
use toutates.Topology.{
  SmtGroup, Pair, contains, all_in, usable_groups, NodeMap, push_group, group_by_node, chunk_pairs,
  node_pairs, map_pairs, plan_pairs,
}

abbrev one_if : Bool → ℕ
one_if b = if b then 1 else 0

abbrev pub count : ℕ → List ℕ → ℕ
count v [] = 0
count v (x ∷ xs) = one_if (x == v) + count v xs

-- How often a vCPU occurs among the groups of the selected nodes, and how often the pairs use it.
module _ (select : ℕ → Bool) (v : ℕ) where
  unfoldable pub occurs : List SmtGroup → ℕ
  occurs [] = 0
  occurs (g ∷ gs) = (if select g.numa_node then count v g.vcpus else 0) + occurs gs

  unfoldable pub uses : List Pair → ℕ
  uses [] = 0
  uses (p ∷ ps) =
      (if select p.numa_node then one_if (p.runtime_vcpu == v) + one_if (p.sqpoll_vcpu == v) else 0)
      + uses ps

  counts : List SmtGroup → ℕ
  counts [] = 0
  counts (g ∷ gs) = count v g.vcpus + counts gs

  occurs_map : NodeMap → ℕ
  occurs_map [] = 0
  occurs_map ((node, gs) ∷ rest) = (if select node then counts gs else 0) + occurs_map rest

  counts-append : (gs hs : List SmtGroup) → counts (gs ++ hs) ≡ counts gs + counts hs
  unfolding counts
  counts-append [] hs = omega arith
  counts-append (g ∷ gs) hs = omega (arith, counts-append gs hs)

  uses-append : (ps qs : List Pair) → uses (ps ++ qs) ≡ uses ps + uses qs
  unfolding uses
  uses-append [] qs = omega arith
  uses-append (p ∷ ps) qs = omega (arith, uses-append ps qs)

  push_group-occurs :
      (g : SmtGroup) (m : NodeMap)
      → occurs_map (push_group g m)
        ≡ (if select g.numa_node then count v g.vcpus else 0) + occurs_map m
  unfolding push_group occurs_map counts
  push_group-occurs g [] = ground arith
  push_group-occurs g ((node, gs) ∷ rest) =
      ground (arith, push_group-occurs g rest, counts-append gs (g ∷ []))

  group_by_node-occurs :
      (gs : List SmtGroup) (m : NodeMap)
      → occurs_map (group_by_node gs m) ≡ occurs gs + occurs_map m
  unfolding group_by_node occurs
  group_by_node-occurs [] m = omega arith
  group_by_node-occurs (g ∷ gs) m =
      omega (arith, group_by_node-occurs gs (push_group g m), push_group-occurs g m)

  usable_groups-occurs :
      (allowed : List ℕ) (gs : List SmtGroup) → occurs (usable_groups allowed gs) ≤ occurs gs
  unfolding usable_groups occurs
  usable_groups-occurs allowed [] = omega arith
  usable_groups-occurs allowed (g ∷ gs) = ground (arith, usable_groups-occurs allowed gs)

  chunk_pairs-uses :
      (room node : ℕ) (rt sq : List ℕ)
      → uses (chunk_pairs room node rt sq) ≤ (if select node then count v rt + count v sq else 0)
  unfolding chunk_pairs uses
  chunk_pairs-uses zero node rt sq = ground arith
  chunk_pairs-uses (suc room) node [] sq = ground arith
  chunk_pairs-uses (suc room) node (r ∷ rs) [] = ground arith
  chunk_pairs-uses (suc room) node (r ∷ rs) (s ∷ ss) =
      ground (arith, chunk_pairs-uses room node rs ss)

  node_pairs-uses :
      (room node : ℕ) (gs : List SmtGroup)
      → uses (node_pairs room node gs) ≤ (if select node then counts gs else 0)
  unfolding node_pairs uses counts
  node_pairs-uses room node [] = ground arith
  node_pairs-uses room node (g ∷ []) = ground arith
  node_pairs-uses room node (rt ∷ sq ∷ gs) =
      let chunk : List Pair = chunk_pairs room node rt.vcpus sq.vcpus in
      ground (
        arith,
        uses-append chunk (node_pairs (room - length chunk) node gs),
        chunk_pairs-uses room node rt.vcpus sq.vcpus,
        node_pairs-uses (room - length chunk) node gs,
      )

  map_pairs-uses : (room : ℕ) (m : NodeMap) → uses (map_pairs room m) ≤ occurs_map m
  unfolding map_pairs occurs_map uses
  map_pairs-uses room [] = omega arith
  map_pairs-uses room ((node, gs) ∷ rest) =
      let here : List Pair = node_pairs room node gs in
      omega (
        arith,
        uses-append here (map_pairs (room - length here) rest),
        node_pairs-uses room node gs,
        map_pairs-uses (room - length here) rest,
      )

  all_in-count :
      (allowed vs : List ℕ) → all_in allowed vs ≡ true → contains allowed v ≡ false → count v vs ≡ 0
  all_in-count allowed [] a out = refl
  all_in-count allowed (x ∷ xs) a out = ground (arith, all_in-count allowed xs)

  not_allowed-occurs :
      (allowed : List ℕ) (gs : List SmtGroup)
      → contains allowed v ≡ false
      → occurs (usable_groups allowed gs) ≡ 0
  unfolding usable_groups occurs
  not_allowed-occurs allowed [] out = refl
  not_allowed-occurs allowed (g ∷ gs) out =
      ground (arith, not_allowed-occurs allowed gs out, all_in-count allowed g.vcpus)

  -- Over any choice of nodes, the pairs of a plan use a vCPU, for either role, at most as often as
  -- it occurs in the groups of those nodes, and never one that is not allowed. So groups with no
  -- vCPU in common give each out at most once, and a pair has its node's vCPUs only.
  pub plan_pairs-uses :
      (allowed : List ℕ) (groups : List SmtGroup) (wanted : ℕ) (ps : List Pair)
      → plan_pairs allowed groups wanted ≡ ok ps
      → (uses ps ≤ occurs groups) × (contains allowed v ≡ false → uses ps ≡ 0)
  unfolding plan_pairs occurs_map
  plan_pairs-uses allowed groups wanted ps e =
      let m : NodeMap = group_by_node (usable_groups allowed groups) [] in
      let taken : map_pairs wanted m ≡ ps = ground arith in
      let few : uses (map_pairs wanted m) ≤ occurs (usable_groups allowed groups) =
        omega (
          arith,
          map_pairs-uses wanted m,
          group_by_node-occurs (usable_groups allowed groups) [],
        ) in
      (
        rw (sym taken) (omega (arith, few, usable_groups-occurs allowed groups)),
        λ out. rw (sym taken) (omega (arith, few, not_allowed-occurs allowed groups out)),
      )
