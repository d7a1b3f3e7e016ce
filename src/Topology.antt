-- ===== src/Topology.antt =====
-- src/topology.rs: the pairs of a runtime vCPU and an SQPOLL vCPU that the server's threads are
-- pinned to. The groups of each NUMA node stand in the order in which the node is first met; the
-- nodes are visited in increasing order, as a `BTreeMap` does.
pub mod Plan
pub mod Uses
pub mod Read
use toutates.Base.{
  ℕ, zero, suc, ◌+◌, ◌-◌, ◌==◌, ltb, if◌then◌else◌, List, [], ◌∷◌, ◌++◌, length, Option, none, some,
  Result, ok, err, Bool, true, false, ◌&&◌,
}

pub record SmtGroup : Type 0 where
  pub vcpus : List ℕ
  pub numa_node : ℕ

pub record Pair : Type 0 where
  pub runtime_vcpu : ℕ
  pub sqpoll_vcpu : ℕ
  pub numa_node : ℕ

abbrev pub contains : List ℕ → ℕ → Bool
contains [] v = false
contains (x ∷ xs) v = if x == v then true else contains xs v

abbrev pub all_in : List ℕ → List ℕ → Bool
all_in allowed [] = true
all_in allowed (v ∷ vs) = contains allowed v && all_in allowed vs

-- The groups all of whose vCPUs are allowed.
unfoldable pub usable_groups : List ℕ → List SmtGroup → List SmtGroup
usable_groups allowed [] = []
usable_groups allowed (g ∷ gs) =
    let rest = usable_groups allowed gs in if all_in allowed g.vcpus then g ∷ rest else rest

-- `by_node.entry(g.numa_node).or_default().push(g)` on the map as a list in order of its keys.
abbrev pub NodeMap : Type 0
NodeMap = List (ℕ × List SmtGroup)

unfoldable pub push_group : SmtGroup → NodeMap → NodeMap
push_group g [] = (g.numa_node, g ∷ []) ∷ []
push_group g ((node, gs) ∷ rest) =
    let later = push_group g rest in
    if g.numa_node == node
    then (node, gs ++ (g ∷ [])) ∷ rest
    else if ltb g.numa_node node
    then (g.numa_node, g ∷ []) ∷ (node, gs) ∷ rest
    else (node, gs) ∷ later

unfoldable pub group_by_node : List SmtGroup → NodeMap → NodeMap
unfolding push_group
group_by_node [] m = m
group_by_node (g ∷ gs) m = group_by_node gs (push_group g m)

-- The loop over a chunk of two groups: its pairs, up to the number that is still wanted.
unfoldable pub chunk_pairs : ℕ → ℕ → List ℕ → List ℕ → List Pair
chunk_pairs zero node rt sq = []
chunk_pairs (suc room) node (r ∷ rs) (s ∷ ss) =
    record { runtime_vcpu = r; sqpoll_vcpu = s; numa_node = node } ∷ chunk_pairs room node rs ss
chunk_pairs (suc room) node _ _ = []

-- The loop over the groups of a node, two at a time. A last group without a partner is not used.
unfoldable pub node_pairs : ℕ → ℕ → List SmtGroup → List Pair
unfolding chunk_pairs
node_pairs room node (rt ∷ sq ∷ gs) =
    let chunk = chunk_pairs room node rt.vcpus sq.vcpus in
    chunk ++ node_pairs (room - length chunk) node gs
node_pairs room node _ = []

unfoldable pub map_pairs : ℕ → NodeMap → List Pair
unfolding node_pairs
map_pairs room [] = []
map_pairs room ((node, gs) ∷ rest) =
    let here = node_pairs room node gs in here ++ map_pairs (room - length here) rest

-- What the error message reports: the pairs wanted, and those found.
pub data PlanError : Type 0 where
  could_not_place : ℕ → ℕ → PlanError

unfoldable pub plan_pairs : List ℕ → List SmtGroup → ℕ → Result PlanError (List Pair)
unfolding usable_groups group_by_node map_pairs
plan_pairs allowed groups wanted =
    let pairs = map_pairs wanted (group_by_node (usable_groups allowed groups) []) in
    if ltb (length pairs) wanted then err (could_not_place wanted (length pairs)) else ok pairs
