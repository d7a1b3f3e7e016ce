-- ===== src/Topology/Plan.antt =====
-- What `plan_pairs` of src/topology.rs promises: how many pairs there are.
use toutates.Base.{
  ℕ, zero, suc, ◌+◌, ◌-◌, ◌≤◌, ◌<◌, min, List, [], ◌∷◌, length, length-append, ok, err, ◌≡◌, arith,
}
use toutates.Topology.{
  SmtGroup, Pair, usable_groups, NodeMap, group_by_node, chunk_pairs, node_pairs, map_pairs,
  could_not_place, plan_pairs,
}

-- The pairs that two groups at a time can make, without a limit.
unfoldable pub node_capacity : List SmtGroup → ℕ
node_capacity (rt ∷ sq ∷ gs) = min (length rt.vcpus) (length sq.vcpus) + node_capacity gs
node_capacity _ = 0

unfoldable pub map_capacity : NodeMap → ℕ
unfolding node_capacity
map_capacity [] = 0
map_capacity ((_, gs) ∷ rest) = node_capacity gs + map_capacity rest

length-chunk_pairs :
    (room node : ℕ) (rt sq : List ℕ)
    → length (chunk_pairs room node rt sq) ≡ min room (min (length rt) (length sq))
unfolding chunk_pairs
length-chunk_pairs zero node rt sq = omega arith
length-chunk_pairs (suc room) node [] sq = omega arith
length-chunk_pairs (suc room) node (r ∷ rs) [] = omega arith
length-chunk_pairs (suc room) node (r ∷ rs) (s ∷ ss) =
    omega (arith, length-chunk_pairs room node rs ss)

length-node_pairs :
    (room node : ℕ) (gs : List SmtGroup)
    → length (node_pairs room node gs) ≡ min room (node_capacity gs)
unfolding node_pairs node_capacity
length-node_pairs room node [] = omega arith
length-node_pairs room node (g ∷ []) = omega arith
length-node_pairs room node (rt ∷ sq ∷ gs) =
    let chunk : List Pair = chunk_pairs room node rt.vcpus sq.vcpus in
    omega (
      arith,
      length-append {0} chunk (node_pairs (room - length chunk) node gs),
      length-chunk_pairs room node rt.vcpus sq.vcpus,
      length-node_pairs (room - length chunk) node gs,
    )

length-map_pairs : (room : ℕ) (m : NodeMap) → length (map_pairs room m) ≡ min room (map_capacity m)
unfolding map_pairs map_capacity
length-map_pairs room [] = omega arith
length-map_pairs room ((node, gs) ∷ rest) =
    let here : List Pair = node_pairs room node gs in
    omega (
      arith,
      length-append {0} here (map_pairs (room - length here) rest),
      length-node_pairs room node gs,
      length-map_pairs (room - length here) rest,
    )

-- The pairs that the allowed groups can make, in their nodes.
unfoldable pub plan_capacity : List ℕ → List SmtGroup → ℕ
unfolding map_capacity
plan_capacity allowed groups = map_capacity (group_by_node (usable_groups allowed groups) [])

-- `plan_pairs` gives exactly the pairs wanted when the nodes' allowed groups, taken two at a time,
-- can make as many, and otherwise an error that names how many they make.
pub plan_pairs-ok_iff :
    (allowed : List ℕ) (groups : List SmtGroup) (wanted : ℕ)
    → (plan_capacity allowed groups < wanted
        → plan_pairs allowed groups wanted
          ≡ err (could_not_place wanted (plan_capacity allowed groups)))
      × (wanted ≤ plan_capacity allowed groups
          → (ps : List Pair) × (plan_pairs allowed groups wanted ≡ ok ps) × (length ps ≡ wanted))
unfolding plan_pairs plan_capacity
plan_pairs-ok_iff allowed groups wanted =
    let m : NodeMap = group_by_node (usable_groups allowed groups) [] in
    (
      λ short. ground (arith, length-map_pairs wanted m),
      λ enough. (
        map_pairs wanted m,
        ground (arith, length-map_pairs wanted m),
        omega (arith, length-map_pairs wanted m),
      ),
    )
