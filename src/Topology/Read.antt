-- ===== src/Topology/Read.antt =====
-- `parse_cpu_list`, `read_numa_map` and `read_smt_groups` of src/topology.rs. What the files of
-- sysfs hold is an argument, as texts; a `HashMap` is a list of its entries, the newest first, and a
-- `BTreeMap` a list in order of its keys.
pub mod Print
use toutates.Base.{
  ℕ, zero, suc, ◌+◌, ◌-◌, ◌*◌, ◌^◌, ◌==◌, ltb, leb, min, if◌then◌else◌, List, [], ◌∷◌, ◌++◌, Option,
  none, some, Result, ok, err, unwrap, ok_or, ◌>>=◌, Bool, true, false, ◌&&◌,
}
use toutates.Base.Chars.{Chars, is_empty, trim, split, split_once, parse_unsigned, strip_prefix}
use toutates.Topology.{SmtGroup}

pub data IoError : Type 0 where
  invalid_data not_read : IoError

-- `parse::<u32>()` of the trimmed text.
unfoldable pub parse_cpu : Chars → Result IoError ℕ
parse_cpu s = ok_or (parse_unsigned (2 ^ 32) (trim s)) invalid_data

-- `n` numbers from `lo` on.
unfoldable pub count_up : ℕ → ℕ → List ℕ
count_up lo zero = []
count_up lo (suc n) = lo ∷ count_up (suc lo) n

-- `lo..=hi`
unfoldable pub range : ℕ → ℕ → List ℕ
unfolding count_up
range lo hi = count_up lo (suc hi - lo)

unfoldable pub parse_part : Chars → Result IoError (List ℕ)
unfolding parse_cpu range
parse_part part = if is_empty part then ok [] else elim (split_once 45 part) [
  | some (lo, hi) ↦ (do lo' ← parse_cpu lo; hi' ← parse_cpu hi; ok (range lo' hi'))
  | none ↦ parse_cpu part >>= λ v. ok (v ∷ [])
]

unfoldable pub parse_parts : List Chars → Result IoError (List ℕ)
unfolding parse_part
parse_parts [] = ok []
parse_parts (p ∷ ps) = do vs ← parse_part p; rest ← parse_parts ps; ok (vs ++ rest)

unfoldable pub parse_cpu_list : Chars → Result IoError (List ℕ)
unfolding parse_parts
parse_cpu_list s = parse_parts (split 44 (trim s))

-- An entry of /sys/devices/system/node: its name, and its file `cpulist` where it can be read.
pub record NodeEntry : Type 0 where
  pub name : Chars
  pub cpulist : Option Chars

abbrev pub CpuMap : Type 0
CpuMap = List (ℕ × ℕ)

unfoldable pub insert_cpus : List ℕ → ℕ → CpuMap → CpuMap
insert_cpus [] node m = m
insert_cpus (c ∷ cs) node m = insert_cpus cs node ((c, node) ∷ m)

-- An entry that is no node, or cannot be read, is passed over.
unfoldable pub add_node : NodeEntry → CpuMap → CpuMap
unfolding strip_prefix insert_cpus
add_node e m = elim (strip_prefix (110 ∷ 111 ∷ 100 ∷ 101 ∷ []) e.name) [
  | none ↦ m
  | some digits ↦ elim (parse_unsigned (2 ^ 32) digits) [
    | none ↦ m
    | some node ↦ elim e.cpulist [
      | none ↦ m
      | some raw ↦ elim (parse_cpu_list raw) [ ok cpus ↦ insert_cpus cpus node m | _ ↦ m ]
    ]
  ]
]

abbrev add_nodes : List NodeEntry → CpuMap → CpuMap
add_nodes [] m = m
add_nodes (e ∷ es) m = add_nodes es (add_node e m)

-- `none`: the directory cannot be read.
unfoldable pub read_numa_map : Option (List NodeEntry) → CpuMap
read_numa_map none = []
read_numa_map (some es) = add_nodes es []

unfoldable pub find_node : ℕ → CpuMap → ℕ
find_node cpu [] = 0
find_node cpu ((c, node) ∷ m) = if c == cpu then node else find_node cpu m

-- A file: it is not there, it cannot be read, or it holds a text.
pub data File : Type 0 where
  missing unreadable : File
  holds : Chars → File

unfoldable pub minimum : List ℕ → Option ℕ
minimum [] = none
minimum (c ∷ cs) = elim (minimum cs) [ none ↦ some c | some m ↦ some (min c m) ]

abbrev pub GroupMap : Type 0
GroupMap = List (ℕ × List ℕ)

-- `groups.entry(key).or_insert(siblings)`
unfoldable pub insert_group : ℕ → List ℕ → GroupMap → GroupMap
insert_group key siblings [] = (key, siblings) ∷ []
insert_group key siblings ((k, vs) ∷ rest) =
    let later = insert_group key siblings rest in
    if key == k
    then (k, vs) ∷ rest
    else if ltb key k
    then (key, siblings) ∷ (k, vs) ∷ rest
    else (k, vs) ∷ later

unfoldable pub add_siblings : Chars → GroupMap → Result IoError GroupMap
unfolding parse_cpu_list minimum insert_group
add_siblings raw groups = do
  siblings ← parse_cpu_list raw
  ok (elim (minimum siblings) [ none ↦ groups | some key ↦ insert_group key siblings groups ])

-- The loop over the CPUs that are present; `siblings_of` is their `thread_siblings_list`.
unfoldable pub group_cpus : (ℕ → File) → List ℕ → GroupMap → Result IoError GroupMap
unfolding add_siblings
group_cpus siblings_of [] groups = ok groups
group_cpus siblings_of (cpu ∷ cpus) groups = elim (siblings_of cpu) [
  | missing ↦ group_cpus siblings_of cpus groups
  | unreadable ↦ err not_read
  | holds raw ↦ add_siblings raw groups >>= group_cpus siblings_of cpus
]

unfoldable pub insert_sorted : ℕ → List ℕ → List ℕ
insert_sorted v [] = v ∷ []
insert_sorted v (x ∷ xs) = let rest = insert_sorted v xs in if leb v x then v ∷ x ∷ xs else x ∷ rest

unfoldable pub sort_unstable : List ℕ → List ℕ
unfolding insert_sorted
sort_unstable [] = []
sort_unstable (x ∷ xs) = insert_sorted x (sort_unstable xs)

abbrev smt_groups : CpuMap → GroupMap → List SmtGroup
smt_groups numa [] = []
smt_groups numa ((key, vcpus) ∷ rest) =
    record { vcpus = sort_unstable vcpus; numa_node = find_node key numa } ∷ smt_groups numa rest

unfoldable pub read_smt_groups :
    Option (List NodeEntry) → Option Chars → (ℕ → File) → Result IoError (List SmtGroup)
unfolding read_numa_map group_cpus sort_unstable find_node
read_smt_groups nodes present siblings_of = do
  raw ← ok_or present not_read
  cpus ← parse_cpu_list raw
  groups ← group_cpus siblings_of cpus []
  ok (smt_groups (read_numa_map nodes) groups)
