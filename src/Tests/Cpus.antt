-- ===== src/Tests/Cpus.antt =====
-- A list of CPUs as /sys/devices/system/cpu/present holds it.
use toutates.Base.{[], ◌∷◌, ◌++◌, ok, ◌≡◌, refl, arith, List}
use toutates.Base.Chars.{decimal, to_chars}
use toutates.Topology.Read.{count_up, range, parse_cpu_list}
use toutates.Topology.Read.Print.{
  CpuRange, print_range, print_ranges, cpus_of, parse_cpu_list-print_ranges,
}

abbrev present : List CpuRange
present = record { lo = 0; hi = 3 } ∷ record { lo = 8; hi = 8 } ∷ record { lo = 31; hi = 32 } ∷ []

-- "0-3,8,31-32"
print_ranges-present :
    print_ranges present ≡ 48 ∷ 45 ∷ 51 ∷ 44 ∷ 56 ∷ 44 ∷ 51 ∷ 49 ∷ 45 ∷ 51 ∷ 50 ∷ []
unfolding print_ranges print_range to_chars decimal
print_ranges-present = refl

cpus_of-present : cpus_of present ≡ 0 ∷ 1 ∷ 2 ∷ 3 ∷ 8 ∷ 31 ∷ 32 ∷ []
unfolding cpus_of range count_up
cpus_of-present = refl

parse_cpu_list-print_ranges_example :
    parse_cpu_list (print_ranges present ++ (10 ∷ [])) ≡ ok (cpus_of present)
parse_cpu_list-print_ranges_example =
    parse_cpu_list-print_ranges present
      (omega arith, omega arith, (omega arith, omega arith, (omega arith, omega arith, tt)))
