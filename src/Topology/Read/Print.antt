-- ===== src/Topology/Read/Print.antt =====
-- A list of CPUs as the kernel prints it is read back by `parse_cpu_list` of src/topology.rs.
use toutates.Base.{
  ℕ, suc, ◌-◌, ◌^◌, ◌<◌, ◌==◌, ==_iff, if◌then◌else◌, List, [], ◌∷◌, ◌++◌, ok, Bool-cases, inl, inr,
  false, ◌≡◌, refl, sym, ap, ◌∙◌, arith,
}
use toutates.Base.Chars.{Chars, is_empty, split, to_chars}
use toutates.Base.Chars.Laws.{
  Within, Within-append, Within-widen, trim-Within, trim-line, Free, Within-Free, split-Free,
  split-append, split_once-Free, split_once-append,
}
use toutates.Base.Chars.Decimal.{to_chars-Within, to_chars-some, parse_unsigned-to_chars}
use toutates.Topology.Read.{parse_cpu, count_up, range, parse_part, parse_parts, parse_cpu_list}

-- A range of CPUs, and its text: `lo`, or `lo-hi`.
pub record CpuRange : Type 0 where
  pub lo : ℕ
  pub hi : ℕ

unfoldable pub print_range : CpuRange → Chars
print_range r = if r.lo == r.hi then to_chars r.lo else to_chars r.lo ++ (45 ∷ to_chars r.hi)

-- The ranges with commas between them.
unfoldable pub print_ranges : List CpuRange → Chars
unfolding print_range
print_ranges [] = []
print_ranges (r ∷ []) = print_range r
print_ranges (r ∷ s ∷ rs) = print_range r ++ (44 ∷ print_ranges (s ∷ rs))

unfoldable pub cpus_of : List CpuRange → List ℕ
unfolding range
cpus_of [] = []
cpus_of (r ∷ rs) = range r.lo r.hi ++ cpus_of rs

-- The CPUs fit a `u32`.
abbrev pub Fit : List CpuRange → Type 0
Fit [] = Unit {0}
Fit (r ∷ rs) = (r.lo < 2 ^ 32) × (r.hi < 2 ^ 32) × Fit rs

print_range-Within : (r : CpuRange) → Within 45 58 (print_range r)
unfolding print_range
print_range-Within r =
    let lo =
      Within-widen 48 58 45 58 (to_chars r.lo) (omega arith) (omega arith) (to_chars-Within r.lo) in
    let hi =
      Within-widen 48 58 45 58 (to_chars r.hi) (omega arith) (omega arith) (to_chars-Within r.hi) in
    elim (Bool-cases (r.lo == r.hi)) [
      | inl one ↦ rw one lo
      | inr two ↦ rw two (
          Within-append 45 58 (to_chars r.lo) (45 ∷ to_chars r.hi) lo
            (omega arith, omega arith, hi))
    ]

print_ranges-Within : (rs : List CpuRange) → Within 44 58 (print_ranges rs)
unfolding print_ranges
print_ranges-Within [] = tt
print_ranges-Within (r ∷ []) =
    Within-widen 45 58 44 58 (print_range r) (omega arith) (omega arith) (print_range-Within r)
print_ranges-Within (r ∷ s ∷ rs) =
    Within-append 44 58 (print_range r) (44 ∷ print_ranges (s ∷ rs))
      (Within-widen 45 58 44 58 (print_range r) (omega arith) (omega arith) (print_range-Within r))
      (omega arith, omega arith, print_ranges-Within (s ∷ rs))

parse_cpu-to_chars : (n : ℕ) → n < 2 ^ 32 → parse_cpu (to_chars n) ≡ ok n
unfolding parse_cpu
parse_cpu-to_chars n fits =
    let visible =
      Within-widen 48 58 33 127 (to_chars n) (omega arith) (omega arith) (to_chars-Within n) in
    rw (trim-Within (to_chars n) visible, parse_unsigned-to_chars (2 ^ 32) n fits) refl

range-one : (n : ℕ) → range n n ≡ n ∷ []
unfolding range count_up
range-one n = let e : suc n - n ≡ 1 = omega arith in rw e refl

append-some : (s t : Chars) → is_empty s ≡ false → is_empty (s ++ t) ≡ false
append-some [] t e = absurd (ground (arith, e))
append-some (c ∷ cs) t e = refl

no_dash : (n : ℕ) → Free 45 (to_chars n)
no_dash n = Within-Free 45 48 58 (to_chars n) (omega arith) (to_chars-Within n)

parse_part-one : (n : ℕ) → n < 2 ^ 32 → parse_part (to_chars n) ≡ ok (n ∷ [])
unfolding parse_part
parse_part-one n fits =
    rw (to_chars-some n, split_once-Free 45 (to_chars n) (no_dash n), parse_cpu-to_chars n fits)
      refl

parse_part-two :
    (m n : ℕ)
    → m < 2 ^ 32
    → n < 2 ^ 32
    → parse_part (to_chars m ++ (45 ∷ to_chars n)) ≡ ok (range m n)
unfolding parse_part
parse_part-two m n fm fn =
    rw
      (
        append-some (to_chars m) (45 ∷ to_chars n) (to_chars-some m),
        split_once-append 45 (to_chars m) (to_chars n) (no_dash m),
        parse_cpu-to_chars m fm,
        parse_cpu-to_chars n fn,
      )
      refl

parse_part-print_range :
    (r : CpuRange)
    → r.lo < 2 ^ 32
    → r.hi < 2 ^ 32
    → parse_part (print_range r) ≡ ok (range r.lo r.hi)
unfolding print_range
parse_part-print_range r lo hi = elim (Bool-cases (r.lo == r.hi)) [
  | inl one ↦
      ap parse_part (rw (one, print_range) refl)
      ∙ parse_part-one r.lo lo
      ∙ ap ok (sym (range-one r.lo) ∙ ap (λ h. range r.lo h) ((==_iff r.lo r.hi).0 one))
  | inr two ↦ ap parse_part (rw (two, print_range) refl) ∙ parse_part-two r.lo r.hi lo hi
]

parse_parts-none : parse_parts (split 44 []) ≡ ok []
unfolding parse_parts parse_part split
parse_parts-none = refl

parse_parts-print_ranges :
    (rs : List CpuRange) → Fit rs → parse_parts (split 44 (print_ranges rs)) ≡ ok (cpus_of rs)
unfolding parse_parts print_ranges cpus_of
parse_parts-print_ranges [] f = parse_parts-none
parse_parts-print_ranges (r ∷ []) (lo, hi, f) =
    rw
      (
        split-Free 44 (print_range r)
            (Within-Free 44 45 58 (print_range r) (omega arith) (print_range-Within r)),
        parse_part-print_range r lo hi,
      )
      refl
parse_parts-print_ranges (r ∷ s ∷ rs) (lo, hi, f) =
    rw
      (
        split-append 44 (print_range r) (print_ranges (s ∷ rs))
            (Within-Free 44 45 58 (print_range r) (omega arith) (print_range-Within r)),
        parse_part-print_range r lo hi,
        parse_parts-print_ranges (s ∷ rs) f,
      )
      refl

-- A list of ranges of CPUs that fit a `u32`, printed as the kernel does with a line end after it, is
-- read back as the CPUs of the ranges in order; a range whose end is before its start has none.
pub parse_cpu_list-print_ranges :
    (rs : List CpuRange) → Fit rs → parse_cpu_list (print_ranges rs ++ (10 ∷ [])) ≡ ok (cpus_of rs)
unfolding parse_cpu_list
parse_cpu_list-print_ranges rs f =
    let visible =
      Within-widen 44 58 33 127 (print_ranges rs) (omega arith) (omega arith)
        (print_ranges-Within rs) in
    rw (trim-line (print_ranges rs) visible) (parse_parts-print_ranges rs f)
