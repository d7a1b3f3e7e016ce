-- ===== src/Base/Chars.antt =====
-- Texts as lists of the codes of their characters, and what the program calls on `str`.
pub mod Laws
pub mod Decimal
use toutates.Base.{
  ℕ, zero, suc, ◌+◌, ◌-◌, ◌*◌, ◌/◌, ◌%◌, ◌^◌, ◌==◌, ltb, leb, if◌then◌else◌, List, [], ◌∷◌, ◌++◌,
  Option, none, some, Bool, true, false, ◌&&◌, ◌||◌,
}

abbrev pub Chars : Type 0
Chars = List ℕ

-- `char::is_whitespace`: the characters with Unicode's property White_Space.
unfoldable pub is_whitespace : ℕ → Bool
is_whitespace c =
    (leb 9 c && leb c 13)
    || (c == 32)
    || (c == 133)
    || (c == 160)
    || (c == 5760)
    || (leb 8192 c && leb c 8202)
    || (c == 8232)
    || (c == 8233)
    || (c == 8239)
    || (c == 8287)
    || (c == 12288)

unfoldable pub trim_start : Chars → Chars
trim_start [] = []
trim_start (c ∷ cs) = let rest = trim_start cs in if is_whitespace c then rest else c ∷ cs

abbrev pub is_empty : Chars → Bool
is_empty [] = true
is_empty (c ∷ cs) = false

unfoldable pub trim_end : Chars → Chars
trim_end [] = []
trim_end (c ∷ cs) =
    let rest = trim_end cs in if is_empty rest && is_whitespace c then [] else c ∷ rest

unfoldable pub trim : Chars → Chars
unfolding trim_start trim_end
trim s = trim_end (trim_start s)

abbrev pub cons_first : ℕ → List Chars → List Chars
cons_first c [] = (c ∷ []) ∷ []
cons_first c (p ∷ ps) = (c ∷ p) ∷ ps

-- `split(sep)`, the pieces between the separators.
unfoldable pub split : ℕ → Chars → List Chars
split sep [] = [] ∷ []
split sep (c ∷ cs) = let rest = split sep cs in if c == sep then [] ∷ rest else cons_first c rest

-- `split_once(sep)`
unfoldable pub split_once : ℕ → Chars → Option (Chars × Chars)
split_once sep [] = none
split_once sep (c ∷ cs) =
    let rest = split_once sep cs in
    if c == sep
    then some ([], cs)
    else elim rest [ none ↦ none | some (before, after) ↦ some (c ∷ before, after) ]

-- `strip_prefix`; also `starts_with` and the rest of the text after it.
unfoldable pub strip_prefix : Chars → Chars → Option Chars
strip_prefix [] s = some s
strip_prefix (p ∷ ps) [] = none
strip_prefix (p ∷ ps) (c ∷ cs) = let rest = strip_prefix ps cs in if p == c then rest else none

-- The digits of a number below `bound`, after those that have given `seen`.
unfoldable pub parse_digits : ℕ → ℕ → Chars → Option ℕ
parse_digits bound seen [] = some seen
parse_digits bound seen (c ∷ cs) =
    let next = seen * 10 + (c - 48) in
    let rest = parse_digits bound next cs in
    if leb 48 c && leb c 57 && ltb next bound then rest else none

-- `str::parse` of an unsigned number below `bound`: one `+` may stand before its digits.
unfoldable pub parse_unsigned : ℕ → Chars → Option ℕ
unfolding parse_digits
parse_unsigned bound [] = none
parse_unsigned bound (c ∷ cs) =
    if c == 43
    then (if is_empty cs then none else parse_digits bound 0 cs)
    else parse_digits bound 0 (c ∷ cs)

-- The decimal digits of a number, on fuel: a number needs no more digits than itself, and one.
unfoldable pub decimal : ℕ → ℕ → Chars
decimal zero n = []
decimal (suc fuel) n =
    let before = decimal fuel (n / 10) in
    if ltb n 10 then (48 + n) ∷ [] else before ++ ((48 + n % 10) ∷ [])

unfoldable pub to_chars : ℕ → Chars
unfolding decimal
to_chars n = decimal (suc n) n
