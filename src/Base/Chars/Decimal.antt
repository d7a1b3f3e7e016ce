-- ===== src/Base/Chars/Decimal.antt =====
-- A number printed in decimal is read back by `str::parse`.
use toutates.Base.{
  ℕ, zero, suc, ◌+◌, ◌-◌, ◌*◌, ◌/◌, ◌%◌, ◌≤◌, ◌<◌, ◌==◌, ltb, leb, [], ◌∷◌, ◌++◌, Option, none,
  some, Bool-cases, inl, inr, false, ◌&&◌, ◌≡◌, refl, ap, ◌∙◌, arith,
}
use toutates.Base.Chars.{Chars, is_empty, parse_digits, parse_unsigned, decimal, to_chars}
use toutates.Base.Chars.Laws.{Within, Within-append}

abbrev then_digits : ℕ → Option ℕ → Chars → Option ℕ
then_digits bound none s = none
then_digits bound (some seen) s = parse_digits bound seen s

parse_digits-append :
    (bound seen : ℕ) (s t : Chars)
    → parse_digits bound seen (s ++ t) ≡ then_digits bound (parse_digits bound seen s) t
unfolding parse_digits
parse_digits-append bound seen [] t = refl
parse_digits-append bound seen (c ∷ cs) t =
    elim (Bool-cases (leb 48 c && leb c 57 && ltb (seen * 10 + (c - 48)) bound)) [
      | inl digit ↦ rw digit (parse_digits-append bound (seen * 10 + (c - 48)) cs t)
      | inr other ↦ rw other refl
    ]

parse_digits-one :
    (bound seen d : ℕ)
    → d < 10
    → seen * 10 + d < bound
    → parse_digits bound seen ((48 + d) ∷ []) ≡ some (seen * 10 + d)
unfolding parse_digits
parse_digits-one bound seen d small fits = ground arith

decimal-Within : (fuel n : ℕ) → Within 48 58 (decimal fuel n)
unfolding decimal
decimal-Within zero n = tt
decimal-Within (suc fuel) n = elim (Bool-cases (ltb n 10)) [
  | inl digit ↦ rw digit (omega arith, ground arith, tt)
  | inr more ↦ rw more (
      Within-append 48 58 (decimal fuel (n / 10)) ((48 + n % 10) ∷ [])
        (decimal-Within fuel (n / 10)) (omega arith, omega arith, tt))
]

decimal-some : (fuel n : ℕ) → is_empty (decimal (suc fuel) n) ≡ false
unfolding decimal
decimal-some fuel n = elim (Bool-cases (ltb n 10)) [
  | inl digit ↦ rw digit refl
  | inr more ↦ rw more (not_empty (decimal fuel (n / 10)))
]
  where
    not_empty : (s : Chars) → is_empty (s ++ ((48 + n % 10) ∷ [])) ≡ false
    not_empty [] = refl
    not_empty (c ∷ cs) = refl

parse_digits-decimal :
    (bound fuel n : ℕ) → n ≤ fuel → n < bound → parse_digits bound 0 (decimal (suc fuel) n) ≡ some n
unfolding decimal
parse_digits-decimal bound zero n enough fits = elim (Bool-cases (ltb n 10)) [
  | inl digit ↦
      rw digit (parse_digits-one bound 0 n (ground arith) (omega arith) ∙ ap some (omega arith))
  | inr more ↦ absurd (ground arith)
]
parse_digits-decimal bound (suc fuel) n enough fits = elim (Bool-cases (ltb n 10)) [
  | inl digit ↦
      rw digit (parse_digits-one bound 0 n (ground arith) (omega arith) ∙ ap some (omega arith))
  | inr more ↦ rw more (
      parse_digits-append bound 0 (decimal (suc fuel) (n / 10)) ((48 + n % 10) ∷ [])
      ∙ ap (λ r. then_digits bound r ((48 + n % 10) ∷ []))
          (parse_digits-decimal bound fuel (n / 10) (ground arith) (omega arith))
      ∙ parse_digits-one bound (n / 10) (n % 10) (omega arith) (omega arith)
      ∙ ap some (omega arith))
]

pub to_chars-Within : (n : ℕ) → Within 48 58 (to_chars n)
unfolding to_chars
to_chars-Within n = decimal-Within (suc n) n

pub to_chars-some : (n : ℕ) → is_empty (to_chars n) ≡ false
unfolding to_chars
to_chars-some n = decimal-some n n

parse_unsigned-digits :
    (bound : ℕ) (s : Chars)
    → Within 48 58 s
    → is_empty s ≡ false
    → parse_unsigned bound s ≡ parse_digits bound 0 s
unfolding parse_unsigned
parse_unsigned-digits bound [] w some_digit = absurd (ground (arith, some_digit))
parse_unsigned-digits bound (c ∷ cs) (l, h, w) some_digit =
    let plain : (c == 43) ≡ false = ground arith in rw plain refl

pub parse_unsigned-to_chars : (bound n : ℕ) → n < bound → parse_unsigned bound (to_chars n) ≡ some n
unfolding to_chars
parse_unsigned-to_chars bound n fits =
    parse_unsigned-digits bound (to_chars n) (to_chars-Within n) (to_chars-some n)
    ∙ parse_digits-decimal bound n n (omega arith) fits
