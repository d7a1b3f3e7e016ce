-- ===== src/Base/Chars/Laws.antt =====
-- Texts whose characters all lie in a range, and how they are cut up and read.
use toutates.Base.{ℕ, ◌≤◌, ◌<◌, [], ◌∷◌, ◌++◌, none, some, false, ◌≡◌, ◌≢◌, refl, arith}
use toutates.Base.Chars.{Chars, is_whitespace, trim_start, trim_end, trim, split, split_once}

-- All characters are at least `lo` and below `hi`.
abbrev pub Within : ℕ → ℕ → Chars → Type 0
Within lo hi [] = Unit {0}
Within lo hi (c ∷ cs) = (lo ≤ c) × (c < hi) × Within lo hi cs

pub Within-append :
    (lo hi : ℕ) (s t : Chars) → Within lo hi s → Within lo hi t → Within lo hi (s ++ t)
Within-append lo hi [] t ws wt = wt
Within-append lo hi (c ∷ cs) t (l, h, ws) wt = (l, h, Within-append lo hi cs t ws wt)

pub Within-widen :
    (lo hi lo' hi' : ℕ) (s : Chars) → lo' ≤ lo → hi ≤ hi' → Within lo hi s → Within lo' hi' s
Within-widen lo hi lo' hi' [] l h w = tt
Within-widen lo hi lo' hi' (c ∷ cs) l h (lc, hc, w) =
    (omega arith, omega arith, Within-widen lo hi lo' hi' cs l h w)

visible : (c : ℕ) → 33 ≤ c → c < 127 → is_whitespace c ≡ false
unfolding is_whitespace
visible c l h = ground arith

pub trim_start-Within : (s : Chars) → Within 33 127 s → trim_start s ≡ s
unfolding trim_start
trim_start-Within [] w = refl
trim_start-Within (c ∷ cs) (l, h, w) = rw (visible c l h) refl

pub trim_end-Within : (s : Chars) → Within 33 127 s → trim_end s ≡ s
unfolding trim_end
trim_end-Within [] w = refl
trim_end-Within (c ∷ cs) (l, h, w) = ground (arith, visible c l h, trim_end-Within cs w)

-- Visible characters with a line end after them.
pub trim_end-line : (s : Chars) → Within 33 127 s → trim_end (s ++ (10 ∷ [])) ≡ s
unfolding trim_end is_whitespace
trim_end-line [] w = refl
trim_end-line (c ∷ cs) (l, h, w) = ground (arith, visible c l h, trim_end-line cs w)

pub trim-Within : (s : Chars) → Within 33 127 s → trim s ≡ s
unfolding trim
trim-Within s w = rw (trim_start-Within s w) (trim_end-Within s w)

trim_start-line : (s : Chars) → Within 33 127 s → trim_end (trim_start (s ++ (10 ∷ []))) ≡ s
unfolding trim_start is_whitespace trim_end
trim_start-line [] w = refl
trim_start-line (c ∷ cs) (l, h, w) = rw (visible c l h) (trim_end-line (c ∷ cs) (l, h, w))

pub trim-line : (s : Chars) → Within 33 127 s → trim (s ++ (10 ∷ [])) ≡ s
unfolding trim
trim-line s w = trim_start-line s w

module _ (sep : ℕ) where
  abbrev pub Free : Chars → Type 0
  Free [] = Unit {0}
  Free (c ∷ cs) = (c ≢ sep) × Free cs

  pub Within-Free : (lo hi : ℕ) (s : Chars) → sep < lo → Within lo hi s → Free s
  Within-Free lo hi [] h w = tt
  Within-Free lo hi (c ∷ cs) h (l, _, w) = ((λ e. absurd (omega arith)), Within-Free lo hi cs h w)

  pub Free-append : (s t : Chars) → Free s → Free t → Free (s ++ t)
  Free-append [] t fs ft = ft
  Free-append (c ∷ cs) t (n, fs) ft = (n, Free-append cs t fs ft)

  pub split-Free : (s : Chars) → Free s → split sep s ≡ s ∷ []
  unfolding split
  split-Free [] f = refl
  split-Free (c ∷ cs) (n, f) = ground (arith, n, split-Free cs f)

  pub split-append : (s t : Chars) → Free s → split sep (s ++ (sep ∷ t)) ≡ s ∷ split sep t
  unfolding split
  split-append [] t f = ground arith
  split-append (c ∷ cs) t (n, f) = ground (arith, n, split-append cs t f)

  pub split_once-Free : (s : Chars) → Free s → split_once sep s ≡ none
  unfolding split_once
  split_once-Free [] f = refl
  split_once-Free (c ∷ cs) (n, f) = ground (arith, n, split_once-Free cs f)

  pub split_once-append : (s t : Chars) → Free s → split_once sep (s ++ (sep ∷ t)) ≡ some (s, t)
  unfolding split_once
  split_once-append [] t f = ground arith
  split_once-append (c ∷ cs) t (n, f) = ground (arith, n, split_once-append cs t f)
