-- ===== src/SuperTensor/Ring/Distinct.antt =====
-- Lists of numbers in a range, without repetition, and the removal of a place.
use native.Mathlib.Nat.{div-add-mod}
use toutates.Base.{
  ℕ, zero, suc, ◌+◌, ◌*◌, ◌/◌, ◌%◌, ◌≤◌, ◌<◌, List, [], ◌∷◌, map, get_elem?, some, ◌≡◌, ◌≢◌, refl,
  sym, ap, arith, dec_lt,
}

module _ {ℓ} {A : Type ℓ} where
  abbrev pub remove : List A → ℕ → List A
  remove [] i = []
  remove (x ∷ xs) zero = xs
  remove (x ∷ xs) (suc i) = x ∷ remove xs i

module _ {ℓ κ} {A : Type ℓ} {B : Type κ} (f : A → B) where
  pub map-remove : (xs : List A) (i : ℕ) → map f (remove xs i) ≡ remove (map f xs) i
  map-remove [] i = refl
  map-remove (x ∷ xs) zero = refl
  map-remove (x ∷ xs) (suc i) = ap (λ t. f x ∷ t) (map-remove xs i)

  -- A place of a mapped list holds the image of what the list holds there.
  pub get_elem?-map :
      (xs : List A) (i : ℕ) (y : B)
      → get_elem? (map f xs) i ≡ some y
      → (x : A) × (get_elem? xs i ≡ some x) × (f x ≡ y)
  get_elem?-map [] i y e = absurd (ground arith)
  get_elem?-map (x ∷ xs) zero y e = (x, refl, ground arith)
  get_elem?-map (x ∷ xs) (suc i) y e = get_elem?-map xs i y e

abbrev pub Between : ℕ → ℕ → List ℕ → Type 0
Between lo hi [] = Unit {0}
Between lo hi (p ∷ ps) = (lo ≤ p) × (p < hi) × Between lo hi ps

abbrev pub Fresh : ℕ → List ℕ → Type 0
Fresh p [] = Unit {0}
Fresh p (q ∷ qs) = (q ≢ p) × Fresh p qs

-- No number stands at two places.
abbrev pub Distinct : List ℕ → Type 0
Distinct [] = Unit {0}
Distinct (p ∷ ps) = Fresh p ps × Distinct ps

pub Between-elem :
    (lo hi : ℕ) (ps : List ℕ) (i p : ℕ)
    → Between lo hi ps
    → get_elem? ps i ≡ some p
    → (lo ≤ p) × (p < hi)
Between-elem lo hi [] i p b e = absurd (ground arith)
Between-elem lo hi (q ∷ qs) zero p (l, h, b) e = ground arith
Between-elem lo hi (q ∷ qs) (suc i) p (l, h, b) e = Between-elem lo hi qs i p b e

pub Between-remove :
    (lo hi : ℕ) (ps : List ℕ) (i : ℕ) → Between lo hi ps → Between lo hi (remove ps i)
Between-remove lo hi [] i b = b
Between-remove lo hi (q ∷ qs) zero (l, h, b) = b
Between-remove lo hi (q ∷ qs) (suc i) (l, h, b) = (l, h, Between-remove lo hi qs i b)

pub Between-weaken : (lo hi hi' : ℕ) (ps : List ℕ) → hi ≤ hi' → Between lo hi ps → Between lo hi' ps
Between-weaken lo hi hi' [] w b = b
Between-weaken lo hi hi' (q ∷ qs) w (l, h, b) =
    (l, omega (arith, h, w), Between-weaken lo hi hi' qs w b)

-- A lower bound that is not in the list can be raised.
pub Between-raise :
    (lo hi : ℕ) (ps : List ℕ) → Between lo hi ps → Fresh lo ps → Between (suc lo) hi ps
Between-raise lo hi [] b f = b
Between-raise lo hi (q ∷ qs) (l, h, b) (n, f) = (ground arith, h, Between-raise lo hi qs b f)

pub Between-Fresh : (lo hi : ℕ) (ps : List ℕ) → Between lo hi ps → Fresh hi ps
Between-Fresh lo hi [] b = tt
Between-Fresh lo hi (q ∷ qs) (l, h, b) = (λ e. absurd (omega arith), Between-Fresh lo hi qs b)

pub Fresh-remove : (p : ℕ) (ps : List ℕ) (i : ℕ) → Fresh p ps → Fresh p (remove ps i)
Fresh-remove p [] i f = f
Fresh-remove p (q ∷ qs) zero (n, f) = f
Fresh-remove p (q ∷ qs) (suc i) (n, f) = (n, Fresh-remove p qs i f)

pub Fresh-elem : (p q : ℕ) (ps : List ℕ) (i : ℕ) → Fresh p ps → get_elem? ps i ≡ some q → q ≢ p
Fresh-elem p q [] i f e = absurd (ground arith)
Fresh-elem p q (r ∷ rs) zero (n, f) e = λ same. n (ground arith)
Fresh-elem p q (r ∷ rs) (suc i) (n, f) e = Fresh-elem p q rs i f e

pub Distinct-remove : (ps : List ℕ) (i : ℕ) → Distinct ps → Distinct (remove ps i)
Distinct-remove [] i d = d
Distinct-remove (q ∷ qs) zero (f, d) = d
Distinct-remove (q ∷ qs) (suc i) (f, d) = (Fresh-remove q qs i f, Distinct-remove qs i d)

-- What is taken out of a list without repetition is not in the rest.
pub Fresh-removed :
    (ps : List ℕ) (i p : ℕ) → Distinct ps → get_elem? ps i ≡ some p → Fresh p (remove ps i)
Fresh-removed [] i p d e = tt
Fresh-removed (q ∷ qs) zero p (f, d) e = let same : q ≡ p = ground arith in rw (sym same) f
Fresh-removed (q ∷ qs) (suc i) p (f, d) e =
    (λ same. Fresh-elem q p qs i f e (sym same), Fresh-removed qs i p d e)

pub next_block : (n a b : ℕ) → a < b → n * a + n ≤ n * b
next_block n a b h = grind arith

-- Two numbers of a window of `n` that are the same modulo `n` are the same.
pub window-mod :
    (n lo p q : ℕ) → 0 < n → lo ≤ p → p < lo + n → lo ≤ q → q < lo + n → p % n ≡ q % n → p ≡ q
window-mod n lo p q pos lp hp lq hq e = elim (dec_lt (p / n) (q / n)) [
  | yes less ↦
      absurd (omega (arith, next_block n (p / n) (q / n) less, div-add-mod p n, div-add-mod q n))
  | no not_less ↦ elim (dec_lt (q / n) (p / n)) [
    | yes more ↦
        absurd (omega (arith, next_block n (q / n) (p / n) more, div-add-mod p n, div-add-mod q n))
    | no not_more ↦
        (let same : p / n ≡ q / n = omega arith in
          omega (arith, ap (λ t. n * t) same, div-add-mod p n, div-add-mod q n))
  ]
]

module _ (n lo : ℕ) (pos : 0 < n) where
  Fresh-mod :
      (hi p : ℕ) (ps : List ℕ)
      → hi ≤ lo + n
      → lo ≤ p
      → p < hi
      → Between lo hi ps
      → Fresh p ps
      → Fresh (p % n) (map (λ q. q % n) ps)
  Fresh-mod hi p [] w lp hp b f = tt
  Fresh-mod hi p (q ∷ qs) w lp hp (lq, hq, b) (ne, f) = (
    λ e. ne (window-mod n lo q p pos lq (omega arith) lp (omega arith) e),
    Fresh-mod hi p qs w lp hp b f,
  )

  -- The numbers of a window of `n` stay distinct modulo `n`.
  pub Distinct-mod :
      (hi : ℕ) (ps : List ℕ)
      → hi ≤ lo + n
      → Between lo hi ps
      → Distinct ps
      → Distinct (map (λ q. q % n) ps)
  Distinct-mod hi [] w b d = tt
  Distinct-mod hi (q ∷ qs) w (lq, hq, b) (f, d) =
      (Fresh-mod hi q qs w lq hq b f, Distinct-mod hi qs w b d)
