-- ===== src/Tensor/Copy/Apart.antt =====
-- A write into a byte buffer in src/tensor/batched_tensor.rs changes the range written, and no other.
use toutates.Base.{
  ℕ, zero, suc, ◌+◌, ◌-◌, ◌≤◌, ◌≡◌, ◌⊎◌, inl, inr, refl, sym, ap, ◌∙◌, arith, ◌∷◌, [], ◌++◌, length,
  take, drop, length-append, length-take, length-drop, drop-append, ok, leb, Bool-cases,
}
use toutates.Tensor.Bytes.{Bytes, slice_range, copy_from_slice}
use toutates.Tensor.Copy.Laws.{slice_range-parts}

take-before :
    (n lo : ℕ) (xs r : Bytes) → n ≤ lo → lo ≤ length xs → take n (take lo xs ++ r) ≡ take n xs
take-before zero lo xs r h k = refl
take-before (suc n) zero xs r h k = absurd (omega arith)
take-before (suc n) (suc lo) [] r h k = absurd (omega arith)
take-before (suc n) (suc lo) (x ∷ xs) r h k =
    ap (λ t. x ∷ t) (take-before n lo xs r (omega arith) (omega arith))

window-before :
    (n a lo : ℕ) (xs r : Bytes)
    → a + n ≤ lo
    → lo ≤ length xs
    → take n (drop a (take lo xs ++ r)) ≡ take n (drop a xs)
window-before n zero lo xs r h k = take-before n lo xs r (omega arith) k
window-before n (suc a) zero xs r h k = absurd (omega arith)
window-before n (suc a) (suc lo) [] r h k = absurd (omega arith)
window-before n (suc a) (suc lo) (x ∷ xs) r h k =
    window-before n a lo xs r (omega arith) (omega arith)

drop-nil : (k : ℕ) → drop {A = ℕ} k [] ≡ []
drop-nil zero = refl
drop-nil (suc k) = refl

drop-drop : (a b : ℕ) (xs : Bytes) → drop a (drop b xs) ≡ drop (b + a) xs
drop-drop a zero xs = ap (λ k. drop k xs) (omega arith)
drop-drop a (suc b) [] = drop-nil a ∙ sym (drop-nil (suc b + a))
drop-drop a (suc b) (x ∷ xs) =
    let e : suc b + a ≡ suc (b + a) = omega arith in rw e (drop-drop a b xs)

-- `xs` with `src` in place of as many bytes from `lo` on.
abbrev pub overwrite : ℕ → Bytes → Bytes → Bytes
overwrite lo src xs = take lo xs ++ (src ++ drop (lo + length src) xs)

module _ (lo : ℕ) (src xs : Bytes) (fits : lo + length src ≤ length xs) where
  pub length-overwrite : length (overwrite lo src xs) ≡ length xs
  length-overwrite = omega (
    arith,
    length-append {0} (take lo xs) (src ++ drop (lo + length src) xs),
    length-append {0} src (drop (lo + length src) xs),
    length-take {0} lo xs,
    length-drop {0} (lo + length src) xs,
  )

  drop-overwrite : (k : ℕ) → lo + length src ≤ k → drop k (overwrite lo src xs) ≡ drop k xs
  drop-overwrite k h =
      drop-append (take lo xs) (src ++ drop (lo + length src) xs) k (k - lo)
        (omega (arith, length-take {0} lo xs))
      ∙ drop-append src (drop (lo + length src) xs) (k - lo) (k - lo - length src) (omega arith)
      ∙ drop-drop (k - lo - length src) (lo + length src) xs
      ∙ ap (λ n. drop n xs) (omega arith)

  -- A range before or after the bytes written is what it was.
  pub slice_range-overwrite_apart :
      (from to : ℕ)
      → (to ≤ lo) ⊎ (lo + length src ≤ from)
      → slice_range (overwrite lo src xs) from to ≡ slice_range xs from to
  unfolding slice_range
  slice_range-overwrite_apart from to (inl before) = elim (Bool-cases (leb from to)) [
    | inr wrong ↦ rw wrong refl
    | inl ordered ↦
        rw
          (
            ordered,
            length-overwrite,
            window-before (to - from) from lo xs (src ++ drop (lo + length src) xs)
                (ground (arith, ordered, before)) (omega arith),
          )
          refl
  ]
  slice_range-overwrite_apart from to (inr after) =
      rw (length-overwrite, drop-overwrite from after) refl

  pub slice_range-overwrite : slice_range (overwrite lo src xs) lo (lo + length src) ≡ ok src
  slice_range-overwrite =
      slice_range-parts (take lo xs) src (drop (lo + length src) xs) lo (lo + length src)
        (omega (arith, length-take {0} lo xs)) (omega (arith, length-take {0} lo xs))

pub copy_from_slice-ok :
    (bytes : Bytes) (lo len : ℕ) (src out : Bytes)
    → copy_from_slice bytes lo len src ≡ ok out
    → (len ≡ length src) × (lo + length src ≤ length bytes) × (out ≡ overwrite lo src bytes)
unfolding copy_from_slice
copy_from_slice-ok bytes lo len src out e = ground arith
