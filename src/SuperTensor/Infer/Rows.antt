-- ===== src/SuperTensor/Infer/Rows.antt =====
-- The rows of a request that the loop of `infer` in src/tensor/supertensor.rs hands to each batch.
use native.Mathlib.Nat.{add-mul}
use toutates.Base.{
  ℕ, zero, suc, ◌+◌, ◌*◌, ◌≤◌, ◌<◌, List, [], ◌∷◌, ◌++◌, append_assoc, length, take, drop,
  length-append, length-take, length-drop, Result, ok, ◌>>=◌, ◌≡◌, refl, sym, ap, ◌∙◌, arith,
  usize_mod,
}
use toutates.Base.Int.{pos, as_usize}
use toutates.Tensor.Errors.{InferError}
use toutates.Tensor.Bytes.{Bytes, Dims, slice_rows, slice_dim0}
use toutates.Tensor.Copy.Laws.{slice_rows-parts}
use toutates.SuperTensor.Infer.Pieces.{Piece, plan, total, IsChain, plan-IsChain, total-plan}

-- The slices of an input for the pieces, from its row `start` on, one after the other.
unfoldable pub row_slices : Bytes → Dims → List Piece → ℕ → Result InferError Bytes
row_slices content shape [] start = ok []
row_slices content shape (p ∷ ps) start = do
  slice ← slice_dim0 content shape start (start + p.slots)
  rest ← row_slices content shape ps (start + p.slots)
  ok (slice ++ rest)

take-drop : (n : ℕ) (xs : Bytes) → take n xs ++ drop n xs ≡ xs
take-drop zero xs = refl
take-drop (suc n) [] = refl
take-drop (suc n) (x ∷ xs) = ap (λ t. x ∷ t) (take-drop n xs)

row_slices-chain :
    (batch_size first n w start : ℕ) (ds : Dims) (ps : List Piece) (pre rest : Bytes)
    → 0 < n
    → n < usize_mod
    → IsChain batch_size first ps
    → length (pre ++ rest) ≡ n * w
    → length pre ≡ start * w
    → length rest ≡ total ps * w
    → row_slices (pre ++ rest) (pos n ∷ ds) ps start ≡ ok rest
unfolding row_slices slice_dim0
row_slices-chain batch_size first n w start ds [] pre [] hn small chain whole before after = refl
row_slices-chain batch_size first n w start ds [] pre (x ∷ xs) hn small chain whole before after =
    absurd (omega arith)
row_slices-chain batch_size first n w start ds (p ∷ ps) pre rest hn small
      (at_first, some_slots, inside, chain) whole before after =
    let mid : Bytes = take (p.slots * w) rest in
    let post : Bytes = drop (p.slots * w) rest in
    let parts : mid ++ post ≡ rest = take-drop (p.slots * w) rest in
    let mid_length : length mid ≡ p.slots * w =
      omega (arith, length-take {0} (p.slots * w) rest, after, add-mul p.slots (total ps) w) in
    let post_length : length post ≡ total ps * w =
      omega (arith, length-drop {0} (p.slots * w) rest, after, add-mul p.slots (total ps) w) in
    let size : as_usize (pos n) ≡ n = omega arith in
    let here : slice_rows (pre ++ (mid ++ post)) n start (start + p.slots) ≡ ok mid =
      slice_rows-parts pre mid post n w start (start + p.slots) (omega arith) (rw parts whole) hn
        before (omega (arith, before, mid_length, add-mul start p.slots w)) in
    let later : row_slices ((pre ++ mid) ++ post) (pos n ∷ ds) ps (start + p.slots) ≡ ok post =
      row_slices-chain batch_size (first + p.slots) n w (start + p.slots) ds ps (pre ++ mid) post hn
        small chain (rw (append_assoc pre mid post, parts) whole)
        (omega (arith, length-append {0} pre mid, before, mid_length, add-mul start p.slots w))
        post_length in
    let one : slice_rows (pre ++ rest) (as_usize (pos n)) start (start + p.slots) ≡ ok mid =
      ap (λ r. slice_rows (pre ++ r) (as_usize (pos n)) start (start + p.slots)) (sym parts)
      ∙ ap (λ d. slice_rows (pre ++ (mid ++ post)) d start (start + p.slots)) size
      ∙ here in
    let two : row_slices (pre ++ rest) (pos n ∷ ds) ps (start + p.slots) ≡ ok post =
      ap (λ r. row_slices r (pos n ∷ ds) ps (start + p.slots))
        (ap (λ r. pre ++ r) (sym parts) ∙ sym (append_assoc pre mid post))
      ∙ later in
    rw (one, two) (ap ok parts)

-- A request of `n` rows, at least one, of as many bytes each: the slices of its rows for the pieces
-- of its plan, one after the other, are its whole content.
pub row_slices-plan :
    (batch_size fuel first n w : ℕ) (ds : Dims) (content : Bytes)
    → 0 < batch_size
    → 0 < n
    → n ≤ fuel
    → n < usize_mod
    → length content ≡ n * w
    → row_slices content (pos n ∷ ds) (plan batch_size fuel first n) 0 ≡ ok content
row_slices-plan batch_size fuel first n w ds content hb hn enough small whole =
    row_slices-chain batch_size first n w 0 ds (plan batch_size fuel first n) [] content hn small
      (plan-IsChain batch_size fuel first n hb hn) whole (omega arith)
      (whole ∙ ap (λ t. t * w) (sym (total-plan batch_size fuel first n hb enough)))
