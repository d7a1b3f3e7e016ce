-- ===== src/SuperTensor/Shared/Claims.antt =====
-- The writes of the claims of src/tensor/supertensor.rs are on slots of their own, as long as the
-- claims are within the ring.
use native.Mathlib.Nat.{div-add-mod, mod-lt, mul-add}
use toutates.Base.{
  ℕ, ◌+◌, ◌-◌, ◌*◌, ◌/◌, ◌%◌, ◌≤◌, ◌<◌, ◌≡◌, ◌≢◌, ◌⊎◌, inl, inr, sym, ap, ◌∙◌, arith, List, [], ◌∷◌,
  usize_mod, ℕ_discrete, dec_lt,
}
use toutates.SuperTensor.Index.{masks_of, as_batch_id, as_batch_slot_id}
use toutates.SuperTensor.Index.Position.{
  IsRing, IsRing-Shape, as_batch_id-wrapped, as_batch_slot_id-wrapped,
}
use toutates.SuperTensor.Infer.Pieces.{Piece, total, IsChain}
use toutates.SuperTensor.Ring.Distinct.{window-mod, next_block}
use toutates.SuperTensor.Shared.Writes.{Insert, batch, first_slot, Apart, ApartFrom, AllApart}

-- Two pieces of batches of `size` slots, the second after the first and less than a turn of the ring
-- ahead of it: in different batches of the ring, or on slots apart.
module _ (size capacity x k y l : ℕ) (hs : 0 < size) (hc : 0 < capacity)
    (inside : x % size + k ≤ size) (after : x + k ≤ y) (not_empty : 0 < l)
    (within : y + l ≤ x + capacity * size) where
  block_le : x / size ≤ y / size
  block_le = elim (dec_lt (y / size) (x / size)) [
    | yes less ↦ absurd (
        omega (
          arith,
          next_block size (y / size) (x / size) less,
          div-add-mod x size,
          div-add-mod y size,
          mod-lt y hs,
        ))
    | no other ↦ omega arith
  ]

  block_bound : y / size ≤ x / size + capacity
  block_bound = elim (dec_lt (x / size + capacity) (y / size)) [
    | yes more ↦ absurd (
        omega (
          arith,
          next_block size (x / size + capacity) (y / size) more,
          mul-add size (x / size) capacity,
          div-add-mod x size,
          div-add-mod y size,
          mod-lt x hs,
        ))
    | no other ↦ omega arith
  ]

  same_block : y / size ≡ x / size → x % size + k ≤ y % size
  same_block e = omega (arith, div-add-mod x size, div-add-mod y size, ap (λ (t : ℕ). size * t) e)

  next_turn : y / size ≡ x / size + capacity → y % size + l ≤ x % size
  next_turn e = omega (
    arith,
    div-add-mod x size,
    div-add-mod y size,
    ap (λ (t : ℕ). size * t) e,
    mul-add size (x / size) capacity,
  )

  pieces_apart :
      (x / size % capacity ≢ y / size % capacity)
      ⊎ ((x % size + k ≤ y % size) ⊎ (y % size + l ≤ x % size))
  pieces_apart = elim (ℕ_discrete (x / size % capacity) (y / size % capacity)) [
    | no differ ↦ inl differ
    | yes same ↦ elim (dec_lt (y / size) (x / size + capacity)) [
      | yes near ↦ inr (
          inl (
            same_block (
              window-mod capacity (x / size) (y / size) (x / size) hc block_le near (omega arith)
                (omega arith) (sym same))))
      | no far ↦ inr (inr (next_turn (omega (arith, block_bound))))
    ]
  ]

-- The calls of `insert_tensors_at` for the pieces of claims: at the wrapped counter of each piece,
-- with as many rows as it has slots.
abbrev pub Follows : List Piece → List Insert → Type 0
Follows [] [] = Unit {0}
Follows (p ∷ ps) (w ∷ ws) =
    (w.idx ≡ p.first % usize_mod) × (w.end - w.start ≡ p.slots) × Follows ps ws
Follows _ _ = ⊥

module _ (capacity size : ℕ) (ring : IsRing capacity size) where
  open (IsRing-Shape capacity size ring) use {batch_pos, capacity_pos}

  piece-Apart :
      (p q : Piece) (w v : Insert)
      → p.first % size + p.slots ≤ size
      → p.first + p.slots ≤ q.first
      → 0 < q.slots
      → q.first + q.slots ≤ p.first + capacity * size
      → w.idx ≡ p.first % usize_mod
      → w.end - w.start ≡ p.slots
      → v.idx ≡ q.first % usize_mod
      → v.end - v.start ≡ q.slots
      → Apart (masks_of capacity size) w v
  piece-Apart p q w v inside after not_empty within wi wn vi vn =
      elim (pieces_apart size capacity p.first p.slots q.first q.slots batch_pos capacity_pos inside
        after not_empty within) [
          | inl differ ↦ inl (λ e. differ (sym (batch_of p w wi) ∙ e ∙ batch_of q v vi))
          | inr (inl before) ↦ inr (inl (omega (arith, slot_of p w wi, slot_of q v vi, wn, before)))
          | inr (inr later) ↦ inr (inr (omega (arith, slot_of p w wi, slot_of q v vi, vn, later)))
        ]
    where
      batch_of :
          (p : Piece) (w : Insert)
          → w.idx ≡ p.first % usize_mod
          → batch (masks_of capacity size) w ≡ p.first / size % capacity
      batch_of p w e =
          ap (λ i. as_batch_id (masks_of capacity size) i) e
          ∙ as_batch_id-wrapped capacity size ring p.first

      slot_of :
          (p : Piece) (w : Insert)
          → w.idx ≡ p.first % usize_mod
          → first_slot (masks_of capacity size) w ≡ p.first % size
      slot_of p w e =
          ap (λ i. as_batch_slot_id (masks_of capacity size) i) e
          ∙ as_batch_slot_id-wrapped capacity size ring p.first

  chain-ApartFrom :
      (p : Piece) (w : Insert) (first : ℕ) (qs : List Piece) (vs : List Insert)
      → p.first % size + p.slots ≤ size
      → w.idx ≡ p.first % usize_mod
      → w.end - w.start ≡ p.slots
      → p.first + p.slots ≤ first
      → IsChain size first qs
      → first + total qs ≤ p.first + capacity * size
      → Follows qs vs
      → ApartFrom (masks_of capacity size) w vs
  chain-ApartFrom p w first [] [] inside wi wn after chain within follows = tt
  chain-ApartFrom p w first [] (v ∷ vs) inside wi wn after chain within follows = elim follows [ ]
  chain-ApartFrom p w first (q ∷ qs) [] inside wi wn after chain within follows = elim follows [ ]
  chain-ApartFrom p w first (q ∷ qs) (v ∷ vs) inside wi wn after
        (at_first, some_slots, in_batch, chain) within (vi, vn, follows) =
      (
        piece-Apart p q w v inside (omega arith) some_slots (omega arith) wi wn vi vn,
        chain-ApartFrom p w (first + q.slots) qs vs inside wi wn (omega arith) chain (omega arith)
            follows,
      )

  -- On a ring of accepted sizes, the calls for pieces that follow one another and have no more slots
  -- than the ring, be they of one claim or of many, are on slots of their own.
  pub chain-AllApart :
      (first : ℕ) (ps : List Piece) (ws : List Insert)
      → IsChain size first ps
      → total ps ≤ capacity * size
      → Follows ps ws
      → AllApart (masks_of capacity size) ws
  chain-AllApart first [] [] chain within follows = tt
  chain-AllApart first [] (w ∷ ws) chain within follows = elim follows [ ]
  chain-AllApart first (p ∷ ps) [] chain within follows = elim follows [ ]
  chain-AllApart first (p ∷ ps) (w ∷ ws) (at_first, some_slots, in_batch, chain) within
        (wi, wn, follows) =
      (
        chain-ApartFrom p w (first + p.slots) ps ws in_batch wi wn (omega arith) chain (omega arith)
            follows,
        chain-AllApart (first + p.slots) ps ws chain (omega arith) follows,
      )
