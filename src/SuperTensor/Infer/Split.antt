-- ===== src/SuperTensor/Infer/Split.antt =====
-- The loop of `infer` writes the pieces of its plan, one after the other.
use native.Mathlib.Nat.{mod-lt, mod-le}
use toutates.Base.{
  ℕ, zero, suc, ◌+◌, ◌-◌, ◌%◌, ◌≤◌, ◌<◌, min, ◌==◌, if◌then◌else◌, true, false, ◌≡◌, sym, ap, ◌∙◌,
  arith, List, [], ◌∷◌, panic, usize_mod, wrapping_sub, Bool-cases, inl, inr,
}
use toutates.Tensor.Bytes.{Dims, TensorBytes}
use toutates.Tracing.{ClientTrace, record_inference_in_queue}
use toutates.SuperTensor.Index.{masks_of, as_absolute_batch_higher_bound}
use toutates.SuperTensor.Index.Position.{
  IsRing, IsRing-Shape, as_absolute_batch_higher_bound-wrapped,
}
use toutates.SuperTensor.Buffer.{SuperTensorBuffer, M, ◌>>=◌, pure, lift}
use toutates.SuperTensor.Frame.{frame, resume_ext}
use toutates.SuperTensor.Buffer.{resume}
use toutates.SuperTensor.Infer.{WriteReservation, insert_tensors_at, write_batches}
use toutates.SuperTensor.Infer.Pieces.{Piece, plan, first_slots, plan_last, plan_more, plan-cons}
use toutates.SuperTensor.Infer.Keeps.{insert_tensors_at-frame}

module _ (num_elements : Dims → ℕ) (inputs : List TensorBytes) (now : ℕ) where
  -- The writes of a plan: each piece takes its rows of the request, in order.
  unfoldable pub insert_all : List Piece → ℕ → ClientTrace → M (List WriteReservation × ClientTrace)
  insert_all [] start trace = lift panic
  insert_all (p ∷ []) start trace = do
    r ← insert_tensors_at num_elements (p.first % usize_mod) start (start + p.slots) inputs now
    pure (r ∷ [], record_inference_in_queue now trace)
  insert_all (p ∷ q ∷ ps) start trace = do
    r ← insert_tensors_at num_elements (p.first % usize_mod) start (start + p.slots) inputs now
    insert_all (q ∷ ps) (start + p.slots) (record_inference_in_queue now trace)
        >>= (λ (more, last_trace). pure (r ∷ more, last_trace))

  -- A round of the loop, with the end of the batch and its room as given.
  abbrev round : ℕ → ℕ → ℕ → ℕ → ℕ → ℕ → ClientTrace → M (List WriteReservation × ClientTrace)
  round fuel higher room idx start n trace = do
    r ← insert_tensors_at num_elements idx start (start + min n room) inputs now
    if n - min n room == 0
        then pure (r ∷ [], record_inference_in_queue now trace)
        else (write_batches num_elements fuel higher (start + min n room) (n - min n room) inputs
              (record_inference_in_queue now trace) now
            >>= (λ (more, last_trace). pure (r ∷ more, last_trace)))

  write_batches-round :
      (fuel higher room idx start n : ℕ) (trace : ClientTrace) (b : SuperTensorBuffer)
      → as_absolute_batch_higher_bound b.masks idx ≡ higher
      → wrapping_sub higher idx ≡ room
      → write_batches num_elements (suc fuel) idx start n inputs trace now b
        ≡ round fuel higher room idx start n trace b
  unfolding write_batches
  write_batches-round fuel higher room idx start n trace b eh er =
      ap (λ h. round fuel h (wrapping_sub h idx) idx start n trace b) eh
      ∙ ap (λ w. round fuel higher w idx start n trace b) er

  insert_all-cons :
      (p q : Piece) (ps qs : List Piece) (start : ℕ) (trace : ClientTrace) (b : SuperTensorBuffer)
      → ps ≡ q ∷ qs
      → insert_all (p ∷ ps) start trace b
        ≡ (do
          r ←
              insert_tensors_at num_elements
                (p.first % usize_mod)
                start
                (start + p.slots)
                inputs
                now
          insert_all ps (start + p.slots) (record_inference_in_queue now trace)
              >>= (λ (more, last_trace). pure (r ∷ more, last_trace)))
            b
  unfolding insert_all
  insert_all-cons p q ps qs start trace b e = rw e

  -- What follows the first write of a round that goes on.
  abbrev then_rest :
      M (List WriteReservation × ClientTrace)
      → WriteReservation
      → M (List WriteReservation × ClientTrace)
  then_rest m r = m >>= (λ (more, last_trace). pure (r ∷ more, last_trace))

  round_last :
      (fuel higher room first start n : ℕ) (trace : ClientTrace) (b : SuperTensorBuffer)
      → (n - min n room == 0) ≡ true
      → round fuel higher room (first % usize_mod) start n trace b
        ≡ insert_all (record { first = first; slots = min n room } ∷ []) start trace b
  unfolding insert_all
  round_last fuel higher room first start n trace b e = rw e

  round_more :
      (fuel higher room idx start n : ℕ) (trace : ClientTrace) (b : SuperTensorBuffer)
      (m : M (List WriteReservation × ClientTrace))
      → (n - min n room == 0) ≡ false
      → ((c : SuperTensorBuffer)
          → frame c ≡ frame b
          → write_batches num_elements fuel higher
              (start + min n room)
              (n - min n room)
              inputs
              (record_inference_in_queue now trace)
              now
              c
            ≡ m c)
      → round fuel higher room idx start n trace b
        ≡ (insert_tensors_at num_elements idx start (start + min n room) inputs now >>= then_rest m)
            b
  round_more fuel higher room idx start n trace b m e same =
      let kept : frame (insert b).0 ≡ frame b =
        insert_tensors_at-frame num_elements idx start (start + min n room) inputs now b in
      rw e (
        resume_ext (then_rest go_on) (then_rest m) (insert b).0 (insert b).1 (λ a.
          ap (λ p. resume (λ (more, last_trace). pure (a ∷ more, last_trace)) p.0 p.1)
            (same (insert b).0 kept)))
    where
      insert : M WriteReservation
      insert = insert_tensors_at num_elements idx start (start + min n room) inputs now

      go_on : M (List WriteReservation × ClientTrace)
      go_on =
          write_batches num_elements fuel higher (start + min n room) (n - min n room) inputs
            (record_inference_in_queue now trace) now

module _ (num_elements : Dims → ℕ) (inputs : List TensorBytes) (now : ℕ) (capacity batch_size : ℕ)
    (ring : IsRing capacity batch_size) where
  open (IsRing-Shape capacity batch_size ring) use {batch_pos, capacity_pos}

  batch_small : batch_size < usize_mod
  batch_small = grind (arith, ring.fits, capacity_pos)

  room_of_batch :
      (first : ℕ)
      → wrapping_sub ((first - first % batch_size + batch_size) % usize_mod) (first % usize_mod)
        ≡ batch_size - first % batch_size
  room_of_batch first = omega (arith, batch_small, mod-lt first batch_pos, mod-le first batch_size)

  -- The counter that the loop goes on from, where it goes on.
  next_first :
      (first n : ℕ)
      → (n - first_slots batch_size first n == 0) ≡ false
      → (first - first % batch_size + batch_size) % usize_mod
        ≡ (first + first_slots batch_size first n) % usize_mod
  next_first first n more =
      ap (λ t. t % usize_mod) (ground (arith, mod-lt first batch_pos, mod-le first batch_size))

  -- On a ring whose sizes are accepted, and a claim of `n` slots (at least one) from the counter
  -- `first` on, which may have wrapped, the loop of `infer` with fuel for `n` rounds is the writes
  -- of the plan: same buffer, same reservations, same trace, same error.
  pub write_batches-plan :
      (fuel first start n : ℕ) (trace : ClientTrace) (b : SuperTensorBuffer)
      → b.masks ≡ masks_of capacity batch_size
      → 0 < n
      → n ≤ fuel
      → write_batches num_elements fuel (first % usize_mod) start n inputs trace now b
        ≡ insert_all num_elements inputs now (plan batch_size fuel first n) start trace b
  write_batches-plan zero first start n trace b em pos enough = absurd (omega arith)
  write_batches-plan (suc fuel) first start n trace b em pos enough =
      write_batches-round num_elements inputs now fuel _ _ (first % usize_mod) start n trace b
        (ap (λ m. as_absolute_batch_higher_bound m (first % usize_mod)) em
          ∙ as_absolute_batch_higher_bound-wrapped capacity batch_size ring first)
        (room_of_batch first)
      ∙ elim (Bool-cases (n - first_slots batch_size first n == 0)) [
        | inl last ↦
            round_last num_elements inputs now fuel _ _ first start n trace b last
            ∙ ap (λ ps. insert_all num_elements inputs now ps start trace b)
                (sym (plan_last batch_size fuel first n last))
        | inr more ↦
            (let more_slots : 0 < n - first_slots batch_size first n = ground arith in
              let fewer : n - first_slots batch_size first n ≤ fuel =
                ground (arith, mod-lt first batch_pos) in
              let (q, qs, some_piece) =
                plan-cons batch_size fuel (first + first_slots batch_size first n)
                  (n - first_slots batch_size first n) (omega arith) in
              round_more num_elements inputs now fuel _ _ (first % usize_mod) start n trace b
                (insert_all num_elements inputs now
                  (plan batch_size fuel (first + first_slots batch_size first n)
                    (n - first_slots batch_size first n))
                  (start + first_slots batch_size first n) (record_inference_in_queue now trace))
                more
                (λ c kept.
                  ap
                    (λ h.
                      write_batches num_elements fuel h (start + first_slots batch_size first n)
                        (n - first_slots batch_size first n) inputs
                        (record_inference_in_queue now trace) now c)
                    (next_first first n more)
                  ∙ write_batches-plan fuel (first + first_slots batch_size first n)
                      (start + first_slots batch_size first n) (n - first_slots batch_size first n)
                      (record_inference_in_queue now trace) c (ap (λ f. f.masks) kept ∙ em)
                      more_slots fewer)
              ∙ sym (
                  ap (λ ps. insert_all num_elements inputs now ps start trace b)
                    (plan_more batch_size fuel first n more)
                  ∙ insert_all-cons num_elements inputs now _ q _ qs start trace b some_piece))
      ]
