-- ===== src/SuperTensor/Shared/Stay.antt =====
-- After a sequence of `insert_tensors_at` of src/tensor/supertensor.rs on slots of their own, each
-- request's rows are where they were put.
use toutates.Base.{
  ℕ, ◌≤◌, ◌≡◌, ◌≢◌, ◌⊎◌, inl, inr, refl, sym, ap, ◌∙◌, arith, List, [], ◌∷◌, get_elem?,
  get_elem?-set_self, get_elem?-set_ne, get_elem?-bound, Option, some, ok, ok-injective, ℕ_discrete,
}
use mathlib.Core.Path.{subst}
use toutates.Tensor.Bytes.{Dims}
use toutates.Tensor.Copy.{BatchableTensor}
use toutates.SuperTensor.Index.{Masks}
use toutates.SuperTensor.Buffer.{SuperTensorBuffer, ◌>>=◌, pure}
use toutates.SuperTensor.Infer.{WriteReservation, insert_tensors_at}
use toutates.SuperTensor.Infer.Keeps.{insert_tensors_at-frame}
use toutates.SuperTensor.Shared.Quiet.{>>=-ok}
use toutates.SuperTensor.Shared.Insert.{insert_tensors_at-ok}
use toutates.SuperTensor.Shared.Inputs.{
  input_slots, IsRequest, SameKinds, SameKinds-refl, copy_inputs-slots, IsRequest-kinds,
}
use toutates.SuperTensor.Shared.Writes.{
  Insert, batch, first_slot, end_slot, Apart, ApartFrom, AllApart, run_inserts, IsSound, AllSound,
  Holds, AllHold, Changed,
}

only :
    {o : Option (List BatchableTensor)} {x y : List BatchableTensor}
    → o ≡ some x
    → o ≡ some y
    → x ≡ y
only ex ey = ground arith

module _ (num_elements : Dims → ℕ) where
  module _ (b c : SuperTensorBuffer) (v : Insert) (r : WriteReservation)
      (s : IsSound num_elements b.masks b v)
      (e : insert_tensors_at num_elements v.idx v.start v.end v.inputs v.now b ≡ (c, ok r)) where
    insert-own : Changed num_elements b.masks b c v × Holds num_elements b.masks c v r
    insert-own =
        let (ts, us, found, copied, made, cells, cell, at_start, at_end) =
          insert_tensors_at-ok num_elements v.idx v.start v.end v.inputs v.now b c r e in
        let same_ts : s.tensors ≡ ts = only s.found found in
        let (srcs, sent, held, kinds, others) =
          copy_inputs-slots num_elements s.rows (first_slot b.masks v) v.start v.end v.inputs ts us
            s.some_rows s.small
            (subst (λ l. IsRequest num_elements s.rows v.inputs l) same_ts s.request) copied in
        let now_there : get_elem? c.input_tensors (batch b.masks v) ≡ some us =
          ap (λ l. get_elem? l (batch b.masks v)) made
          ∙ get_elem?-set_self b.input_tensors (batch b.masks v) us
              (get_elem?-bound b.input_tensors (batch b.masks v) ts found) in
        (
          record {
            same_masks =
                ap (λ p. p.0.masks) (sym e)
                ∙ ap (λ f. f.masks)
                    (insert_tensors_at-frame num_elements v.idx v.start v.end v.inputs v.now b);
            same_cells = cells;
            buffers = λ id xs there. elim (ℕ_discrete (batch b.masks v) id) [
              | no elsewhere ↦ (
                xs,
                ap (λ l. get_elem? l id) made
                    ∙ get_elem?-set_ne b.input_tensors (batch b.masks v) id us elsewhere
                    ∙ there,
                SameKinds-refl num_elements xs,
                λ lo hi apart. refl,
              )
              | yes here ↦
                  (let same : ts ≡ xs =
                      only (ap (λ k. get_elem? b.input_tensors k) (sym here) ∙ found) there in
                    (
                      us,
                      ap (λ k. get_elem? c.input_tensors k) (sym here) ∙ now_there,
                      subst (λ l. SameKinds num_elements l us) same kinds,
                      λ lo hi apart.
                          others lo hi (in_batch here apart)
                          ∙ ap (λ l. input_slots num_elements l lo hi) same,
                    ))
            ];
          },
          record {
            tensors = us;
            rows = srcs;
            found = now_there;
            sent = sent;
            held = held;
            cell = cells (batch b.masks v) ∙ cell;
            at_start = at_start;
            at_end = at_end;
          },
        )
      where
        in_batch :
            {id lo hi : ℕ}
            → batch b.masks v ≡ id
            → (id ≢ batch b.masks v) ⊎ ((hi ≤ first_slot b.masks v) ⊎ (end_slot b.masks v ≤ lo))
            → (hi ≤ first_slot b.masks v) ⊎ (end_slot b.masks v ≤ lo)
        in_batch here (inl other) = absurd (other (sym here))
        in_batch here (inr apart) = apart

  module _ (m : Masks) (b c : SuperTensorBuffer) (v w : Insert)
      (ch : Changed num_elements m b c v) where
    -- Another call's rows stay.
    Holds-Changed :
        (r : WriteReservation)
        → Apart m w v
        → Holds num_elements m b w r
        → Holds num_elements m c w r
    Holds-Changed r apart h =
        let (us, there, kinds, others) = ch.buffers (batch m w) h.tensors h.found in
        record {
          tensors = us;
          rows = h.rows;
          found = there;
          sent = h.sent;
          held = others (first_slot m w) (end_slot m w) apart ∙ h.held;
          cell = ch.same_cells (batch m w) ∙ h.cell;
          at_start = h.at_start;
          at_end = h.at_end;
        }

    IsSound-Changed : IsSound num_elements m b w → IsSound num_elements m c w
    IsSound-Changed s =
        let (us, there, kinds, others) = ch.buffers (batch m w) s.tensors s.found in
        record {
          rows = s.rows;
          some_rows = s.some_rows;
          small = s.small;
          tensors = us;
          found = there;
          request = IsRequest-kinds num_elements s.rows w.inputs s.tensors us s.request kinds;
        }

  AllSound-Changed :
      (m : Masks) (b c : SuperTensorBuffer) (v : Insert)
      → Changed num_elements m b c v
      → (ws : List Insert) → AllSound num_elements m b ws
      → AllSound num_elements m c ws
  AllSound-Changed m b c v ch [] s = tt
  AllSound-Changed m b c v ch (w ∷ ws) (s, ss) =
      (IsSound-Changed m b c v w ch s, AllSound-Changed m b c v ch ws ss)

  -- A call on a buffer with the masks `m`.
  pub insert-Changed :
      (m : Masks) (b c : SuperTensorBuffer) (v : Insert) (r : WriteReservation)
      → b.masks ≡ m
      → IsSound num_elements m b v
      → insert_tensors_at num_elements v.idx v.start v.end v.inputs v.now b ≡ (c, ok r)
      → Changed num_elements m b c v × Holds num_elements m c v r
  insert-Changed m b c v r em s e =
      subst
        (λ k.
          IsSound num_elements k b v → Changed num_elements k b c v × Holds num_elements k c v r)
        em (λ s'. insert-own b c v r s' e) s

  -- The first call of a sequence, and the others.
  run_inserts-cons :
      (w : Insert) (ws : List Insert) (b c : SuperTensorBuffer) (rs : List WriteReservation)
      → run_inserts num_elements (w ∷ ws) b ≡ (c, ok rs)
      → (b1 : SuperTensorBuffer) × (r : WriteReservation) × (rest : List WriteReservation)
        × (insert_tensors_at num_elements w.idx w.start w.end w.inputs w.now b ≡ (b1, ok r))
        × (run_inserts num_elements ws b1 ≡ (c, ok rest))
        × (rs ≡ r ∷ rest)
  unfolding run_inserts
  run_inserts-cons w ws b c rs e =
      let (b1, r, first, later) =
        >>=-ok (insert_tensors_at num_elements w.idx w.start w.end w.inputs w.now)
          (λ r. run_inserts num_elements ws >>= (λ rs. pure (r ∷ rs))) b c rs e in
      let (b2, rest, others, last) =
        >>=-ok (run_inserts num_elements ws) (λ rs. pure (r ∷ rs)) b1 c rs later in
      (
        b1,
        r,
        rest,
        first,
        others ∙ ap (λ d. (d, ok rest)) (ap (λ p. p.0) last),
        sym (ok-injective (r ∷ rest) rs (ap (λ p. p.1) last)),
      )

  -- Rows that are there stay while calls apart from theirs run.
  run_inserts-keeps :
      (m : Masks) (w : Insert) (r : WriteReservation) (vs : List Insert) (b c : SuperTensorBuffer)
      (rs : List WriteReservation)
      → b.masks ≡ m
      → ApartFrom m w vs
      → AllSound num_elements m b vs
      → Holds num_elements m b w r
      → run_inserts num_elements vs b ≡ (c, ok rs)
      → Holds num_elements m c w r
  unfolding run_inserts
  run_inserts-keeps m w r [] b c rs em apart sound h e =
      subst (λ d. Holds num_elements m d w r) (ap (λ p. p.0) e) h
  run_inserts-keeps m w r (v ∷ vs) b c rs em (here, apart) (s, sound) h e =
      let (b1, r1, rest, first, later, _) = run_inserts-cons v vs b c rs e in
      let (ch, _) = insert-Changed m b b1 v r1 em s first in
      run_inserts-keeps m w r vs b1 c rest (ch.same_masks ∙ em) apart
        (AllSound-Changed m b b1 v ch vs sound) (Holds-Changed m b b1 v w ch r here h) later

  -- Calls of `insert_tensors_at` one after the other, on slots of their own, whose inputs are
  -- requests for the buffers of their batches: where all succeed, at the end the slots of each hold
  -- the rows that it was given, and its reservation is for them.
  pub run_inserts-AllHold :
      (m : Masks) (ws : List Insert) (b c : SuperTensorBuffer) (rs : List WriteReservation)
      → b.masks ≡ m
      → AllApart m ws
      → AllSound num_elements m b ws
      → run_inserts num_elements ws b ≡ (c, ok rs)
      → AllHold num_elements m c ws rs
  unfolding run_inserts
  run_inserts-AllHold m [] b c [] em apart sound e = tt
  run_inserts-AllHold m [] b c (r ∷ rs) em apart sound e = absurd (ground (arith, e))
  run_inserts-AllHold m (w ∷ ws) b c rs em (others, apart) (s, sound) e =
      let (b1, r, rest, first, later, made) = run_inserts-cons w ws b c rs e in
      let (ch, h) = insert-Changed m b b1 w r em s first in
      let masks = ch.same_masks ∙ em in
      let sound' = AllSound-Changed m b b1 w ch ws sound in
      rw made (
        run_inserts-keeps m w r ws b1 c rest masks others sound' h later,
        run_inserts-AllHold m ws b1 c rest masks apart sound' later,
      )
