-- ===== src/SuperTensor/Shared/Inputs.antt =====
-- The input buffers of one batch after `insert_tensors_at` of src/tensor/supertensor.rs has copied
-- the rows of a request into its slots.
use native.Mathlib.Nat.{mul-div_right, mul-sub}
use toutates.Base.{
  ℕ, ◌+◌, ◌-◌, ◌*◌, ◌/◌, ◌≤◌, ◌<◌, ◌≡◌, ◌⊎◌, refl, sym, ap, ap₂, ◌∙◌, arith, List, [], ◌∷◌, length,
  length-take, length-drop, drop, Result, ok, ◌>>=◌, bind-ok, Result-cases, inl, inr, usize_mod,
}
use toutates.Base.Int.{pos, as_usize}
use toutates.Tensor.Errors.{InferError}
use toutates.Tensor.Bytes.{Bytes, Dims, TensorBytes, slice_range, slice_rows, slice_dim0}
use toutates.Tensor.Copy.{BatchableTensor, copy_at_from_bytes}
use toutates.Tensor.Copy.Slots.{slice_range-ok}
use toutates.Tensor.Copy.Isolated.{
  element_size, per_slot, slots, FillsSlots, slots-own, slots-apart, same_kind,
}
use toutates.SuperTensor.Infer.{copy_inputs}

-- The rows `[start, end)` of each input.
unfoldable pub input_rows : List TensorBytes → ℕ → ℕ → Result InferError (List Bytes)
input_rows [] start end = ok []
input_rows (i ∷ is) start end = do
  rows ← slice_dim0 i.content i.shape start end
  rest ← input_rows is start end
  ok (rows ∷ rest)

range_of :
    (content : Bytes) (n start end : ℕ) (src : Bytes)
    → slice_rows content n start end ≡ ok src
    → slice_range content (start * (length content / n)) (end * (length content / n)) ≡ ok src
unfolding slice_rows
range_of content n start end src e = ground arith

length-slice_dim0 :
    (content : Bytes) (shape ds : Dims) (n w start end : ℕ) (src : Bytes)
    → 0 < n
    → n < usize_mod
    → shape ≡ pos n ∷ ds
    → length content ≡ n * w
    → slice_dim0 content shape start end ≡ ok src
    → length src ≡ (end - start) * w
unfolding slice_dim0 slice_rows
length-slice_dim0 content shape ds n w start end src some_rows small shaped whole sliced =
    let size : as_usize (pos n) ≡ n = omega arith in
    let rows : slice_rows content n start end ≡ ok src =
      ap (λ k. slice_rows content k start end) (sym size)
      ∙ ap (λ d. slice_dim0 content d start end) (sym shaped)
      ∙ sliced in
    let per : length content / n ≡ w = ap (λ t. t / n) whole ∙ mul-div_right w some_rows in
    let range : slice_range content (start * w) (end * w) ≡ ok src =
      ap (λ k. slice_range content (start * k) (end * k)) (sym per)
      ∙ range_of content n start end src rows in
    let (ordered, inside, e) = slice_range-ok content (start * w) (end * w) src range in
    ap length (sym e)
    ∙ omega (
      arith,
      length-take {0} (end * w - start * w) (drop (start * w) content),
      length-drop {0} (start * w) content,
      mul-sub w end start,
    )

module _ (num_elements : Dims → ℕ) where
  -- The slots `[lo, hi)` of each input buffer.
  unfoldable pub input_slots : List BatchableTensor → ℕ → ℕ → Result InferError (List Bytes)
  input_slots [] lo hi = ok []
  input_slots (t ∷ ts) lo hi = do
    held ← slots num_elements t lo hi
    rest ← input_slots ts lo hi
    ok (held ∷ rest)

  -- An input of `n` rows, at least one, for each buffer, each row as many bytes as a slot of it.
  abbrev pub IsRequest : ℕ → List TensorBytes → List BatchableTensor → Type 0
  IsRequest n [] [] = Unit {0}
  IsRequest n (i ∷ is) (t ∷ ts) =
      ((ds : Dims) × (i.shape ≡ pos n ∷ ds))
      × (length i.content ≡ n * (per_slot num_elements t * element_size t.data_type))
      × (t.inner_tensor.data_type ≡ t.data_type)
      × IsRequest n is ts
  IsRequest n _ _ = ⊥

  -- Each buffer has the type, the shapes and the length of the other.
  abbrev pub SameKinds : List BatchableTensor → List BatchableTensor → Type 0
  SameKinds [] [] = Unit {0}
  SameKinds (t ∷ ts) (u ∷ us) =
      (u.data_type ≡ t.data_type)
      × (u.single_tensor_shape ≡ t.single_tensor_shape)
      × (u.inner_tensor.data_type ≡ t.inner_tensor.data_type)
      × (length u.inner_tensor.bytes ≡ length t.inner_tensor.bytes)
      × SameKinds ts us
  SameKinds _ _ = ⊥

  -- The copies that make the buffers `us` of the buffers `ts`.
  abbrev Written :
      ℕ → ℕ → ℕ → List TensorBytes → List BatchableTensor → List BatchableTensor → Type 0
  Written slot start end is [] [] = Unit {0}
  Written slot start end (i ∷ is) (t ∷ ts) (u ∷ us) =
      ((src : Bytes) × (slice_dim0 i.content i.shape start end ≡ ok src)
        × (copy_at_from_bytes num_elements t slot src ≡ ok u))
      × Written slot start end is ts us
  Written slot start end _ _ _ = ⊥

  copy_inputs-Written :
      (slot start end : ℕ) (is : List TensorBytes) (ts us : List BatchableTensor)
      → copy_inputs num_elements slot start end is ts ≡ (us, ok tt)
      → Written slot start end is ts us
  unfolding copy_inputs
  copy_inputs-Written slot start end is [] us e = let e' : us ≡ [] = ground arith in rw e' tt
  copy_inputs-Written slot start end [] (t ∷ ts) us e = absurd (ground arith)
  copy_inputs-Written slot start end (i ∷ is) (t ∷ ts) us e =
      elim (Result-cases (
        slice_dim0 i.content i.shape start end
        >>= (λ slice. copy_at_from_bytes num_elements t slot slice))) [
          | inl (u, copied) ↦
              (let (src, sliced, wrote) =
                  bind-ok (slice_dim0 i.content i.shape start end)
                    (λ slice. copy_at_from_bytes num_elements t slot slice) u copied in
                let rest = copy_inputs num_elements slot start end is ts in
                let made : us ≡ u ∷ rest.0 = ground (arith, copied) in
                let all : rest ≡ (rest.0, ok tt) = ground (arith, copied) in
                rw made ((src, sliced, wrote), copy_inputs-Written slot start end is ts rest.0 all))
          | inr (inl (x, refused)) ↦ absurd (ground (arith, refused))
          | inr (inr crashed) ↦ absurd (ground (arith, crashed))
        ]

  input_rows-slots :
      (n slot start end : ℕ) (is : List TensorBytes) (ts us : List BatchableTensor)
      → 0 < n
      → n < usize_mod
      → IsRequest n is ts
      → Written slot start end is ts us
      → (srcs : List Bytes) × (input_rows is start end ≡ ok srcs)
        × (input_slots us slot (slot + (end - start)) ≡ ok srcs)
        × SameKinds ts us
        × ((lo hi : ℕ)
            → (hi ≤ slot) ⊎ (slot + (end - start) ≤ lo)
            → input_slots us lo hi ≡ input_slots ts lo hi)
  unfolding input_rows input_slots
  input_rows-slots n slot start end [] [] [] some_rows small sound wrote =
      ([], refl, refl, tt, λ lo hi apart. refl)
  input_rows-slots n slot start end [] [] (u ∷ us) some_rows small sound wrote = elim wrote [ ]
  input_rows-slots n slot start end [] (t ∷ ts) us some_rows small sound wrote = elim sound [ ]
  input_rows-slots n slot start end (i ∷ is) [] us some_rows small sound wrote = elim sound [ ]
  input_rows-slots n slot start end (i ∷ is) (t ∷ ts) [] some_rows small sound wrote =
      elim wrote [ ]
  input_rows-slots n slot start end (i ∷ is) (t ∷ ts) (u ∷ us) some_rows small
        ((ds, shaped), whole, kind, sound) ((src, sliced, copied), wrote) =
      let (srcs, rows, held, kinds, others) =
        input_rows-slots n slot start end is ts us some_rows small sound wrote in
      let fills : FillsSlots num_elements t (end - start) src = record {
        same_type = kind;
        whole =
            length-slice_dim0 i.content i.shape ds n
              (per_slot num_elements t * element_size t.data_type) start end src some_rows small
              shaped whole sliced;
      } in
      let own = slots-own num_elements t u slot (end - start) src fills copied in
      let (k1, k2, k3, k4) = same_kind num_elements t u slot (end - start) src fills copied in
      (
        src ∷ srcs,
        rw (sliced, rows) refl,
        rw (own, held) refl,
        (k1, k2, k3, k4, kinds),
        λ lo hi apart.
            rw
              (
                slots-apart num_elements t u slot (end - start) src fills copied lo hi apart,
                others lo hi apart,
              )
              refl,
      )

  -- A copy of the rows `[start, end)` of a request that succeeds: the slots written then hold those
  -- rows, all other slots hold what they held, and the buffers keep their types and shapes.
  pub copy_inputs-slots :
      (n slot start end : ℕ) (is : List TensorBytes) (ts us : List BatchableTensor)
      → 0 < n
      → n < usize_mod
      → IsRequest n is ts
      → copy_inputs num_elements slot start end is ts ≡ (us, ok tt)
      → (srcs : List Bytes) × (input_rows is start end ≡ ok srcs)
        × (input_slots us slot (slot + (end - start)) ≡ ok srcs)
        × SameKinds ts us
        × ((lo hi : ℕ)
            → (hi ≤ slot) ⊎ (slot + (end - start) ≤ lo)
            → input_slots us lo hi ≡ input_slots ts lo hi)
  copy_inputs-slots n slot start end is ts us some_rows small sound copied =
      input_rows-slots n slot start end is ts us some_rows small sound
        (copy_inputs-Written slot start end is ts us copied)

  pub SameKinds-refl : (ts : List BatchableTensor) → SameKinds ts ts
  SameKinds-refl [] = tt
  SameKinds-refl (t ∷ ts) = (refl, refl, refl, refl, SameKinds-refl ts)

  -- A request for buffers is one for buffers of the same kinds.
  pub IsRequest-kinds :
      (n : ℕ) (is : List TensorBytes) (ts us : List BatchableTensor)
      → IsRequest n is ts
      → SameKinds ts us
      → IsRequest n is us
  IsRequest-kinds n [] [] [] sound kinds = tt
  IsRequest-kinds n [] [] (u ∷ us) sound kinds = elim kinds [ ]
  IsRequest-kinds n [] (t ∷ ts) us sound kinds = elim sound [ ]
  IsRequest-kinds n (i ∷ is) [] us sound kinds = elim sound [ ]
  IsRequest-kinds n (i ∷ is) (t ∷ ts) [] sound kinds = elim kinds [ ]
  IsRequest-kinds n (i ∷ is) (t ∷ ts) (u ∷ us) (shaped, whole, kind, sound)
        (k1, k2, k3, k4, kinds) =
      (
        shaped,
        whole ∙ ap₂ (λ a b. n * (num_elements a * element_size b)) (sym k2) (sym k1),
        k3 ∙ kind ∙ sym k1,
        IsRequest-kinds n is ts us sound kinds,
      )

  pub SameKinds-trans :
      (ts us vs : List BatchableTensor) → SameKinds ts us → SameKinds us vs → SameKinds ts vs
  SameKinds-trans [] [] [] p q = tt
  SameKinds-trans [] [] (v ∷ vs) p q = elim q [ ]
  SameKinds-trans [] (u ∷ us) vs p q = elim p [ ]
  SameKinds-trans (t ∷ ts) [] vs p q = elim p [ ]
  SameKinds-trans (t ∷ ts) (u ∷ us) [] p q = elim q [ ]
  SameKinds-trans (t ∷ ts) (u ∷ us) (v ∷ vs) (p1, p2, p3, p4, p) (q1, q2, q3, q4, q) =
      (q1 ∙ p1, q2 ∙ p2, q3 ∙ p3, q4 ∙ p4, SameKinds-trans ts us vs p q)
