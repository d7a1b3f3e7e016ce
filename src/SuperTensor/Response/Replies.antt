-- ===== src/SuperTensor/Response/Replies.antt =====
-- What `InferenceResponse::get_data` of src/tensor/supertensor.rs puts into the vectors of a reply.
use toutates.Base.{
  ℕ, zero, suc, List, [], ◌∷◌, ◌++◌, append_assoc, append-nil, get_elem?, none, some, Result, ok,
  bind-ok, ok-injective, ◌≡◌, refl, inl, inr, sym, ap, ◌∙◌, arith, Option-cases, Result-cases,
}
use toutates.Tensor.Errors.{InferError}
use toutates.Tensor.Bytes.{Bytes}
use toutates.Tensor.Copy.{HostTensor, value_as_byte_slice}
use toutates.Tensor.Copy.Slots.{HoldsElements, value_as_byte_slice-HoldsElements}
use toutates.SuperTensor.Buffer.{Output, values, failed, BatchState}
use toutates.SuperTensor.Infer.{WriteReservation}
use toutates.SuperTensor.Response.{
  empty_outputs, prepare, append_slices, take_result, gather, Gathered, collect, get_data, Metadata,
}

-- What a round reads of the output `j` of a batch; nothing, where there are fewer outputs.
unfoldable pub slice_at : List HostTensor → ℕ → ℕ → ℕ → Result InferError Bytes
slice_at vs j start end = elim (get_elem? vs j) [
  | none ↦ ok []
  | some v ↦ value_as_byte_slice v start end
]

-- `out` are the elements of the output `j` from number `start` up to number `end`, as bytes; there
-- are none where there are fewer outputs.
abbrev pub HoldsAt : List HostTensor → ℕ → ℕ → ℕ → Bytes → Type 0
HoldsAt [] j start end out = out ≡ []
HoldsAt (v ∷ vs) zero start end out = HoldsElements v start end out
HoldsAt (v ∷ vs) (suc j) start end out = HoldsAt vs j start end out

slice_at-HoldsAt :
    (vs : List HostTensor) (j start end : ℕ) (out : Bytes)
    → slice_at vs j start end ≡ ok out
    → HoldsAt vs j start end out
unfolding slice_at
slice_at-HoldsAt [] j start end out e = sym (ok-injective [] out e)
slice_at-HoldsAt (v ∷ vs) zero start end out e = value_as_byte_slice-HoldsElements v start end out e
slice_at-HoldsAt (v ∷ vs) (suc j) start end out e = slice_at-HoldsAt vs j start end out e

-- `out` is what the batches hold for the reservations in their output `j`, one after the other: the
-- elements whose numbers are the slots of the reservation, whatever the elements of a slot.
abbrev pub IsReply : List BatchState → ℕ → List WriteReservation → Bytes → Type 0
IsReply states j [] out = out ≡ []
IsReply states j (r ∷ rs) out =
    (state : BatchState) × (vs : List HostTensor) × (slice : Bytes) × (rest : Bytes) × (get_elem?
        states r.state
      ≡ some state)
    × (state.output ≡ some (values vs))
    × HoldsAt vs j r.start r.end slice
    × IsReply states j rs rest
    × (out ≡ slice ++ rest)

append_slices-elem :
    (start end j : ℕ) (vs : List HostTensor) (ds fs : List Bytes) (out : Bytes)
    → append_slices start end vs ds ≡ ok fs
    → get_elem? fs j ≡ some out
    → (d : Bytes) × (slice : Bytes) × (get_elem? ds j ≡ some d)
      × (slice_at vs j start end ≡ ok slice)
      × (out ≡ d ++ slice)
unfolding append_slices slice_at
append_slices-elem start end j [] ds fs out e at_j =
    (out, [], ap (λ t. get_elem? t j) (ok-injective ds fs e) ∙ at_j, refl, sym (append-nil out))
append_slices-elem start end j (v ∷ vs) [] fs out e at_j =
    let (_, _, last) = bind-ok (value_as_byte_slice v start end) _ fs e in
    absurd (ground (arith, last))
append_slices-elem start end zero (v ∷ vs) (d ∷ ds) fs out e at_j =
    let (slice, es, later) = bind-ok (value_as_byte_slice v start end) _ fs e in
    let (rest, er, last) = bind-ok (append_slices start end vs ds) _ fs later in
    (d, slice, refl, es, ground (arith, last, at_j))
append_slices-elem start end (suc j) (v ∷ vs) (d ∷ ds) fs out e at_j =
    let (slice, es, later) = bind-ok (value_as_byte_slice v start end) _ fs e in
    let (rest, er, last) = bind-ok (append_slices start end vs ds) _ fs later in
    append_slices-elem start end j vs ds rest out er (ground (arith, last, at_j))

-- The vectors before the first batch are empty.
empty_outputs-elem :
    (vs : List HostTensor) (j : ℕ) (d : Bytes) → get_elem? (empty_outputs vs) j ≡ some d → d ≡ []
empty_outputs-elem [] j d e = absurd (ground arith)
empty_outputs-elem (v ∷ vs) zero d e = ground arith
empty_outputs-elem (v ∷ vs) (suc j) d e = empty_outputs-elem vs j d e

-- What a vector already holds, where there are vectors.
abbrev Held : List Bytes → ℕ → Bytes → Type 0
Held [] j d = d ≡ []
Held (x ∷ xs) j d = get_elem? (x ∷ xs) j ≡ some d

prepare-Held :
    (reply : List Bytes) (vs : List HostTensor) (j : ℕ) (d : Bytes)
    → get_elem? (prepare reply vs) j ≡ some d
    → Held reply j d
prepare-Held [] vs j d e = empty_outputs-elem vs j d e
prepare-Held (x ∷ xs) vs j d e = e

-- A round: it extends each vector by the slice of its output.
collect-elem :
    (output : Output) (r : WriteReservation) (reply filled : List Bytes) (g : Gathered)
    (g' : List Metadata × ℕ) (j : ℕ) (out : Bytes)
    → collect output r reply g ≡ ok (filled, g')
    → get_elem? filled j ≡ some out
    → (vs : List HostTensor) × (d : Bytes) × (slice : Bytes) × (output ≡ values vs)
      × Held reply j d
      × (slice_at vs j r.start r.end ≡ ok slice)
      × (out ≡ d ++ slice)
unfolding collect take_result
collect-elem (failed x) r reply filled g g' j out e at_j = absurd (ground arith)
collect-elem (values vs) r reply filled g g' j out e at_j =
    let ((fs, ms), taken, later) = bind-ok (take_result (values vs) r reply) _ (filled, g') e in
    let (fs', appended, made) =
      bind-ok (append_slices r.start r.end vs (prepare reply vs)) _ (fs, ms) taken in
    let (g'', gathered, last) = bind-ok (gather g ms r.state) _ (filled, g') later in
    let same : get_elem? fs' j ≡ some out = ground (arith, made, last, at_j) in
    let (d, slice, there, es, eo) =
      append_slices-elem r.start r.end j vs (prepare reply vs) fs' out appended same in
    (vs, d, slice, refl, prepare-Held reply vs j d there, es, eo)

append_slices-empty :
    (start end : ℕ) (vs : List HostTensor) (ds : List Bytes)
    → append_slices start end vs ds ≡ ok []
    → (vs ≡ []) × (ds ≡ [])
unfolding append_slices
append_slices-empty start end [] ds e = (refl, ok-injective ds [] e)
append_slices-empty start end (v ∷ vs) [] e =
    let (_, _, last) = bind-ok (value_as_byte_slice v start end) _ [] e in
    absurd (ground (arith, last))
append_slices-empty start end (v ∷ vs) (d ∷ ds) e =
    let (slice, es, later) = bind-ok (value_as_byte_slice v start end) _ [] e in
    let (rest, er, last) = bind-ok (append_slices start end vs ds) _ [] later in
    absurd (ground (arith, last))

prepare-empty : (reply : List Bytes) (vs : List HostTensor) → prepare reply vs ≡ [] → reply ≡ []
prepare-empty [] vs e = refl
prepare-empty (x ∷ xs) vs e = e

-- The same of a round that leaves no vectors.
collect-Held :
    (output : Output) (r : WriteReservation) (reply filled : List Bytes) (g : Gathered)
    (g' : List Metadata × ℕ) (j : ℕ) (out : Bytes)
    → collect output r reply g ≡ ok (filled, g')
    → Held filled j out
    → (vs : List HostTensor) × (d : Bytes) × (slice : Bytes) × (output ≡ values vs)
      × Held reply j d
      × (slice_at vs j r.start r.end ≡ ok slice)
      × (out ≡ d ++ slice)
unfolding collect take_result slice_at
collect-Held output r reply (x ∷ xs) g g' j out e held =
    collect-elem output r reply (x ∷ xs) g g' j out e held
collect-Held (failed x) r reply [] g g' j out e held = absurd (ground arith)
collect-Held (values vs) r reply [] g g' j out e held =
    let ((fs, ms), taken, later) = bind-ok (take_result (values vs) r reply) _ ([], g') e in
    let (fs', appended, made) =
      bind-ok (append_slices r.start r.end vs (prepare reply vs)) _ (fs, ms) taken in
    let (g'', gathered, last) = bind-ok (gather g ms r.state) _ ([], g') later in
    let none_made : fs' ≡ [] = ground (arith, made, last) in
    let (no_outputs, no_vectors) =
      append_slices-empty r.start r.end vs (prepare reply vs) (appended ∙ ap ok none_made) in
    (
      vs,
      [],
      [],
      refl,
      rw (prepare-empty reply vs no_vectors) refl,
      ap (λ us. slice_at us j r.start r.end) no_outputs,
      held,
    )

get_data-round :
    (states : List BatchState) (r : WriteReservation) (rs : List WriteReservation)
    (reply raw : List Bytes) (g : Gathered) (g' : List Metadata × ℕ)
    → get_data states (r ∷ rs) reply g ≡ some (ok (raw, g'))
    → (state : BatchState) × (output : Output) × (filled : List Bytes) × (g'' : List Metadata × ℕ)
      × (get_elem? states r.state ≡ some state)
      × (state.output ≡ some output)
      × (collect output r reply g ≡ ok (filled, g''))
      × (get_data states rs filled (some g'') ≡ some (ok (raw, g')))
unfolding get_data
get_data-round states r rs reply raw g g' e = elim (Option-cases (get_elem? states r.state)) [
  | inl missing ↦ absurd (ground arith)
  | inr (state, there) ↦ elim (Option-cases state.output) [
    | inl waiting ↦ absurd (ground (arith, there, waiting))
    | inr (output, answered) ↦ elim (Result-cases (collect output r reply g)) [
      | inl ((filled, g''), collected) ↦ (
        state,
        output,
        filled,
        g'',
        there,
        answered,
        collected,
        ground (arith, there, answered, collected),
      )
      | inr (inl (x, refused)) ↦ absurd (ground (arith, there, answered, refused))
      | inr (inr crashed) ↦ absurd (ground (arith, there, answered, crashed))
    ]
  ]
]

get_data-Held :
    (states : List BatchState) (rs : List WriteReservation) (reply raw : List Bytes) (g : Gathered)
    (g' : List Metadata × ℕ) (j : ℕ) (out : Bytes)
    → get_data states rs reply g ≡ some (ok (raw, g'))
    → Held raw j out
    → (d : Bytes) × (rest : Bytes) × Held reply j d × IsReply states j rs rest × (out ≡ d ++ rest)
unfolding get_data
get_data-Held states [] reply raw none g' j out e at_j = absurd (ground arith)
get_data-Held states [] reply raw (some g) g' j out e at_j =
    let same : raw ≡ reply = ground arith in
    (out, [], (rw same at at_j), refl, sym (append-nil out))
get_data-Held states (r ∷ rs) reply raw g g' j out e at_j =
    let (state, output, filled, g'', there, answered, collected, later) =
      get_data-round states r rs reply raw g g' e in
    let (d, rest, held, replies, whole) =
      get_data-Held states rs filled raw (some g'') g' j out later at_j in
    let (vs, d', slice, eo, held', es, same) =
      collect-Held output r reply filled g g'' j d collected held in
    (
      d',
      slice ++ rest,
      held',
      (
        state,
        vs,
        slice,
        rest,
        there,
        answered ∙ ap some eo,
        slice_at-HoldsAt vs j r.start r.end slice es,
        replies,
        refl,
      ),
      whole ∙ ap (λ t. t ++ rest) same ∙ append_assoc d' slice rest,
    )

-- Where the batches of a request have all run without an error, and their results are collected
-- into empty vectors, each vector of the reply is made of one piece for each of the request's
-- reservations, in order: of that output of its batch, the elements numbered from the reservation's
-- first slot up to its end. With more than one element a slot these are not the slots' elements.
pub get_data-IsReply :
    (states : List BatchState) (rs : List WriteReservation) (raw : List Bytes)
    (metas : List Metadata) (cell : ℕ) (j : ℕ) (out : Bytes)
    → get_data states rs [] none ≡ some (ok (raw, (metas, cell)))
    → get_elem? raw j ≡ some out
    → IsReply states j rs out
get_data-IsReply states rs [] metas cell j out e at_j = absurd (ground arith)
get_data-IsReply states rs (x ∷ xs) metas cell j out e at_j =
    let (d, rest, held, replies, whole) =
      get_data-Held states rs [] (x ∷ xs) none (metas, cell) j out e at_j in
    let same : out ≡ rest = whole ∙ ap (λ t. t ++ rest) held in rw same replies
