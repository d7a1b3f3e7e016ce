-- ===== src/SuperTensor/Shared/Requests.antt =====
-- Requests whose claims in src/tensor/supertensor.rs follow one another, whatever the order in which
-- their writes reach the buffer.
use toutates.Base.{
  ℕ, suc, ◌+◌, ◌*◌, ◌%◌, ◌≤◌, ◌<◌, ◌≡◌, refl, sym, ◌∙◌, arith, List, [], ◌∷◌, ◌++◌, ok, usize_mod,
}
use toutates.Tensor.Bytes.{Dims, TensorBytes}
use toutates.Tracing.{ClientTrace, record_inference_in_queue}
use toutates.SuperTensor.Index.{Masks, masks_of}
use toutates.SuperTensor.Index.Position.{IsRing, IsRing-Shape}
use toutates.SuperTensor.Buffer.{SuperTensorBuffer, ◌>>=◌, pure}
use toutates.SuperTensor.Infer.{WriteReservation, insert_tensors_at}
use toutates.SuperTensor.Infer.Pieces.{Piece, plan, total, IsChain, plan-IsChain, total-plan}
use toutates.SuperTensor.Infer.Split.{insert_all}
use toutates.SuperTensor.Shared.Quiet.{>>=-ok, >>=-run}
use toutates.SuperTensor.Shared.Writes.{Insert, Apart-sym, ApartFrom, AllApart, run_inserts}
use toutates.SuperTensor.Shared.Claims.{Follows, chain-AllApart}

-- The calls for the pieces of a claim: from its row `start` on, in order.
unfoldable pub inserts : List TensorBytes → ℕ → List Piece → ℕ → List Insert
inserts inputs now [] start = []
inserts inputs now (p ∷ ps) start =
    record {
      idx = p.first % usize_mod;
      start = start;
      end = start + p.slots;
      inputs = inputs;
      now = now;
    }
    ∷ inserts inputs now ps (start + p.slots)

-- The writes of a plan, as the round of `infer` makes them, are those calls.
pub insert_all-run_inserts :
    (num_elements : Dims → ℕ) (inputs : List TensorBytes) (now : ℕ) (ps : List Piece) (start : ℕ)
    (trace last_trace : ClientTrace) (b c : SuperTensorBuffer) (rs : List WriteReservation)
    → insert_all num_elements inputs now ps start trace b ≡ (c, ok (rs, last_trace))
    → run_inserts num_elements (inserts inputs now ps start) b ≡ (c, ok rs)
unfolding insert_all run_inserts inserts
insert_all-run_inserts num_elements inputs now [] start trace last_trace b c rs e =
    absurd (ground (arith, e))
insert_all-run_inserts num_elements inputs now (p ∷ []) start trace last_trace b c rs e =
    let insert =
      insert_tensors_at num_elements (p.first % usize_mod) start (start + p.slots) inputs now in
    let (b1, r, first, last) =
      >>=-ok insert (λ r. pure (r ∷ [], record_inference_in_queue now trace)) b c (rs, last_trace)
        e in
    >>=-run insert
      (λ r.
        run_inserts num_elements (inserts inputs now [] (start + p.slots))
        >>= (λ more. pure (r ∷ more)))
      b b1 r first
    ∙ ground (arith, last)
insert_all-run_inserts num_elements inputs now (p ∷ q ∷ ps) start trace last_trace b c rs e =
    let insert =
      insert_tensors_at num_elements (p.first % usize_mod) start (start + p.slots) inputs now in
    let trace' = record_inference_in_queue now trace in
    let rest = run_inserts num_elements (inserts inputs now (q ∷ ps) (start + p.slots)) in
    let (b1, r, first, later) =
      >>=-ok insert
        (λ r.
          insert_all num_elements inputs now (q ∷ ps) (start + p.slots) trace'
          >>= (λ (more, last). pure (r ∷ more, last)))
        b c (rs, last_trace) e in
    let (b2, (more, last_trace'), others, last) =
      >>=-ok (insert_all num_elements inputs now (q ∷ ps) (start + p.slots) trace')
        (λ (more, last). pure (r ∷ more, last)) b1 c (rs, last_trace) later in
    let ran =
      insert_all-run_inserts num_elements inputs now (q ∷ ps) (start + p.slots) trace' last_trace'
        b1 b2 more others in
    >>=-run insert (λ r. rest >>= (λ more. pure (r ∷ more))) b b1 r first
    ∙ >>=-run rest (λ more. pure (r ∷ more)) b1 b2 more ran
    ∙ ground (arith, last)

-- A request that claims `rows` slots.
pub record Request : Type 0 where
  pub inputs : List TensorBytes
  pub rows : ℕ
  pub now : ℕ

abbrev pub all_rows : List Request → ℕ
all_rows [] = 0
all_rows (q ∷ qs) = q.rows + all_rows qs

abbrev pub AllAsk : List Request → Type 0
AllAsk [] = Unit {0}
AllAsk (q ∷ qs) = (0 < q.rows) × AllAsk qs

-- The claims of the requests follow one another from the counter `first` on; what each writes.
unfoldable pub pieces_of : ℕ → ℕ → List Request → List Piece
unfolding plan
pieces_of size first [] = []
pieces_of size first (q ∷ qs) =
    plan size (suc q.rows) first q.rows ++ pieces_of size (first + q.rows) qs

unfoldable pub writes_of : ℕ → ℕ → List Request → List Insert
unfolding plan inserts
writes_of size first [] = []
writes_of size first (q ∷ qs) =
    inserts q.inputs q.now (plan size (suc q.rows) first q.rows) 0
    ++ writes_of size (first + q.rows) qs

IsChain-append :
    (size first mid : ℕ) (ps qs : List Piece)
    → first + total ps ≡ mid
    → IsChain size first ps
    → IsChain size mid qs
    → IsChain size first (ps ++ qs)
IsChain-append size first mid [] qs e cp cq =
    let same : mid ≡ first = omega arith in rw (sym same) cq
IsChain-append size first mid (p ∷ ps) qs e (at_first, some_slots, inside, cp) cq = (
  at_first,
  some_slots,
  inside,
  IsChain-append size (first + p.slots) mid ps qs (omega arith) cp cq,
)

total-append : (ps qs : List Piece) → total (ps ++ qs) ≡ total ps + total qs
total-append [] qs = omega arith
total-append (p ∷ ps) qs = omega (arith, total-append ps qs)

Follows-inserts :
    (inputs : List TensorBytes) (now : ℕ) (ps : List Piece) (start : ℕ) (qs : List Piece)
    (ws : List Insert)
    → Follows qs ws
    → Follows (ps ++ qs) (inserts inputs now ps start ++ ws)
unfolding inserts
Follows-inserts inputs now [] start qs ws f = f
Follows-inserts inputs now (p ∷ ps) start qs ws f =
    (refl, omega arith, Follows-inserts inputs now ps (start + p.slots) qs ws f)

module _ (size : ℕ) (hs : 0 < size) where
  pieces_of-IsChain :
      (first : ℕ) (qs : List Request)
      → AllAsk qs
      → IsChain size first (pieces_of size first qs)
        × (total (pieces_of size first qs) ≡ all_rows qs)
  unfolding pieces_of
  pieces_of-IsChain first [] asks = (tt, refl)
  pieces_of-IsChain first (q ∷ qs) (some_rows, asks) =
      let (chain, sum) = pieces_of-IsChain (first + q.rows) qs asks in
      let ps = plan size (suc q.rows) first q.rows in
      let own = total-plan size (suc q.rows) first q.rows hs (omega arith) in
      (
        IsChain-append size first (first + q.rows) ps (pieces_of size (first + q.rows) qs)
            (omega (arith, own)) (plan-IsChain size (suc q.rows) first q.rows hs some_rows) chain,
        omega (arith, total-append ps (pieces_of size (first + q.rows) qs), own, sum),
      )

  Follows-writes_of :
      (first : ℕ) (qs : List Request) → Follows (pieces_of size first qs) (writes_of size first qs)
  unfolding pieces_of writes_of
  Follows-writes_of first [] = tt
  Follows-writes_of first (q ∷ qs) =
      Follows-inserts q.inputs q.now (plan size (suc q.rows) first q.rows) 0
        (pieces_of size (first + q.rows) qs) (writes_of size (first + q.rows) qs)
        (Follows-writes_of (first + q.rows) qs)

-- The same calls in another order.
pub data Shuffle : List Insert → List Insert → Type 0 where
  done : Shuffle [] []
  keep : {w : Insert} {vs ws : List Insert} → Shuffle vs ws → Shuffle (w ∷ vs) (w ∷ ws)
  swap : {v w : Insert} {ws : List Insert} → Shuffle (v ∷ w ∷ ws) (w ∷ v ∷ ws)
  after : {us vs ws : List Insert} → Shuffle us vs → Shuffle vs ws → Shuffle us ws

module _ (m : Masks) where
  ApartFrom-Shuffle :
      (w : Insert) {us vs : List Insert} → Shuffle us vs → ApartFrom m w us → ApartFrom m w vs
  ApartFrom-Shuffle w done a = a
  ApartFrom-Shuffle w (keep s) (a, as') = (a, ApartFrom-Shuffle w s as')
  ApartFrom-Shuffle w swap (a, (b, as')) = (b, (a, as'))
  ApartFrom-Shuffle w (after s t) a = ApartFrom-Shuffle w t (ApartFrom-Shuffle w s a)

  AllApart-Shuffle : {us vs : List Insert} → Shuffle us vs → AllApart m us → AllApart m vs
  AllApart-Shuffle done a = a
  AllApart-Shuffle (keep {w} s) (a, as') = (ApartFrom-Shuffle w s a, AllApart-Shuffle s as')
  AllApart-Shuffle (swap {v} {w}) ((a, as'), (b, bs)) = ((Apart-sym m v w a, b), (as', bs))
  AllApart-Shuffle (after s t) a = AllApart-Shuffle t (AllApart-Shuffle s a)

-- On a ring of accepted sizes, the writes of requests whose claims follow one another and have no
-- more slots than the ring are on slots of their own, in whatever order they come.
pub writes_of-AllApart :
    (capacity size first : ℕ) (qs : List Request) (ws : List Insert)
    → IsRing capacity size
    → AllAsk qs
    → all_rows qs ≤ capacity * size
    → Shuffle (writes_of size first qs) ws
    → AllApart (masks_of capacity size) ws
writes_of-AllApart capacity size first qs ws ring asks within order =
    let hs = (IsRing-Shape capacity size ring).batch_pos in
    let (chain, sum) = pieces_of-IsChain size hs first qs asks in
    AllApart-Shuffle (masks_of capacity size) order (
      chain-AllApart capacity size ring first (pieces_of size first qs) (writes_of size first qs)
        chain (omega (arith, sum, within)) (Follows-writes_of size hs first qs))
