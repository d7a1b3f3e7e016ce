-- ===== src/SuperTensor/Shared/Runs.antt =====
-- Calls of `insert_tensors_at` of src/tensor/supertensor.rs on slots of their own all succeed.
use mathlib.Core.Path.{subst}
use toutates.Base.{
  ℕ, ◌<◌, ◌==◌, ◌≡◌, ◌≢◌, ◌⊎◌, inl, inr, refl, sym, ap, ◌∙◌, arith, List, [], ◌∷◌, get_elem?, some,
  ok, false,
}
use toutates.Tensor.Bytes.{Dims}
use toutates.Tensor.Copy.{BatchableTensor}
use toutates.SuperTensor.Index.{Masks}
use toutates.SuperTensor.Buffer.{BatchState, SuperTensorBuffer, ◌>>=◌, pure}
use toutates.SuperTensor.Infer.{WriteReservation, insert_tensors_at}
use toutates.SuperTensor.Shared.Quiet.{cell_at, >>=-run}
use toutates.SuperTensor.Shared.Inputs.{SameKinds, SameKinds-refl, SameKinds-trans, IsRequest-kinds}
use toutates.SuperTensor.Shared.Writes.{
  Insert, batch, first_slot, end_slot, Apart, Apart-sym, ApartFrom, AllApart, run_inserts, IsSound,
  AllSound, Changed,
}
use toutates.SuperTensor.Shared.Stay.{insert-Changed}
use toutates.SuperTensor.Shared.Success.{SameRun, Timed, HasSlots-kinds}
use toutates.SuperTensor.Shared.Ready.{IsReady, insert_tensors_at-run}

-- No two batches have one state.
abbrev pub OwnCells : SuperTensorBuffer → Type 0
OwnCells b = (i j cell : ℕ) → cell_at b i ≡ some cell → cell_at b j ≡ some cell → i ≡ j

module _ (num_elements : Dims → ℕ) where
  abbrev pub AllReady : Masks → SuperTensorBuffer → List Insert → Type 0
  AllReady m b [] = Unit {0}
  AllReady m b (w ∷ ws) = IsReady num_elements m b w × AllReady m b ws

  IsReady-IsSound :
      (m : Masks) (b : SuperTensorBuffer) (w : Insert)
      → IsReady num_elements m b w
      → IsSound num_elements m b w
  IsReady-IsSound m b w h = record {
    rows = h.rows;
    some_rows = omega (arith, h.some_rows, h.within);
    small = h.small;
    tensors = h.tensors;
    found = h.found;
    request = h.request;
  }

  pub AllReady-AllSound :
      (m : Masks) (b : SuperTensorBuffer) (ws : List Insert)
      → AllReady m b ws
      → AllSound num_elements m b ws
  AllReady-AllSound m b [] ready = tt
  AllReady-AllSound m b (w ∷ ws) (h, ready) =
      (IsReady-IsSound m b w h, AllReady-AllSound m b ws ready)

  -- What calls leave as it is.
  pub record Stays (b c : SuperTensorBuffer) : Type 0 where
    pub same_masks : c.masks ≡ b.masks
    pub same_cells : (id : ℕ) → cell_at c id ≡ cell_at b id
    pub same_users : c.executors_in_use ≡ b.executors_in_use
    pub kinds :
        (id : ℕ) (ts : List BatchableTensor)
        → get_elem? b.input_tensors id ≡ some ts
        → (us : List BatchableTensor) × (get_elem? c.input_tensors id ≡ some us)
          × SameKinds num_elements ts us
    pub runs :
        (j : ℕ) (s : BatchState)
        → get_elem? b.states j ≡ some s
        → (s' : BatchState) × (get_elem? c.states j ≡ some s') × SameRun s s'

  Stays-refl : (b : SuperTensorBuffer) → Stays b b
  Stays-refl b = record {
    same_masks = refl;
    same_cells = λ id. refl;
    same_users = refl;
    kinds = λ id ts there. (ts, there, SameKinds-refl num_elements ts);
    runs = λ j s there. (s, there, (refl, refl, refl));
  }

  Stays-trans : (b c d : SuperTensorBuffer) → Stays b c → Stays c d → Stays b d
  Stays-trans b c d p q = record {
    same_masks = q.same_masks ∙ p.same_masks;
    same_cells = λ id. q.same_cells id ∙ p.same_cells id;
    same_users = q.same_users ∙ p.same_users;
    kinds = λ id ts there.
        let (us, there', k) = p.kinds id ts there in
        let (vs, there'', k') = q.kinds id us there' in
        (vs, there'', SameKinds-trans num_elements ts us vs k k');
    runs = λ j s there.
        let (s', there', (e1, e2, e3)) = p.runs j s there in
        let (s'', there'', (f1, f2, f3)) = q.runs j s' there' in
        (s'', there'', (f1 ∙ e1, f2 ∙ e2, f3 ∙ e3));
  }

  module _ (m : Masks) (b c : SuperTensorBuffer) (v : Insert) (cell : ℕ)
      (some_rows : v.start < v.end) (own_cell : cell_at b (batch m v) ≡ some cell)
      (ch : Changed num_elements m b c v) (times : Timed b c cell (first_slot m v == 0))
      (own : OwnCells b) where
    call-Stays : Stays b c
    call-Stays = record {
      same_masks = ch.same_masks;
      same_cells = ch.same_cells;
      same_users = times.same_users;
      kinds = λ id ts there. let (us, there', k, _) = ch.buffers id ts there in (us, there', k);
      runs = λ j s there. let (s', there', same, _) = times.timed j s there in (s', there', same);
    }

    -- Another call is on another state, or not for the first slot, where this one is.
    other_clock :
        (w : Insert) (other : ℕ)
        → w.start < w.end
        → cell_at b (batch m w) ≡ some other
        → Apart m w v
        → first_slot m w ≡ 0
        → (other ≢ cell) ⊎ ((first_slot m v == 0) ≡ false)
    other_clock w other more held (inl differ) z =
        inl (λ e. differ (own (batch m w) (batch m v) other held (own_cell ∙ ap some (sym e))))
    other_clock w other more held (inr (inl before)) z = inr (ground (arith, more))
    other_clock w other more held (inr (inr later)) z = absurd (omega (arith, some_rows))

    call-IsReady :
        (w : Insert) → Apart m w v → IsReady num_elements m b w → IsReady num_elements m c w
    call-IsReady w apart h =
        let (us, there', k, _) = ch.buffers (batch m w) h.tensors h.found in
        let (s', state_there, _, keep) = times.timed h.cell h.state h.there in
        record {
          rows = h.rows;
          small = h.small;
          some_rows = h.some_rows;
          within = h.within;
          tensors = us;
          found = there';
          request = IsRequest-kinds num_elements h.rows w.inputs h.tensors us h.request k;
          room = HasSlots-kinds num_elements (end_slot m w) h.tensors us k h.room;
          cell = h.cell;
          same_cell = ch.same_cells (batch m w) ∙ h.same_cell;
          state = s';
          there = state_there;
          closed = λ z. keep (other_clock w h.cell h.some_rows h.same_cell apart z) (h.closed z);
        }

    call-AllReady : (ws : List Insert) → ApartFrom m v ws → AllReady m b ws → AllReady m c ws
    call-AllReady [] apart ready = tt
    call-AllReady (w ∷ ws) (a, apart) (h, ready) =
        (call-IsReady w (Apart-sym m v w a) h, call-AllReady ws apart ready)

    call-OwnCells : OwnCells c
    call-OwnCells i j k hi hj = own i j k (sym (ch.same_cells i) ∙ hi) (sym (ch.same_cells j) ∙ hj)

  ready-run :
      (m : Masks) (b : SuperTensorBuffer) (w : Insert)
      → b.masks ≡ m
      → (h : IsReady num_elements m b w)
      → (c : SuperTensorBuffer) × (r : WriteReservation) × (insert_tensors_at num_elements w.idx
            w.start w.end w.inputs w.now b
          ≡ (c, ok r))
        × Timed b c h.cell (first_slot m w == 0)
  ready-run m b w em =
      subst
        (λ k.
          (h : IsReady num_elements k b w)
          → (c : SuperTensorBuffer) × (r : WriteReservation) × (insert_tensors_at num_elements w.idx
                w.start w.end w.inputs w.now b
              ≡ (c, ok r))
            × Timed b c h.cell (first_slot k w == 0))
        em (λ h. insert_tensors_at-run num_elements b w h)

  -- Calls on slots of their own, on a buffer that is ready for each, all succeed.
  pub run_inserts-run :
      (m : Masks) (ws : List Insert) (b : SuperTensorBuffer)
      → b.masks ≡ m
      → AllApart m ws
      → AllReady m b ws
      → OwnCells b
      → (c : SuperTensorBuffer) × (rs : List WriteReservation) × (run_inserts num_elements ws b
          ≡ (c, ok rs))
        × Stays b c
  unfolding run_inserts
  run_inserts-run m [] b em apart ready own = (b, [], refl, Stays-refl b)
  run_inserts-run m (w ∷ ws) b em (a, apart) (h, ready) own =
      let (b1, r, first, times) = ready-run m b w em h in
      let (ch, _) = insert-Changed num_elements m b b1 w r em (IsReady-IsSound m b w h) first in
      let stays = call-Stays m b b1 w h.cell h.some_rows h.same_cell ch times own in
      let (c, rs, rest, stays') =
        run_inserts-run m ws b1 (ch.same_masks ∙ em) apart
          (call-AllReady m b b1 w h.cell h.some_rows h.same_cell ch times own ws a ready)
          (call-OwnCells m b b1 w h.cell h.some_rows h.same_cell ch times own) in
      (
        c,
        r ∷ rs,
        >>=-run (insert_tensors_at num_elements w.idx w.start w.end w.inputs w.now)
              (λ r. run_inserts num_elements ws >>= (λ rs. pure (r ∷ rs))) b b1 r first
            ∙ >>=-run (run_inserts num_elements ws) (λ rs. pure (r ∷ rs)) b1 c rs rest,
        Stays-trans b b1 c stays stays',
      )
