-- ===== src/SuperTensor/Ring/Warmed.antt =====
-- One warmup of src/tensor/supertensor.rs after the other, before any request.
use native.Mathlib.Nat.{mod-lt, mul-le-mul_left}
use toutates.Base.{
  ℕ, suc, ◌*◌, ◌%◌, ◌≤◌, ◌<◌, ◌^◌, ◌==◌, List, [], map, get_elem?, get_elem?-bound,
  get_elem?-set_self, get_elem?-set_ne, set, length, length-set, some, ok, ◌≡◌, ◌≢◌, ◌⊎◌, refl, sym,
  ap, ◌∙◌, true, inl, inr, arith, usize_mod, wrapping_sub,
}
use toutates.Tensor.Copy.{BatchableTensor}
use toutates.SuperTensor.Index.{as_batch_id}
use toutates.SuperTensor.Index.Position.{IsRing, IsRing-Shape}
use toutates.SuperTensor.Buffer.{DataTracker, SuperTensorBuffer}
use toutates.SuperTensor.Executor.{reset_batch, get_data_view, warmup}
use toutates.SuperTensor.Ring.Ledger.{Ledger, IsSound}
use toutates.SuperTensor.Ring.Steps.{System}
use toutates.SuperTensor.Ring.Calm.{IsCalm-same}
use toutates.SuperTensor.Ring.Rep.{Rep, Rep-calm}
use toutates.SuperTensor.Ring.GiveBack.{tracked}
use toutates.SuperTensor.Ring.Warm.{
  marked, given_back, warmup-given_back, warmup-ok, reset-marked, given_back-inputs, done_ledger,
  reset-warm, head_place,
}
use toutates.SuperTensor.Ring.OneFreed.{next_place, at_head, one_freed}

-- Nothing runs and no batch is open; the batches given back are all but at most one, and that one
-- is done.
pub record IsWarmed (capacity batch_size : ℕ) (ring : IsRing capacity batch_size) (l : Ledger)
    (b : SuperTensorBuffer) : Type 0 where
  pub sound : IsSound capacity batch_size l
  pub rep : Rep capacity batch_size ring l (record { buffer = b; running = [] })
  pub drained : l.slots ≡ batch_size * l.next
  pub all_but_one : (l.oldest ≡ l.next) ⊎ (suc l.oldest ≡ l.next)
  pub tail_done :
      suc l.oldest ≡ l.next
      → (t : DataTracker) × (get_elem? b.trackers (l.oldest % capacity) ≡ some t)
        × ((t.dirty == 2) ≡ true)

module _ (capacity batch_size : ℕ) (ring : IsRing capacity batch_size)
    (fits : capacity * batch_size ≤ 2 ^ 61) where
  -- A warmup after others that uses a ring of two or more batches: it has room, and the same holds
  -- after it.
  module _ (two : 1 < capacity) (l : Ledger) (b : SuperTensorBuffer)
      (warmed : IsWarmed capacity batch_size ring l b) where
    pub same_heads : b.head ≡ b.executor_head
    same_heads =
        warmed.rep.head_at
        ∙ ap (λ n. n % usize_mod) warmed.drained
        ∙ sym warmed.rep.executor_head_at

    batch_positive : 0 < batch_size
    batch_positive = (IsRing-Shape capacity batch_size ring).batch_pos

    two_batches : batch_size * 2 ≤ batch_size * capacity
    two_batches = mul-le-mul_left batch_size two

    pub has_room : wrapping_sub b.executor_head b.tail < capacity * batch_size
    has_room = elim warmed.all_but_one [
      | inl all ↦ omega (
        arith,
        warmed.rep.executor_head_at,
        warmed.rep.tail_at,
        batch_positive,
        two_batches,
        ap (λ n. batch_size * n) all,
      )
      | inr but_one ↦ omega (
        arith,
        warmed.rep.executor_head_at,
        warmed.rep.tail_at,
        batch_positive,
        two_batches,
        fits,
        ap (λ n. batch_size * n) but_one,
      )
    ]

    place : as_batch_id b.masks b.head ≡ l.next % capacity
    place =
        head_place capacity batch_size ring fits l (record { buffer = b; running = [] })
          warmed.sound warmed.rep same_heads has_room

    head_tracker : (t : DataTracker) × (get_elem? b.trackers (as_batch_id b.masks b.head) ≡ some t)
    head_tracker =
        let (t, found) =
          tracked capacity batch_size ring fits l (record { buffer = b; running = [] }) warmed.sound
            warmed.rep l.next in
        (t, rw place found)

    -- The buffer before the tail is moved: the batch is done, and the other ones are as before.
    abbrev reset : DataTracker → SuperTensorBuffer
    reset t = (reset_batch (as_batch_id b.masks b.head) (marked b t)).0

    module _ (t : DataTracker)
        (found : get_elem? b.trackers (as_batch_id b.masks b.head) ≡ some t) where
      id_in_range : as_batch_id b.masks b.head < length b.trackers
      id_in_range = get_elem?-bound b.trackers (as_batch_id b.masks b.head) t found

      reset_trackers :
          (u : DataTracker) × ((u.dirty == 2) ≡ true)
          × ((reset t).trackers
              ≡ set
                  (set b.trackers (as_batch_id b.masks b.head) (record t { dirty = 1 }))
                  (as_batch_id b.masks b.head)
                  u)
      reset_trackers = (_, refl, ap (λ p. p.0.trackers) (reset-marked b t found))

      reset_own :
          (u : DataTracker) × (get_elem? (reset t).trackers (as_batch_id b.masks b.head) ≡ some u)
          × ((u.dirty == 2) ≡ true)
      reset_own =
          let id = as_batch_id b.masks b.head in
          let (u, done, same) = reset_trackers in
          (
            u,
            rw same (
                get_elem?-set_self (set b.trackers id (record t { dirty = 1 })) id u
                  (omega (arith, id_in_range, length-set b.trackers id (record t { dirty = 1 })))),
            done,
          )

      reset_others :
          (id : ℕ)
          → id ≢ as_batch_id b.masks b.head
          → get_elem? (reset t).trackers id ≡ get_elem? b.trackers id
      reset_others id other =
          let own = as_batch_id b.masks b.head in
          let (u, done, same) = reset_trackers in
          rw same (
            get_elem?-set_ne (set b.trackers own (record t { dirty = 1 })) own id u
              (λ e. other (sym e))
            ∙ get_elem?-set_ne b.trackers own id (record t { dirty = 1 }) (λ e. other (sym e)))

    abbrev reset_ledger : Ledger
    reset_ledger =
        done_ledger capacity batch_size ring fits l (record { buffer = b; running = [] })
          warmed.sound warmed.rep same_heads has_room

    given_back-IsWarmed :
        (t : DataTracker)
        → get_elem? b.trackers (as_batch_id b.masks b.head) ≡ some t
        → (l' : Ledger) × (l'.next ≡ suc l.next)
          × IsWarmed capacity batch_size ring l' (given_back b t)
    unfolding done_ledger
    given_back-IsWarmed t found =
        let s : System = record { buffer = b; running = [] } in
        let (_, sound₂, rep₂) =
          reset-warm capacity batch_size ring fits l s warmed.sound warmed.rep same_heads has_room t
            found in
        let (u, at_own, done) = reset_own t found in
        elim warmed.all_but_one [
          | inl all ↦
              (let stays =
                  at_head capacity batch_size ring fits _ _ (suc b.capacity) rep₂
                    (omega (arith, warmed.drained, ap (λ n. batch_size * n) all)) in
                (
                  reset_ledger,
                  refl,
                  rw stays (record {
                    sound = sound₂;
                    rep = rep₂;
                    drained = omega (arith, warmed.drained);
                    all_but_one = inr (ap suc all);
                    tail_done = λ _. (
                      u,
                      ap (λ n. get_elem? (reset t).trackers n)
                            (ap (λ n. n % capacity) all ∙ sym place)
                          ∙ at_own,
                      done,
                    );
                  }),
                ))
          | inr but_one ↦
              (let (t₀, at_tail, done₀) = warmed.tail_done but_one in
                let apart : l.oldest % capacity ≢ as_batch_id b.masks b.head = λ same.
                  next_place capacity batch_size ring fits l.oldest two
                    (ap (λ n. n % capacity) but_one ∙ sym (same ∙ place)) in
                let (_, sound₃, rep₃, others) =
                  one_freed capacity batch_size ring fits _ _ t₀ b.capacity sound₂ rep₂
                    (omega (arith, warmed.drained, ap (λ n. batch_size * n) but_one))
                    (reset_others t found (l.oldest % capacity) apart ∙ at_tail) done₀ in
                (
                  _,
                  refl,
                  record {
                    sound = sound₃;
                    rep = rep₃;
                    drained = omega (arith, warmed.drained);
                    all_but_one = inr (ap suc but_one);
                    tail_done = λ _. (
                      u,
                      ap (λ n. get_elem? (given_back b t).trackers n)
                            (ap (λ n. n % capacity) but_one ∙ sym place)
                          ∙ others (as_batch_id b.masks b.head) (λ e. apart (sym e))
                          ∙ at_own,
                      done,
                    );
                  },
                ))
        ]

    pub warmup-IsWarmed :
        (c : SuperTensorBuffer)
        → warmup b ≡ (c, ok tt)
        → (l' : Ledger) × (l'.next ≡ suc l.next) × IsWarmed capacity batch_size ring l' c
    warmup-IsWarmed c warm =
        let (t, found) = head_tracker in
        let (l', one_more, w) = given_back-IsWarmed t found in
        (
          l',
          one_more,
          rw (warmup-given_back b t found c warm) (record {
            sound = w.sound;
            rep = Rep-calm capacity batch_size ring l' _ _ w.rep (IsCalm-same _ _ refl refl);
            drained = w.drained;
            all_but_one = w.all_but_one;
            tail_done = w.tail_done;
          }),
        )

    pub warmup-inputs :
        (c : SuperTensorBuffer) → warmup b ≡ (c, ok tt) → c.input_tensors ≡ b.input_tensors
    warmup-inputs c warm =
        let (t, found) = head_tracker in
        ap (λ x. x.input_tensors) (warmup-given_back b t found c warm) ∙ given_back-inputs b t found

    -- With input buffers for each batch of the ring, the next warmup succeeds.
    pub warmup-returns :
        (ts : List BatchableTensor)
        → ((i : ℕ) → i < capacity → get_elem? b.input_tensors i ≡ some ts)
        → (get_data_view b b.head ≡ ok (map (λ t. t.inner_tensor) ts)) × ((warmup b).1 ≡ ok tt)
    unfolding get_data_view
    warmup-returns ts inputs =
        let (t, found) = head_tracker in
        let positive : 0 < capacity = (IsRing-Shape capacity batch_size ring).capacity_pos in
        let place_inputs : get_elem? b.input_tensors (as_batch_id b.masks b.head) ≡ some ts =
          rw place (inputs (l.next % capacity) (mod-lt l.next positive)) in
        let view : get_data_view b b.head ≡ ok (map (λ x. x.inner_tensor) ts) =
          ground (arith, place_inputs) in
        (view, warmup-ok b t found (map (λ x. x.inner_tensor) ts) view)
