-- ===== src/ModelRuntime/Load/Warm.antt =====
-- A new buffer of src/tensor/supertensor.rs after the warmups of src/model_runtime/manager.rs.
use toutates.Base.{
  ℕ, suc, ◌*◌, ◌%◌, ◌≤◌, ◌<◌, ◌^◌, List, [], ok, get_elem?, ◌≡◌, refl, sym, ap, ◌∙◌, inl, inr,
  arith, usize_mod, wrapping_sub,
}
use toutates.Tensor.Element.{ElementType}
use toutates.Tensor.Bytes.{Bytes, Dims}
use toutates.Tensor.Copy.{HostTensor}
use toutates.SuperTensor.Index.Position.{IsRing}
use toutates.SuperTensor.Buffer.{SuperTensorBuffer}
use toutates.SuperTensor.Construct.{Outlet, Overrides, new_with_overrides}
use toutates.SuperTensor.Construct.Fresh.{new_with_overrides-IsFresh}
use toutates.SuperTensor.Executor.{get_data_view, warmup}
use toutates.SuperTensor.Ring.Ledger.{Ledger}
use toutates.SuperTensor.Ring.Steps.{Reachable, start, warm}
use toutates.SuperTensor.Ring.Safety.{
  empty_ledger, empty_ledger-IsSound, accepted, new_with_overrides-Rep,
}
use toutates.SuperTensor.Ring.Warmed.{
  IsWarmed, warmup-IsWarmed, warmup-inputs, warmup-returns, same_heads, has_room,
}

module _ (zeroed : ElementType → Dims → Bytes) (inputs : List Outlet) (overrides : Overrides)
    (num_elements : Dims → ℕ) (capacity batch_size : ℕ) (fits : capacity * batch_size ≤ 2 ^ 61)
    (two : 1 < capacity) (b : SuperTensorBuffer)
    (made : new_with_overrides zeroed capacity batch_size inputs overrides ≡ ok b) where
  abbrev ring : IsRing capacity batch_size
  ring = accepted zeroed inputs overrides num_elements capacity batch_size fits b made

  -- The buffer after warmups of `b`, as many as `n`.
  pub record IsReady (n : ℕ) (c : SuperTensorBuffer) : Type 0 where
    pub reached : Reachable num_elements b (record { buffer = c; running = [] })
    pub ledger : Ledger
    pub count : ledger.next ≡ n
    pub same_inputs : c.input_tensors ≡ b.input_tensors
    pub warmed : IsWarmed capacity batch_size ring ledger c

  pub new-IsReady : IsReady 0 b
  new-IsReady = record {
    reached = start;
    ledger = empty_ledger;
    count = refl;
    same_inputs = refl;
    warmed = record {
      sound = empty_ledger-IsSound capacity batch_size;
      rep =
          new_with_overrides-Rep zeroed inputs overrides num_elements capacity batch_size fits b
            made;
      drained = omega arith;
      all_but_one = inl refl;
      tail_done = λ e. absurd (omega arith);
    };
  }

  pub warmup-IsReady :
      (n : ℕ) (c d : SuperTensorBuffer) → IsReady n c → warmup c ≡ (d, ok tt) → IsReady (suc n) d
  warmup-IsReady n c d r w =
      let rep = r.warmed.rep in
      let heads = same_heads capacity batch_size ring fits two r.ledger c r.warmed in
      let room = has_room capacity batch_size ring fits two r.ledger c r.warmed in
      let (l', one_more, warmed) =
        warmup-IsWarmed capacity batch_size ring fits two r.ledger c r.warmed d w in
      record {
        reached =
            warm (record { buffer = c; running = [] }) d r.reached
              (record {
                same_heads = heads;
                has_room = rw (rep.ring_capacity, rep.ring_batch_size) room;
              })
              w;
        ledger = l';
        count = one_more ∙ ap suc r.count;
        same_inputs =
            warmup-inputs capacity batch_size ring fits two r.ledger c r.warmed d w ∙ r.same_inputs;
        warmed = warmed;
      }

  -- The slots handed out are those of the warmups, and at most one batch of them is in the ring.
  pub IsReady-counters :
      (n : ℕ) (c : SuperTensorBuffer)
      → IsReady n c
      → (c.head ≡ batch_size * n % usize_mod)
        × (c.executor_head ≡ c.head)
        × (wrapping_sub c.head c.tail ≤ batch_size)
  IsReady-counters n c r =
      let w = r.warmed in
      let heads = same_heads capacity batch_size ring fits two r.ledger c w in
      let slots : r.ledger.slots ≡ batch_size * n = w.drained ∙ ap (λ k. batch_size * k) r.count in
      (
        w.rep.head_at ∙ ap (λ k. k % usize_mod) slots,
        sym heads,
        elim w.all_but_one [
          | inl all ↦
              omega (arith, w.rep.head_at, w.rep.tail_at, w.drained, ap (λ k. batch_size * k) all)
          | inr but_one ↦
              omega
                (arith, w.rep.head_at, w.rep.tail_at, w.drained, ap (λ k. batch_size * k) but_one)
        ],
      )

  -- The next warmup has its inputs, and succeeds.
  pub IsReady-warmup :
      (n : ℕ) (c : SuperTensorBuffer)
      → IsReady n c
      → (v : List HostTensor) × (get_data_view c c.head ≡ ok v) × ((warmup c).1 ≡ ok tt)
  IsReady-warmup n c r =
      let (_, _, _, _, _, (ts, _, fresh)) =
        new_with_overrides-IsFresh zeroed capacity batch_size inputs overrides b (omega arith)
          made in
      let (view, returns) =
        warmup-returns capacity batch_size ring fits two r.ledger c r.warmed ts
          (λ i h. ap (λ xs. get_elem? xs i) r.same_inputs ∙ (fresh i h).inputs) in
      (_, view, returns)
