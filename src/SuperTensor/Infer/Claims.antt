-- ===== src/SuperTensor/Infer/Claims.antt =====
-- The rounds of `infer`: refused, lost, or won, and what the winner then does.
use native.Mathlib.Nat.{mod-add-mod}
use toutates.Base.{
  ℕ, suc, ◌+◌, ◌*◌, ◌%◌, ◌≤◌, ◌<◌, leb, ◌==◌, not, ◌&&◌, ◌≡◌, ◌↔◌, sym, ap, ◌∙◌, arith, List, ◌∷◌,
  some, true, false, usize_mod, wrapping_sub, wrapping_add,
}
use toutates.Tensor.Bytes.{Dims, TensorBytes}
use toutates.Tracing.{ClientTrace}
use toutates.SuperTensor.Index.{masks_of}
use toutates.SuperTensor.Index.Position.{IsRing, IsRing-Shape}
use toutates.SuperTensor.Buffer.{SuperTensorBuffer}
use toutates.SuperTensor.Infer.{
  Round, full, retry, claimed, client_batch_size, claim_slots, infer, write_batches,
}
use toutates.SuperTensor.Infer.Pieces.{plan, total, IsChain, plan-IsChain, total-plan}
use toutates.SuperTensor.Infer.Split.{insert_all, write_batches-plan}

-- The pieces of a claim of at least one slot, planned with fuel for it, make up the claim, follow
-- one another from its first slot on, and each is a part, not empty, of one batch.
plan_lem :
    (batch_size fuel first n : ℕ)
    → 0 < batch_size
    → 0 < n
    → n ≤ fuel
    → (total (plan batch_size fuel first n) ≡ n)
      × IsChain batch_size first (plan batch_size fuel first n)
plan_lem batch_size fuel first n hb hn h =
    (total-plan batch_size fuel first n hb h, plan-IsChain batch_size fuel first n hb hn)

claim_slots-claimed :
    (inputs : List TensorBytes) (r : Round) (n : ℕ)
    → wrapping_sub r.seen_head r.seen_tail < r.buffer.capacity * r.buffer.batch_size
    → r.buffer.head ≡ r.seen_head
    → r.spurious ≡ false
    → client_batch_size inputs ≡ some n
    → claim_slots inputs r
      ≡ claimed (record (r.buffer) { head = wrapping_add r.seen_head n }) r.seen_head n
unfolding claim_slots
claim_slots-claimed inputs r n room held real size =
    let open_ring : leb (r.buffer.capacity * r.buffer.batch_size)
          (wrapping_sub r.seen_head r.seen_tail)
        ≡ false =
      ground arith in
    let exchanged : ((r.buffer.head == r.seen_head) && not r.spurious) ≡ true = ground arith in
    rw (open_ring, size, exchanged, claim_slots)

-- `infer` refuses a claim by its first round exactly when the counters that the round read are the
-- whole ring apart; how many slots the claim asks for plays no part.
pub claim_slots-full_iff :
    (inputs : List TensorBytes) (r : Round)
    → (claim_slots inputs r ≡ full)
      ↔ (r.buffer.capacity * r.buffer.batch_size ≤ wrapping_sub r.seen_head r.seen_tail)
unfolding claim_slots
claim_slots-full_iff inputs r = ground arith

module _ (num_elements : Dims → ℕ) (inputs : List TensorBytes) (trace : ClientTrace) (now : ℕ) where
  -- Rounds before the last lose their exchange, and change nothing.
  pub infer-retry :
      (r : Round) (rounds : List Round)
      → claim_slots inputs r ≡ retry
      → infer num_elements inputs trace now (r ∷ rounds)
        ≡ infer num_elements inputs trace now rounds
  unfolding infer
  infer-retry r rounds e = rw (e, infer)

  -- A round wins if its counters are less than the ring apart and its exchange succeeds. On a ring
  -- whose sizes are accepted, with `head` at the counter `first` (wrapped or not), a request of `n`
  -- rows, at least one, then moves `head` by `n`, and is written as the plan of its slots says: in
  -- pieces that make up the `n` slots, follow one another from `first` on, and are each a part, not
  -- empty, of one batch.
  pub infer-claimed :
      (capacity batch_size first n : ℕ) (r : Round) (rounds : List Round)
      → IsRing capacity batch_size
      → r.buffer.capacity ≡ capacity
      → r.buffer.batch_size ≡ batch_size
      → r.buffer.masks ≡ masks_of capacity batch_size
      → r.buffer.head ≡ first % usize_mod
      → r.seen_head ≡ r.buffer.head
      → wrapping_sub r.seen_head r.seen_tail < capacity * batch_size
      → r.spurious ≡ false
      → client_batch_size inputs ≡ some n
      → 0 < n
      → (infer num_elements inputs trace now (r ∷ rounds)
          ≡ some (
              insert_all num_elements inputs now
                (plan batch_size (suc n) first n)
                0
                trace
                (record (r.buffer) { head = (first + n) % usize_mod })))
        × (total (plan batch_size (suc n) first n) ≡ n)
        × IsChain batch_size first (plan batch_size (suc n) first n)
  unfolding infer
  infer-claimed capacity batch_size first n r rounds ring ec eb em eh es room real size pos =
      let (whole, chained) =
        plan_lem batch_size (suc n) first n ((IsRing-Shape capacity batch_size ring).batch_pos) pos
          (omega arith) in
      (
        rw (claim_slots-claimed inputs r n (rw (ec, eb) room) (sym es) real size, infer)
            (ap some (
              ap
                (λ h.
                  write_batches num_elements (suc n) h 0 n inputs trace now
                    (moved (wrapping_add h n)))
                (es ∙ eh)
              ∙ ap
                  (λ h.
                    write_batches num_elements (suc n) (first % usize_mod) 0 n inputs trace now
                      (moved h))
                  (mod-add-mod first usize_mod n)
              ∙ write_batches-plan num_elements inputs now capacity batch_size ring (suc n) first 0
                  n trace (moved ((first + n) % usize_mod)) em pos (omega arith))),
        whole,
        chained,
      )
    where
      moved : ℕ → SuperTensorBuffer
      moved h = record (r.buffer) { head = h }
