-- ===== src/SuperTensor/Ring/Refine.antt =====
-- Each call of src/tensor/supertensor.rs carries out moves of the ledger.
use native.Mathlib.Nat.{mod-add-mod, mul-le-mul_left, mul-mod_right}
use toutates.Base.{
  ℕ, suc, ◌+◌, ◌-◌, ◌*◌, ◌%◌, ◌≤◌, ◌<◌, ◌^◌, List, ◌∷◌, get_elem?, some, ok, Bool, ◌≡◌, refl, sym,
  ap, ap₂, dec_lt, dec_le, ◌∙◌, arith, usize_mod,
}
use toutates.Tensor.Bytes.{TensorBytes}
use toutates.SuperTensor.Index.{half_range}
use toutates.SuperTensor.Index.Position.{IsRing, IsRing-Shape}
use toutates.SuperTensor.Buffer.{SuperTensorBuffer}
use toutates.SuperTensor.Infer.{Round, claimed, claim_slots}
use toutates.SuperTensor.Executor.{claim_batch, seal_head}
use toutates.SuperTensor.Executor.Seal.{seal_head_lem}
use toutates.SuperTensor.Ring.Distinct.{get_elem?-map, Between-elem}
use toutates.SuperTensor.Ring.Ledger.{Ledger, IsSound, block_end}
use toutates.SuperTensor.Ring.Steps.{System, IsRecent}
use toutates.SuperTensor.Ring.Rep.{counter, Rep}
use toutates.SuperTensor.Ring.Wins.{claim_slots-inverse, claim_batch-inverse, recent-lt}

module _ (capacity batch_size : ℕ) where
  pub block_le :
      (p q : ℕ) → p ≤ q + capacity → batch_size * p ≤ batch_size * q + capacity * batch_size
  block_le p q h = omega (arith, mul-le-mul_left batch_size h)

  pub block_lt_inverse :
      (p q : ℕ) → batch_size * p < batch_size * q + capacity * batch_size → p < q + capacity
  block_lt_inverse p q h = elim (dec_lt p (q + capacity)) [
    | yes less ↦ less
    | no not_less ↦
        (let more : batch_size * (q + capacity) ≤ batch_size * p =
            mul-le-mul_left batch_size (omega arith) in
          absurd (omega arith))
  ]

  pub batch_lt :
      IsRing capacity batch_size → capacity * batch_size ≤ 2 ^ 61 → batch_size < half_range
  batch_lt ring fits =
      let pos : 0 < capacity = (IsRing-Shape capacity batch_size ring).capacity_pos in
      let one : batch_size * 1 ≤ batch_size * capacity = mul-le-mul_left batch_size pos in
      omega arith

module _ (capacity batch_size : ℕ) (ring : IsRing capacity batch_size)
    (fits : capacity * batch_size ≤ 2 ^ 61) (l : Ledger) (s : System)
    (sound : IsSound capacity batch_size l) (rep : Rep capacity batch_size ring l s) where
  pub reserve-Rep :
      (inputs : List TensorBytes) (r : Round) (b : SuperTensorBuffer) (first n : ℕ)
      → r.buffer ≡ s.buffer
      → IsRecent s.buffer r.seen_tail
      → claim_slots inputs r ≡ claimed b first n
      → (l.slots < batch_size * l.oldest + capacity * batch_size)
        × Rep capacity batch_size ring (record l { slots = l.slots + n }) (record s { buffer = b })
  reserve-Rep inputs r b first n same (word, recent) won =
      let (room, held, moved) = claim_slots-inverse inputs r b first n won in
      let seen : r.seen_head ≡ l.slots % usize_mod =
        sym held ∙ ap (λ c. c.head) same ∙ rep.head_at in
      (
        recent-lt (capacity * batch_size) (batch_size * l.oldest) l.slots r.seen_tail fits
            sound.reached sound.near word (rw rep.tail_at at recent)
            (rw (seen, same, rep.ring_capacity, rep.ring_batch_size) at room),
        rw (moved, same)
            (record {
              ring_masks = rep.ring_masks;
              ring_capacity = rep.ring_capacity;
              ring_batch_size = rep.ring_batch_size;
              ring_trackers = rep.ring_trackers;
              head_at = rw seen (mod-add-mod l.slots usize_mod n);
              executor_head_at = rep.executor_head_at;
              tail_at = rep.tail_at;
              running_at = rep.running_at;
              done = rep.done;
            }),
      )

  pub claim-Rep :
      (seen_executor_head seen_tail : ℕ) (spurious : Bool) (b : SuperTensorBuffer) (idx : ℕ)
      → IsRecent s.buffer seen_tail
      → claim_batch seen_executor_head seen_tail spurious s.buffer ≡ some (b, idx)
      → (l.next < l.oldest + capacity)
        × Rep capacity batch_size ring
            (record l { next = suc l.next; running = l.next ∷ l.running })
            (record { buffer = b; running = idx ∷ s.running })
  claim-Rep seen_executor_head seen_tail spurious b idx (word, recent) won =
      let (room, held, moved, here) =
        claim_batch-inverse seen_executor_head seen_tail spurious s.buffer b idx won in
      let seen : seen_executor_head ≡ counter capacity batch_size ring l.next =
        sym held ∙ rep.executor_head_at in
      let open_ring : batch_size * l.next < batch_size * l.oldest + capacity * batch_size =
        recent-lt (capacity * batch_size) (batch_size * l.oldest) (batch_size * l.next) seen_tail
          fits (mul-le-mul_left batch_size sound.claimed)
          (omega (arith, block_le capacity batch_size l.next l.oldest sound.in_ring)) word
          (rw rep.tail_at at recent) (rw (seen, rep.ring_capacity, rep.ring_batch_size) at room) in
      (
        block_lt_inverse capacity batch_size l.next l.oldest open_ring,
        rw (moved, here)
            (record {
              ring_masks = rep.ring_masks;
              ring_capacity = rep.ring_capacity;
              ring_batch_size = rep.ring_batch_size;
              ring_trackers = rep.ring_trackers;
              head_at = rep.head_at;
              executor_head_at =
                  rw (seen, rep.ring_batch_size)
                    (mod-add-mod (batch_size * l.next) usize_mod batch_size
                      ∙ ap (λ t. t % usize_mod) (omega arith));
              tail_at = rep.tail_at;
              running_at = ap₂ (λ x xs. x ∷ xs) seen rep.running_at;
              done = λ i u e d p lo hi place.
                  let (claimed_before, idle) = rep.done i u e d p lo hi place in
                  (
                    omega (arith, claimed_before),
                    (λ same. absurd (omega (arith, claimed_before)), idle),
                  );
            }),
      )

  pub seal-Rep :
      (i idx remaining : ℕ) (b : SuperTensorBuffer)
      → get_elem? s.running i ≡ some idx
      → seal_head idx s.buffer ≡ (b, ok remaining)
      → (p : ℕ) × (get_elem? l.running i ≡ some p)
        × (batch_size * p ≤ l.slots)
        × Rep capacity batch_size ring
            (record l { slots = l.slots + (batch_size * p + batch_size - l.slots) })
            (record s { buffer = b })
  seal-Rep i idx remaining b held sealed =
      let (p, at_i, ei) =
        get_elem?-map (counter capacity batch_size ring) l.running i idx
          (rw rep.running_at at held) in
      let (lo, hi) = Between-elem l.oldest l.next l.running i p sound.window at_i in
      let (early, late) =
        seal_head_lem capacity batch_size ring (batch_lt capacity batch_size ring fits)
          (batch_size * p) l.slots idx s.buffer rep.ring_masks rep.head_at (sym ei)
          (mul-mod_right batch_size p)
          (omega (arith, sound.near, mul-le-mul_left batch_size lo, fits))
          (omega (
            arith,
            sound.reached,
            fits,
            block_end capacity batch_size p l.oldest (omega (arith, sound.in_ring)),
          )) in
      elim (dec_le (batch_size * p) l.slots) [
        | no before ↦ absurd (ground (arith, sealed, early (omega arith)))
        | yes after ↦
            let moved = ap (λ t. t.0) (sym sealed ∙ late after) in
            (
              p,
              at_i,
              after,
              rw moved (record {
                ring_masks = rep.ring_masks;
                ring_capacity = rep.ring_capacity;
                ring_batch_size = rep.ring_batch_size;
                ring_trackers = rep.ring_trackers;
                head_at = refl;
                executor_head_at = rep.executor_head_at;
                tail_at = rep.tail_at;
                running_at = rep.running_at;
                done = rep.done;
              }),
            )
      ]
