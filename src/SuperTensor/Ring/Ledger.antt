-- ===== src/SuperTensor/Ring/Ledger.antt =====
-- What the ring of src/tensor/supertensor.rs promises, without words that wrap, trackers or masks:
-- a number of slots handed out, the batches claimed by executors, those still running, and the
-- oldest batch that is not given back. Batches are numbered from the first one on and forever.
use toutates.Base.{ℕ, suc, ◌+◌, ◌-◌, ◌*◌, ◌^◌, ◌≤◌, ◌<◌, List, ◌∷◌, get_elem?, some, ◌≡◌, arith}
use toutates.SuperTensor.Ring.Distinct.{
  remove, Between, Fresh, Distinct, Between-elem, Between-remove, Between-weaken, Between-raise,
  Between-Fresh, Distinct-remove, next_block,
}

-- The rows of a request that the ledger is told of are at most this many.
abbrev pub max_claim : ℕ
max_claim = 2 ^ 60

pub record Ledger : Type 0 where
  pub slots : ℕ
  pub next : ℕ
  pub oldest : ℕ
  pub running : List ℕ

module _ (capacity batch_size : ℕ) where
  pub data Move : Ledger → Ledger → Type 0 where
    -- A request takes `n` slots while fewer than the ring are in use: it may end outside of it.
    reserve :
        (l : Ledger) (n : ℕ)
        → l.slots < batch_size * l.oldest + capacity * batch_size
        → n ≤ max_claim
        → Move l (record l { slots = l.slots + n })
    -- An executor claims the next batch, if it is in the ring.
    claim :
        (l : Ledger)
        → l.next < l.oldest + capacity
        → Move l (record l { next = suc l.next; running = l.next ∷ l.running })
    -- A running batch is closed: no later request gets a slot of it.
    seal :
        (l : Ledger) (i p : ℕ)
        → get_elem? l.running i ≡ some p
        → batch_size * p ≤ l.slots
        → Move l (record l { slots = l.slots + (batch_size * p + batch_size - l.slots) })
    -- A running batch is done.
    finish :
        (l : Ledger) (i p : ℕ)
        → get_elem? l.running i ≡ some p
        → Move l (record l { running = remove l.running i })
    -- The oldest batch is given back: it was claimed, is not running, and the slots go past it.
    free :
        (l : Ledger)
        → l.oldest < l.next
        → Fresh l.oldest l.running
        → batch_size * l.oldest + batch_size < l.slots
        → Move l (record l { oldest = suc l.oldest })

  pub data Moves : Ledger → Ledger → Type 0 where
    stay : (l : Ledger) → Moves l l
    chain : (l l' l'' : Ledger) → Move l l' → Moves l' l'' → Moves l l''

  pub record IsSound (l : Ledger) : Type 0 where
    pub claimed : l.oldest ≤ l.next
    pub in_ring : l.next ≤ l.oldest + capacity
    pub reached : batch_size * l.oldest ≤ l.slots
    pub near : l.slots ≤ batch_size * l.oldest + capacity * batch_size + max_claim
    pub window : Between l.oldest l.next l.running
    pub distinct : Distinct l.running

  pub block_end :
      (p q : ℕ)
      → p < q + capacity
      → batch_size * p + batch_size ≤ batch_size * q + capacity * batch_size
  block_end p q h = omega (arith, next_block batch_size p (q + capacity) h)

  pub Move-IsSound : (l l' : Ledger) → Move l l' → IsSound l → IsSound l'
  Move-IsSound _ _ (reserve l n room small) s = record {
    claimed = s.claimed;
    in_ring = s.in_ring;
    reached = omega (arith, s.reached);
    near = omega (arith, s.near);
    window = s.window;
    distinct = s.distinct;
  }
  Move-IsSound _ _ (claim l room) s = record {
    claimed = omega (arith, s.claimed);
    in_ring = omega arith;
    reached = s.reached;
    near = s.near;
    window = (
      s.claimed,
      omega arith,
      Between-weaken l.oldest l.next (suc l.next) l.running (omega arith) s.window,
    );
    distinct = (Between-Fresh l.oldest l.next l.running s.window, s.distinct);
  }
  Move-IsSound _ _ (seal l i p held after) s =
      let (lo, hi) = Between-elem l.oldest l.next l.running i p s.window held in
      record {
        claimed = s.claimed;
        in_ring = s.in_ring;
        reached = omega (arith, s.reached);
        near = omega (arith, s.near, block_end p l.oldest (omega (arith, s.in_ring)));
        window = s.window;
        distinct = s.distinct;
      }
  Move-IsSound _ _ (finish l i p held) s = record {
    claimed = s.claimed;
    in_ring = s.in_ring;
    reached = s.reached;
    near = s.near;
    window = Between-remove l.oldest l.next l.running i s.window;
    distinct = Distinct-remove l.running i s.distinct;
  }
  Move-IsSound _ _ (free l done idle past) s = record {
    claimed = omega arith;
    in_ring = omega (arith, s.in_ring);
    reached = ground (arith);
    near = ground (arith, s.near);
    window = Between-raise l.oldest l.next l.running s.window idle;
    distinct = s.distinct;
  }

  pub Moves-IsSound : (l l' : Ledger) → Moves l l' → IsSound l → IsSound l'
  Moves-IsSound _ _ (stay l) s = s
  Moves-IsSound _ _ (chain l l' l'' m ms) s = Moves-IsSound l' l'' ms (Move-IsSound l l' m s)

  pub Moves-trans : (l l' l'' : Ledger) → Moves l l' → Moves l' l'' → Moves l l''
  Moves-trans _ _ l'' (stay l) ns = ns
  Moves-trans _ _ l'' (chain l l₁ l₂ m ms) ns = chain l l₁ l'' m (Moves-trans l₁ l₂ l'' ms ns)
