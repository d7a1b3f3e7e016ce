-- ===== src/SuperTensor/Shared/Quiet.antt =====
-- Calls on the buffer of src/tensor/supertensor.rs that leave the input buffers alone, and every
-- tracker its state.
use toutates.Base.{
  ℕ, List, get_elem?, set, get_elem?-set_self, get_elem?-set_ne, get_elem?-bound, Option, none,
  some, Result, ok, err, panic, Bool, true, false, if◌then◌else◌, ◌≡◌, refl, ap, ◌∙◌, arith,
  ℕ_discrete,
}
use toutates.Tensor.Errors.{InferError}
use toutates.SuperTensor.Buffer.{
  DataTracker, BatchState, SuperTensorBuffer, M, ◌>>=◌, resume, pure, lift, tracker_at, state_at,
  put_tracker, put_state,
}

-- The cell that a tracker holds.
abbrev pub cell_at : SuperTensorBuffer → ℕ → Option ℕ
cell_at b id = elim (get_elem? b.trackers id) [ none ↦ none | some t ↦ some t.state ]

pub record IsQuiet (b c : SuperTensorBuffer) : Type 0 where
  pub same_inputs : c.input_tensors ≡ b.input_tensors
  pub same_cells : (id : ℕ) → cell_at c id ≡ cell_at b id

IsQuiet-same :
    (b c : SuperTensorBuffer)
    → c.input_tensors ≡ b.input_tensors
    → c.trackers ≡ b.trackers
    → IsQuiet b c
IsQuiet-same b c inputs trackers = record {
  same_inputs = inputs;
  same_cells = λ id.
      ap
        (λ (l : List DataTracker). elim (get_elem? l id) as (λ _. Option ℕ) [
          | none ↦ none
          | some t ↦ some t.state
        ])
        trackers;
}

pub IsQuiet-trans : {b c d : SuperTensorBuffer} → IsQuiet b c → IsQuiet c d → IsQuiet b d
IsQuiet-trans p q = record {
  same_inputs = q.same_inputs ∙ p.same_inputs;
  same_cells = λ id. q.same_cells id ∙ p.same_cells id;
}

IsQuiet-set :
    (b : SuperTensorBuffer) (id : ℕ) (t t' : DataTracker)
    → get_elem? b.trackers id ≡ some t
    → t'.state ≡ t.state
    → IsQuiet b (record b { trackers = set b.trackers id t' })
IsQuiet-set b id t t' found same = record {
  same_inputs = refl;
  same_cells = λ j. elim (ℕ_discrete id j) [
    | yes here ↦
        (let now : get_elem? (set b.trackers id t') id ≡ some t' =
            get_elem?-set_self b.trackers id t' (get_elem?-bound b.trackers id t found) in
          ground (arith, now, here, found, same))
    | no elsewhere ↦ ground (arith, get_elem?-set_ne b.trackers id j t' elsewhere)
  ];
}

pub record Quiet {A : Type 0} (m : M A) : Type 0 where
  pub quiet : (b : SuperTensorBuffer) → IsQuiet b (m b).0

module _ {A B : Type 0} where
  resume-IsQuiet :
      (f : A → M B) (b b' : SuperTensorBuffer) (r : Result InferError A)
      → IsQuiet b b'
      → ((a : A) → Quiet (f a))
      → IsQuiet b (resume f b' r).0
  resume-IsQuiet f b b' (ok a) p k = IsQuiet-trans p ((k a).quiet b')
  resume-IsQuiet f b b' (err x) p k = p
  resume-IsQuiet f b b' panic p k = p

  pub Quiet->>= : {m : M A} {f : A → M B} → Quiet m → ((a : A) → Quiet (f a)) → Quiet (m >>= f)
  Quiet->>= {m} {f} km kf = record {
    quiet = λ b. resume-IsQuiet f b (m b).0 (m b).1 (km.quiet b) kf;
  }

  -- A chain that ends in a value: its first call does too.
  pub >>=-ok :
      (m : M A) (f : A → M B) (b c : SuperTensorBuffer) (x : B)
      → (m >>= f) b ≡ (c, ok x)
      → (b' : SuperTensorBuffer) × (a : A) × (m b ≡ (b', ok a)) × (f a b' ≡ (c, ok x))
  >>=-ok m f b c x e = by_result (m b).0 (m b).1 refl e
    where
      by_result :
          (b' : SuperTensorBuffer) (r : Result InferError A)
          → m b ≡ (b', r)
          → resume f b' r ≡ (c, ok x)
          → (b' : SuperTensorBuffer) × (a : A) × (m b ≡ (b', ok a)) × (f a b' ≡ (c, ok x))
      by_result b' (ok a) first later = (b', a, first, later)
      by_result b' (err y) first later = absurd (ground (arith, later))
      by_result b' panic first later = absurd (ground (arith, later))

  -- A chain whose first call ends in a value goes on from there.
  pub >>=-run :
      (m : M A) (f : A → M B) (b b' : SuperTensorBuffer) (a : A)
      → m b ≡ (b', ok a)
      → (m >>= f) b ≡ f a b'
  >>=-run m f b b' a e = ap (λ p. resume f p.0 p.1) e

pub Quiet-pure : {A : Type 0} (a : A) → Quiet (pure a)
Quiet-pure a = record { quiet = λ b. IsQuiet-same b b refl refl }

pub Quiet-lift : {A : Type 0} (r : Result InferError A) → Quiet (lift r)
Quiet-lift r = record { quiet = λ b. IsQuiet-same b b refl refl }

pub Quiet-tracker_at : (id : ℕ) → Quiet (tracker_at id)
Quiet-tracker_at id = record { quiet = λ b. IsQuiet-same b b refl refl }

pub Quiet-state_at : (cell : ℕ) → Quiet (state_at cell)
Quiet-state_at cell = record { quiet = λ b. IsQuiet-same b b refl refl }

pub Quiet-put_state : (cell : ℕ) (s : BatchState) → Quiet (put_state cell s)
Quiet-put_state cell s = record { quiet = λ b. IsQuiet-same b _ refl refl }

pub Quiet-if : {A : Type 0} (c : Bool) {m n : M A} → Quiet m → Quiet n → Quiet (if c then m else n)
Quiet-if true km kn = km
Quiet-if false km kn = kn

pub ruleset quiet_rules =
    (Quiet->>=, Quiet-pure, Quiet-lift, Quiet-tracker_at, Quiet-state_at, Quiet-put_state, Quiet-if)

-- A call that reads the tracker of a batch, puts one with the same state, and goes on.
module _ {A : Type 0} (id : ℕ) (f : DataTracker → DataTracker) (k : DataTracker → M A)
    (keep : (t : DataTracker) → (f t).state ≡ t.state)
    (rest : (t : DataTracker) → Quiet (k t)) where
  abbrev onward : DataTracker → M A
  onward t = put_tracker id (f t) >>= (λ _. k t)

  onward-IsQuiet :
      (b : SuperTensorBuffer) (o : Option DataTracker)
      → get_elem? b.trackers id ≡ o
      → IsQuiet b (resume onward b (elim o [ none ↦ panic | some t ↦ ok t ])).0
  onward-IsQuiet b none e = IsQuiet-same b b refl refl
  onward-IsQuiet b (some t) e =
      IsQuiet-trans (IsQuiet-set b id t (f t) e (keep t))
        ((rest t).quiet (record b { trackers = set b.trackers id (f t) }))

  pub Quiet-update_tracker : Quiet (tracker_at id >>= (λ t. put_tracker id (f t) >>= (λ _. k t)))
  Quiet-update_tracker = record { quiet = λ b. onward-IsQuiet b (get_elem? b.trackers id) refl }
