-- ===== src/SuperTensor/Ring/Calm.antt =====
-- Calls on the buffer of src/tensor/supertensor.rs that leave its counters and sizes alone and do
-- not mark any batch as done.
use toutates.Base.{
  ℕ, get_elem?, length, set, length-set, get_elem?-set_self, get_elem?-set_ne, get_elem?-bound,
  none, some, Result, ok, err, panic, Bool, true, false, if◌then◌else◌, ◌==◌, ◌≡◌, refl, sym, ap,
  ◌∙◌, arith, ℕ_discrete, Option,
}
use toutates.Tensor.Errors.{InferError}
use toutates.SuperTensor.Buffer.{
  DataTracker, BatchState, SuperTensorBuffer, M, ◌>>=◌, resume, pure, lift, tracker_at, state_at,
  put_tracker, put_state,
}
use toutates.SuperTensor.Frame.{frame}

pub record IsCalm (b c : SuperTensorBuffer) : Type 0 where
  pub same_frame : frame c ≡ frame b
  pub same_length : length c.trackers ≡ length b.trackers
  pub done_before :
      (i : ℕ) (u : DataTracker)
      → get_elem? c.trackers i ≡ some u
      → (u.dirty == 2) ≡ true
      → (v : DataTracker) × (get_elem? b.trackers i ≡ some v) × ((v.dirty == 2) ≡ true)

pub IsCalm-same :
    (b c : SuperTensorBuffer) → frame c ≡ frame b → c.trackers ≡ b.trackers → IsCalm b c
IsCalm-same b c ef et = record {
  same_frame = ef;
  same_length = rw et refl;
  done_before = λ i u e d. (u, rw (sym et) e, d);
}

IsCalm-trans : {b c d : SuperTensorBuffer} → IsCalm b c → IsCalm c d → IsCalm b d
IsCalm-trans p q = record {
  same_frame = q.same_frame ∙ p.same_frame;
  same_length = q.same_length ∙ p.same_length;
  done_before = λ i u e d. let (v, ev, dv) = q.done_before i u e d in p.done_before i v ev dv;
}

-- The tracker of batch `id` becomes one that is only done if the old one was.
pub IsCalm-set :
    (b : SuperTensorBuffer) (id : ℕ) (t t' : DataTracker)
    → get_elem? b.trackers id ≡ some t
    → ((t'.dirty == 2) ≡ true → (t.dirty == 2) ≡ true)
    → IsCalm b (record b { trackers = set b.trackers id t' })
IsCalm-set b id t t' found keep = record {
  same_frame = refl;
  same_length = length-set b.trackers id t';
  done_before = λ i u e d. elim (ℕ_discrete id i) [
    | yes here ↦
        (let now : get_elem? (set b.trackers id t') id ≡ some t' =
            get_elem?-set_self b.trackers id t' (get_elem?-bound b.trackers id t found) in
          let e' : get_elem? (set b.trackers id t') id ≡ some u =
            ap (λ j. get_elem? (set b.trackers id t') j) here ∙ e in
          (t, rw (sym here) found, keep (ground arith)))
    | no elsewhere ↦ (u, sym (get_elem?-set_ne b.trackers id i t' elsewhere) ∙ e, d)
  ];
}

pub record Calm {A : Type 0} (m : M A) : Type 0 where
  pub calm : (b : SuperTensorBuffer) → IsCalm b (m b).0

module _ {A B : Type 0} where
  resume-IsCalm :
      (f : A → M B) (b b' : SuperTensorBuffer) (r : Result InferError A)
      → IsCalm b b'
      → ((a : A) → Calm (f a))
      → IsCalm b (resume f b' r).0
  resume-IsCalm f b b' (ok a) p k = IsCalm-trans p ((k a).calm b')
  resume-IsCalm f b b' (err x) p k = p
  resume-IsCalm f b b' panic p k = p

  pub Calm->>= : {m : M A} {f : A → M B} → Calm m → ((a : A) → Calm (f a)) → Calm (m >>= f)
  Calm->>= {m} {f} km kf = record { calm = λ b. resume-IsCalm f b (m b).0 (m b).1 (km.calm b) kf }

pub Calm-pure : {A : Type 0} (a : A) → Calm (pure a)
Calm-pure a = record { calm = λ b. IsCalm-same b b refl refl }

pub Calm-lift : {A : Type 0} (r : Result InferError A) → Calm (lift r)
Calm-lift r = record { calm = λ b. IsCalm-same b b refl refl }

pub Calm-tracker_at : (id : ℕ) → Calm (tracker_at id)
Calm-tracker_at id = record { calm = λ b. IsCalm-same b b refl refl }

pub Calm-state_at : (cell : ℕ) → Calm (state_at cell)
Calm-state_at cell = record { calm = λ b. IsCalm-same b b refl refl }

pub Calm-put_state : (cell : ℕ) (s : BatchState) → Calm (put_state cell s)
Calm-put_state cell s = record { calm = λ b. IsCalm-same b _ refl refl }

pub Calm-if : {A : Type 0} (c : Bool) {m n : M A} → Calm m → Calm n → Calm (if c then m else n)
Calm-if true km kn = km
Calm-if false km kn = kn

pub ruleset calm_rules =
    (Calm->>=, Calm-pure, Calm-lift, Calm-tracker_at, Calm-state_at, Calm-put_state, Calm-if)

-- A call that reads the tracker of a batch, puts one that is only done if that was, and goes on.
module _ {A : Type 0} (id : ℕ) (f : DataTracker → DataTracker) (k : DataTracker → M A)
    (keep : (t : DataTracker) → ((f t).dirty == 2) ≡ true → (t.dirty == 2) ≡ true)
    (rest : (t : DataTracker) → Calm (k t)) where
  abbrev onward : DataTracker → M A
  onward t = put_tracker id (f t) >>= (λ _. k t)

  onward-IsCalm :
      (b : SuperTensorBuffer) (o : Option DataTracker)
      → get_elem? b.trackers id ≡ o
      → IsCalm b (resume onward b (elim o [ none ↦ panic | some t ↦ ok t ])).0
  onward-IsCalm b none e = IsCalm-same b b refl refl
  onward-IsCalm b (some t) e =
      IsCalm-trans (IsCalm-set b id t (f t) e (keep t))
        ((rest t).calm (record b { trackers = set b.trackers id (f t) }))

  pub Calm-update_tracker : Calm (tracker_at id >>= (λ t. put_tracker id (f t) >>= (λ _. k t)))
  Calm-update_tracker = record { calm = λ b. onward-IsCalm b (get_elem? b.trackers id) refl }
