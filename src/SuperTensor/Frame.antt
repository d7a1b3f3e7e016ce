-- ===== src/SuperTensor/Frame.antt =====
-- Calls on the buffer that leave its sizes and its three counters alone.
use toutates.Base.{ℕ, ◌≡◌, refl, ◌∙◌, Result, ok, err, panic, Bool, true, false, if◌then◌else◌}
use toutates.SuperTensor.Index.{Masks}
use toutates.Tensor.Errors.{InferError}
use toutates.SuperTensor.Buffer.{
  DataTracker, BatchState, SuperTensorBuffer, M, ◌>>=◌, resume, pure, lift, tracker_at, state_at,
  put_tracker, put_state,
}

pub record Frame : Type 0 where
  pub masks : Masks
  pub batch_size : ℕ
  pub capacity : ℕ
  pub head : ℕ
  pub executor_head : ℕ
  pub tail : ℕ

abbrev pub frame : SuperTensorBuffer → Frame
frame b = record {
  masks = b.masks;
  batch_size = b.batch_size;
  capacity = b.capacity;
  head = b.head;
  executor_head = b.executor_head;
  tail = b.tail;
}

pub record Keeps {A : Type 0} (m : M A) : Type 0 where
  pub kept : (b : SuperTensorBuffer) → frame (m b).0 ≡ frame b

module _ {A B : Type 0} where
  resume-frame :
      (f : A → M B) (b b' : SuperTensorBuffer) (r : Result InferError A)
      → frame b' ≡ frame b
      → ((a : A) → Keeps (f a))
      → frame (resume f b' r).0 ≡ frame b
  resume-frame f b b' (ok a) e k = (k a).kept b' ∙ e
  resume-frame f b b' (err x) e k = e
  resume-frame f b b' panic e k = e

  pub Keeps->>= : {m : M A} {f : A → M B} → Keeps m → ((a : A) → Keeps (f a)) → Keeps (m >>= f)
  Keeps->>= {m} {f} km kf = record { kept = λ b. resume-frame f b (m b).0 (m b).1 (km.kept b) kf }

pub Keeps-pure : {A : Type 0} (a : A) → Keeps (pure a)
Keeps-pure a = record { kept = λ b. refl }

pub Keeps-lift : {A : Type 0} (r : Result InferError A) → Keeps (lift r)
Keeps-lift r = record { kept = λ b. refl }

pub Keeps-tracker_at : (id : ℕ) → Keeps (tracker_at id)
Keeps-tracker_at id = record { kept = λ b. refl }

pub Keeps-state_at : (cell : ℕ) → Keeps (state_at cell)
Keeps-state_at cell = record { kept = λ b. refl }

pub Keeps-put_tracker : (id : ℕ) (t : DataTracker) → Keeps (put_tracker id t)
Keeps-put_tracker id t = record { kept = λ b. refl }

pub Keeps-put_state : (cell : ℕ) (s : BatchState) → Keeps (put_state cell s)
Keeps-put_state cell s = record { kept = λ b. refl }

pub Keeps-if : {A : Type 0} (c : Bool) {m n : M A} → Keeps m → Keeps n → Keeps (if c then m else n)
Keeps-if true km kn = km
Keeps-if false km kn = kn

pub ruleset frame_rules = (
  Keeps->>=, Keeps-pure, Keeps-lift, Keeps-tracker_at, Keeps-state_at, Keeps-put_tracker,
  Keeps-put_state, Keeps-if,
)

-- Two continuations that agree from the buffer that a call leaves.
pub resume_ext :
    {A B : Type 0} (f g : A → M B) (b : SuperTensorBuffer) (r : Result InferError A)
    → ((a : A) → f a b ≡ g a b)
    → resume f b r ≡ resume g b r
resume_ext f g b (ok a) e = e a
resume_ext f g b (err x) e = refl
resume_ext f g b panic e = refl
