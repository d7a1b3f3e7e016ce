-- ===== src/Metrics/Local/Flush.antt =====
-- What a flush of src/metrics/local.rs gives to the registry.
use mathlib.Core.Path.{subst}
use toutates.Base.{
  ℕ, zero, suc, ◌==◌, ==_iff, List, [], ◌∷◌, ◌++◌, get_elem?, some, ◌≡◌, ◌≢◌, ◌⊎◌, inl, inr, refl,
  sym, ap, ap₂, ◌∙◌, arith, String, true, false, Bool-cases,
}
use toutates.Metrics.Local.{
  Instrument, place, all_instruments, Series, Handles, LocalModelMetrics, set_field, flush_fields,
}
use toutates.Metrics.Local.Laws.{
  IsHandles, series_of, series_of-injective, get_elem?-place, place-injective,
}

pub place_self : (i : Instrument) → (place i == place i) ≡ true
place_self i = (==_iff (place i) (place i)).1 refl

pub place_other : (i j : Instrument) → i ≢ j → (place i == place j) ≡ false
place_other i j ne = elim (Bool-cases (place i == place j)) [
  | inl same ↦ absurd (ne (place-injective i j ((==_iff (place i) (place j)).0 same)))
  | inr other ↦ other
]

module _ {V : Type 0} (h : Handles V) (law : IsHandles h) where
  -- The struct of a model has each of its series' handles.
  abbrev pub IsModel : String → LocalModelMetrics h → Type 0
  IsModel name m = (i : Instrument) → law.series (m i) ≡ series_of i name

  -- What a flush of some fields does to the struct of a model and to the registry.
  pub record Flushed (name : String) (m m' : LocalModelMetrics h) (r r' : h.Registry) : Type 0 where
    pub handles : IsModel name m'
    pub total :
        (i : Instrument)
        → law.pending (m' i) ++ law.recorded r' (series_of i name)
          ≡ law.pending (m i) ++ law.recorded r (series_of i name)
    pub others :
        (s : Series)
        → ((i : Instrument) → s ≢ series_of i name)
        → law.recorded r' s ≡ law.recorded r s
    pub emptied_before : (i : Instrument) → law.pending (m i) ≡ [] → law.pending (m' i) ≡ []

  Flushed-none :
      (name : String) (m : LocalModelMetrics h) (r : h.Registry)
      → IsModel name m
      → Flushed name m m r r
  Flushed-none name m r w = record {
    handles = w;
    total = λ i. refl;
    others = λ s n. refl;
    emptied_before = λ i e. e;
  }

  Flushed-trans :
      (name : String) (m₀ m₁ m₂ : LocalModelMetrics h) (r₀ r₁ r₂ : h.Registry)
      → Flushed name m₀ m₁ r₀ r₁
      → Flushed name m₁ m₂ r₁ r₂
      → Flushed name m₀ m₂ r₀ r₂
  Flushed-trans name m₀ m₁ m₂ r₀ r₁ r₂ p q = record {
    handles = q.handles;
    total = λ i. q.total i ∙ p.total i;
    others = λ s n. q.others s n ∙ p.others s n;
    emptied_before = λ i e. q.emptied_before i (p.emptied_before i e);
  }

  module _ (name : String) (i : Instrument) (m : LocalModelMetrics h) (r : h.Registry)
      (w : IsModel name m) where
    abbrev one : LocalModelMetrics h
    one = set_field h i (h.flush (m i) r).1 m

    -- A field of the struct after the flush of field `i`.
    one_field :
        (j : Instrument) → ((i ≡ j) × (one j ≡ (h.flush (m i) r).1)) ⊎ ((i ≢ j) × (one j ≡ m j))
    one_field j = elim (Bool-cases (place i == place j)) [
      | inl same ↦ inl (place-injective i j ((==_iff (place i) (place j)).0 same), rw same refl)
      | inr other ↦ inr (λ e. absurd (ground (arith, e, other, place_self i)), rw other refl)
    ]

    one-empty : law.pending (one i) ≡ []
    one-empty = rw (place_self i) (law.flush_pending (m i) r)

    one-total :
        law.pending (one i) ++ law.recorded (h.flush (m i) r).0 (series_of i name)
        ≡ law.pending (m i) ++ law.recorded r (series_of i name)
    one-total =
        ap (λ x. x ++ law.recorded (h.flush (m i) r).0 (series_of i name)) one-empty
        ∙ rw (sym (w i)) (law.flush_recorded (m i) r)

    flush_one : Flushed name m one r (h.flush (m i) r).0
    flush_one = record {
      handles = λ j. elim (one_field j) [
        | inl (here, e) ↦
            ap law.series e ∙ law.flush_series (m i) r ∙ w i ∙ ap (λ k. series_of k name) here
        | inr (_, e) ↦ ap law.series e ∙ w j
      ];
      total = λ j. elim (one_field j) [
        | inl (here, e) ↦
            subst
              (λ k.
                law.pending (one k) ++ law.recorded (h.flush (m i) r).0 (series_of k name)
                ≡ law.pending (m k) ++ law.recorded r (series_of k name))
              here one-total
        | inr (ne, e) ↦
            ap₂ (λ x y. x ++ y) (ap law.pending e)
              (law.flush_others (m i) r (series_of j name)
                (λ same. ne (sym ((series_of-injective j i name name (same ∙ w i)).0))))
      ];
      others = λ s n. law.flush_others (m i) r s (λ same. n i (same ∙ w i));
      emptied_before = λ j empty. elim (one_field j) [
        | inl (here, e) ↦ ap law.pending e ∙ law.flush_pending (m i) r
        | inr (_, e) ↦ ap law.pending e ∙ empty
      ];
    }

  flush_fields-Flushed :
      (name : String) (is : List Instrument) (m : LocalModelMetrics h) (r : h.Registry)
      → IsModel name m
      → Flushed name m (flush_fields h is m r).1 r (flush_fields h is m r).0
  unfolding flush_fields
  flush_fields-Flushed name [] m r w = Flushed-none name m r w
  flush_fields-Flushed name (i ∷ is) m r w =
      let first = flush_one name i m r w in
      Flushed-trans name m (one name i m r w) _ r (h.flush (m i) r).0 _ first
        (flush_fields-Flushed name is (one name i m r w) (h.flush (m i) r).0 first.handles)

  flush_fields-empty :
      (name : String) (is : List Instrument) (k : ℕ) (i : Instrument) (m : LocalModelMetrics h)
      (r : h.Registry)
      → IsModel name m
      → get_elem? is k ≡ some i
      → law.pending ((flush_fields h is m r).1 i) ≡ []
  unfolding flush_fields
  flush_fields-empty name [] k i m r w e = absurd (ground arith)
  flush_fields-empty name (j ∷ is) zero i m r w e =
      let here : j ≡ i = ground arith in
      let first = flush_one name j m r w in
      (flush_fields-Flushed name is (one name j m r w) (h.flush (m j) r).0
          first.handles).emptied_before
        i (rw (sym here) (one-empty name j m r w))
  flush_fields-empty name (j ∷ is) (suc k) i m r w e =
      let first = flush_one name j m r w in
      flush_fields-empty name is k i (one name j m r w) (h.flush (m j) r).0 first.handles e

  -- A flush of all fields of a model.
  pub flush_model-Flushed :
      (name : String) (m : LocalModelMetrics h) (r : h.Registry)
      → IsModel name m
      → Flushed name m
          (flush_fields h all_instruments m r).1
          r
          (flush_fields h all_instruments m r).0
  flush_model-Flushed name m r w = flush_fields-Flushed name all_instruments m r w

  pub flush_model-empty :
      (name : String) (i : Instrument) (m : LocalModelMetrics h) (r : h.Registry)
      → IsModel name m
      → law.pending ((flush_fields h all_instruments m r).1 i) ≡ []
  flush_model-empty name i m r w =
      flush_fields-empty name all_instruments (place i) i m r w (get_elem?-place i)
