-- ===== src/Metrics/Local/Updates.antt =====
-- What a call of src/metrics/local.rs records in the table of models.
use text.Mathlib.TextEquality.{eq_iff}
use mathlib.Core.Path.{subst}
use toutates.Base.{
  ◌==◌, ==_iff, same_text, [], ◌∷◌, none, some, ok, ◌≡◌, ◌≢◌, ◌⊎◌, inl, inr, refl, sym, ap, ◌∙◌,
  arith, String, Bool-cases, Option-cases,
}
use toutates.Metrics.Local.{
  Instrument, place, Entry, Handles, LocalModelMetrics, PerModel, find_model, new_model,
  ensure_model, set_field, update_field, record_on,
}
use toutates.Metrics.Local.Laws.{IsHandles, series_of, place-injective}
use toutates.Metrics.Local.Flush.{IsModel, place_self, place_other}
use toutates.Metrics.Local.Models.{IsTable, held, same_text_self}

module _ {V : Type 0} (h : Handles V) (law : IsHandles h) (i : Instrument) (model : String)
    (e : Entry V) where
  -- A table after one entry more at the field `i` of the model.
  pub record Recorded (t t' : PerModel h) : Type 0 where
    pub table : IsTable h law t'
    pub absent : (n : String) → find_model h n t ≡ none → n ≢ model → find_model h n t' ≡ none
    pub here : held h law (find_model h model t') i ≡ e ∷ held h law (find_model h model t) i
    pub elsewhere :
        (n : String) (j : Instrument)
        → (n ≢ model) ⊎ (i ≢ j)
        → held h law (find_model h n t') j ≡ held h law (find_model h n t) j

  set_field-IsModel :
      (m : LocalModelMetrics h)
      → IsModel h law model m
      → IsModel h law model (set_field h i (h.record_entry e (m i)) m)
  set_field-IsModel m w j = elim (Bool-cases (place i == place j)) [
    | inl same ↦
        (let here : i ≡ j = place-injective i j ((==_iff (place i) (place j)).0 same) in
          rw same (law.record_series e (m i) ∙ w i ∙ ap (λ k. series_of k model) here))
    | inr other ↦ rw other (w j)
  ]

  set_field-other :
      (m : LocalModelMetrics h) (x : h.Handle) (j : Instrument) → i ≢ j → set_field h i x m j ≡ m j
  set_field-other m x j ne = rw (place_other i j ne) refl

  update_field-Recorded :
      (t : PerModel h) (m : LocalModelMetrics h)
      → IsTable h law t
      → find_model h model t ≡ some m
      → (t' : PerModel h) × (update_field h i model e t ≡ ok t') × Recorded t t'
  unfolding find_model update_field
  update_field-Recorded [] m w found = absurd (ground (arith, found))
  update_field-Recorded ((name, m₀) ∷ rest) m (wm, once, wr) found =
      elim (Bool-cases (same_text name model)) [
        | inl same ↦
            (let is : name ≡ model = (eq_iff name model).0 same in
              (
                (name, set_field h i (h.record_entry e (m₀ i)) m₀) ∷ rest,
                rw same refl,
                record {
                  table = (rw is (set_field-IsModel m₀ (rw is at wm)), once, wr);
                  absent = λ n none_there ne. ground (arith, none_there);
                  here = rw (same, place_self i) (law.record_pending e (m₀ i));
                  elsewhere = λ n j far. elim (Bool-cases (same_text name n)) [
                    | inl same' ↦ rw same' (elim far [
                      | inl ne ↦ absurd (ne (sym ((eq_iff name n).0 same') ∙ is))
                      | inr ne ↦ ap law.pending (set_field-other m₀ _ j ne)
                    ])
                    | inr other ↦ rw other refl
                  ];
                },
              ))
        | inr other ↦
            (let (t', done, r) = update_field-Recorded rest m wr (ground (arith, other, found)) in
              (
                (name, m₀) ∷ t',
                rw (other, done) refl,
                record {
                  table = (
                    wm,
                    r.absent name once
                        (λ is. absurd (ground (arith, is, other, same_text_self model))),
                    r.table,
                  );
                  absent = λ n none_there ne. ground (arith, none_there, r.absent n, ne);
                  here = rw other r.here;
                  elsewhere = λ n j far. elim (Bool-cases (same_text name n)) [
                    | inl same' ↦ rw same' refl
                    | inr other' ↦ rw other' (r.elsewhere n j far)
                  ];
                },
              ))
      ]

  Recorded-from :
      (t₀ t t' : PerModel h)
      → ((n : String) → find_model h n t ≡ none → n ≢ model → find_model h n t₀ ≡ none)
      → ((n : String) (j : Instrument)
          → held h law (find_model h n t₀) j ≡ held h law (find_model h n t) j)
      → Recorded t₀ t'
      → Recorded t t'
  Recorded-from t₀ t t' none_too same r = record {
    table = r.table;
    absent = λ n gone ne. r.absent n (none_too n gone ne) ne;
    here = r.here ∙ ap (λ x. e ∷ x) (same model i);
    elsewhere = λ n j far. r.elsewhere n j far ∙ same n j;
  }

  added : PerModel h → PerModel h
  added t = (model, new_model h model) ∷ t

  ensure_model-missing :
      (t : PerModel h) → find_model h model t ≡ none → ensure_model h model t ≡ added t
  unfolding ensure_model added
  ensure_model-missing t missing = rw (missing, ensure_model) refl

  ensure_model-found :
      (t : PerModel h) (m : LocalModelMetrics h)
      → find_model h model t ≡ some m
      → ensure_model h model t ≡ t
  unfolding ensure_model
  ensure_model-found t m found = rw (found, ensure_model) refl

  find_model-added : (t : PerModel h) → find_model h model (added t) ≡ some (new_model h model)
  unfolding find_model added
  find_model-added t = rw (same_text_self model) refl

  added-IsTable :
      (t : PerModel h) → IsTable h law t → find_model h model t ≡ none → IsTable h law (added t)
  unfolding added new_model series_of
  added-IsTable t w missing = ((λ j. law.local_series (series_of j model)), missing, w)

  added-absent :
      (t : PerModel h) (n : String)
      → find_model h n t ≡ none
      → n ≢ model
      → find_model h n (added t) ≡ none
  unfolding added find_model
  added-absent t n gone ne = elim (Bool-cases (same_text model n)) [
    | inl same ↦ absurd (ne (sym ((eq_iff model n).0 same)))
    | inr other ↦ rw other gone
  ]

  added-held :
      (t : PerModel h) (n : String) (j : Instrument)
      → find_model h model t ≡ none
      → held h law (find_model h n (added t)) j ≡ held h law (find_model h n t) j
  unfolding added find_model new_model
  added-held t n j missing = elim (Bool-cases (same_text model n)) [
    | inl same ↦
        (let none_there : find_model h n t ≡ none =
            subst (λ k. find_model h k t ≡ none) ((eq_iff model n).0 same) missing in
          rw (same, none_there) (law.local_pending _))
    | inr other ↦ rw other refl
  ]

  -- A call finds the model or adds it, and records one entry at its field.
  pub record_on-Recorded :
      (t : PerModel h)
      → IsTable h law t
      → (t' : PerModel h) × (record_on h i model e t ≡ ok t') × Recorded t t'
  unfolding record_on
  record_on-Recorded t w = elim (Option-cases (find_model h model t)) [
    | inr (m, found) ↦
        (let (t', done, r) = update_field-Recorded t m w found in
          (t', ap (update_field h i model e) (ensure_model-found t m found) ∙ done, r))
    | inl missing ↦
        (let (t', done, r) =
            update_field-Recorded (added t) (new_model h model) (added-IsTable t w missing)
              (find_model-added t) in
          (
            t',
            ap (update_field h i model e) (ensure_model-missing t missing) ∙ done,
            Recorded-from (added t) t t' (added-absent t) (λ n j. added-held t n j missing) r,
          ))
  ]
