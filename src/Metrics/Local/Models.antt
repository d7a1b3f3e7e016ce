-- ===== src/Metrics/Local/Models.antt =====
-- The table of models of src/metrics/local.rs: what a call records in it, and what a flush of it does.
use text.Mathlib.TextEquality.{eq_iff}
use mathlib.Core.Path.{subst}
use toutates.Base.{
  same_text, List, [], ◌∷◌, ◌++◌, Option, none, some, ◌≡◌, ◌≢◌, inl, inr, refl, ap, ◌∙◌, arith,
  String, true, false, Bool-cases,
}
use toutates.Metrics.Local.{
  Instrument, all_instruments, Entry, Handles, LocalModelMetrics, PerModel, find_model,
  flush_fields, flush_models,
}
use toutates.Metrics.Local.Laws.{IsHandles, series_of, series_of-injective}
use toutates.Metrics.Local.Flush.{IsModel, flush_model-Flushed, flush_model-empty}

pub same_text_self : (s : String) → same_text s s ≡ true
same_text_self s = (eq_iff s s).1 refl

other_series :
    (name n : String) (i : Instrument)
    → same_text name n ≡ false
    → (k : Instrument) → series_of i n ≢ series_of k name
other_series name n i other k same =
    let e : n ≡ name = (series_of-injective i k n name same).1 in
    absurd (ground (arith, e, other, same_text_self name))

module _ {V : Type 0} (h : Handles V) (law : IsHandles h) where
  -- Each model once, with the handles of its series.
  abbrev pub IsTable : PerModel h → Type 0
  IsTable [] = Unit {0}
  IsTable ((name, m) ∷ rest) = IsModel h law name m × (find_model h name rest ≡ none) × IsTable rest

  -- What is held back for a field of a model.
  abbrev pub held : Option (LocalModelMetrics h) → Instrument → List (Entry V)
  held none i = []
  held (some m) i = law.pending (m i)

  -- All that was recorded at the series of a field of a model, flushed or not.
  abbrev pub total : PerModel h → h.Registry → Instrument → String → List (Entry V)
  total t r i model = held (find_model h model t) i ++ law.recorded r (series_of i model)

  flush_models-absent :
      (n : String) (t : PerModel h) (r : h.Registry)
      → find_model h n t ≡ none
      → find_model h n (flush_models h t r).1 ≡ none
  unfolding find_model flush_models
  flush_models-absent n [] r e = refl
  flush_models-absent n ((name, m) ∷ rest) r e =
      ground (arith, flush_models-absent n rest (flush_fields h all_instruments m r).0)

  pub flush_models-IsTable :
      (t : PerModel h) (r : h.Registry) → IsTable t → IsTable (flush_models h t r).1
  unfolding flush_models
  flush_models-IsTable [] r w = tt
  flush_models-IsTable ((name, m) ∷ rest) r (wm, absent, wr) = (
    (flush_model-Flushed h law name m r wm).handles,
    flush_models-absent name rest (flush_fields h all_instruments m r).0 absent,
    flush_models-IsTable rest (flush_fields h all_instruments m r).0 wr,
  )

  -- A flush of a table leaves the series of the models that it does not have alone.
  flush_models-other :
      (t : PerModel h) (r : h.Registry) (i : Instrument) (n : String)
      → IsTable t
      → find_model h n t ≡ none
      → law.recorded (flush_models h t r).0 (series_of i n) ≡ law.recorded r (series_of i n)
  unfolding find_model flush_models
  flush_models-other [] r i n w e = refl
  flush_models-other ((name, m) ∷ rest) r i n (wm, absent, wr) e =
      elim (Bool-cases (same_text name n)) [
        | inl same ↦ absurd (ground (arith, same, e))
        | inr other ↦
            flush_models-other rest (flush_fields h all_instruments m r).0 i n wr
              (ground (arith, other, e))
            ∙ (flush_model-Flushed h law name m r wm).others (series_of i n)
                (other_series name n i other)
      ]

  -- The total of a field of the first model of a table, over a flush of the table.
  abbrev TotalKept :
      String → LocalModelMetrics h → PerModel h → h.Registry → Instrument → String → Type 0
  TotalKept name m rest r i n =
      law.pending ((flush_fields h all_instruments m r).1 i)
        ++ law.recorded (flush_models h rest (flush_fields h all_instruments m r).0).0
            (series_of i n)
      ≡ law.pending (m i) ++ law.recorded r (series_of i n)

  pub flush_models-total :
      (t : PerModel h) (r : h.Registry) (i : Instrument) (n : String)
      → IsTable t
      → total (flush_models h t r).1 (flush_models h t r).0 i n ≡ total t r i n
  unfolding find_model flush_models
  flush_models-total [] r i n w = refl
  flush_models-total ((name, m) ∷ rest) r i n (wm, absent, wr) =
      let first = flush_model-Flushed h law name m r wm in
      let r₁ = (flush_fields h all_instruments m r).0 in
      elim (Bool-cases (same_text name n)) [
        | inl same ↦ rw same (
            subst (λ k. TotalKept name m rest r i k) ((eq_iff name n).0 same)
              (ap (λ x. law.pending ((flush_fields h all_instruments m r).1 i) ++ x)
                  (flush_models-other rest r₁ i name wr absent)
                ∙ first.total i))
        | inr other ↦ rw other (
            flush_models-total rest r₁ i n wr
            ∙ ap (λ x. held (find_model h n rest) i ++ x)
                (first.others (series_of i n) (other_series name n i other)))
      ]

  pub flush_models-empty :
      (t : PerModel h) (r : h.Registry) (i : Instrument) (n : String)
      → IsTable t
      → held (find_model h n (flush_models h t r).1) i ≡ []
  unfolding find_model flush_models
  flush_models-empty [] r i n w = refl
  flush_models-empty ((name, m) ∷ rest) r i n (wm, absent, wr) =
      elim (Bool-cases (same_text name n)) [
        | inl same ↦ rw same (flush_model-empty h law name i m r wm)
        | inr other ↦
            rw other (flush_models-empty rest (flush_fields h all_instruments m r).0 i n wr)
      ]
