-- ===== src/Metrics/Local/Sums.antt =====
-- What the calls of a thread in src/metrics/local.rs add up to in the registry.
use text.Mathlib.TextEquality.{eq_iff}
use mathlib.Core.Path.{subst}
use toutates.Base.{
  ap₂, ==_iff, ◌==◌, same_text, if◌then◌else◌, List, [], ◌∷◌, ◌++◌, append_assoc, none, some,
  Result, ok, ◌>>=◌, ◌&&◌, ◌≡◌, inl, inr, refl, sym, ap, ◌∙◌, arith, String, Bool-cases,
}
use toutates.Metrics.Local.{
  Instrument, place, Entry, Handles, PerModel, ThreadMetrics, find_model, record_on, flush_models,
  init_local_metrics, with_local_metrics, flush_local_metrics,
}
use toutates.Metrics.Local.Laws.{IsHandles, series_of, place-injective}
use toutates.Metrics.Local.Models.{
  IsTable, total, flush_models-total, flush_models-IsTable, flush_models-empty, same_text_self,
}
use toutates.Metrics.Local.Updates.{Recorded, record_on-Recorded}

-- What a thread does with its metrics after `init_local_metrics`.
pub data Event (V : Type 0) : Type 0 where
  recorded : Instrument → String → Entry V → Event V
  flushed : Event V

-- The entries that the events record at a field of a model, newest first.
unfoldable pub entries : {V : Type 0} → Instrument → String → List (Event V) → List (Entry V)
entries i model [] = []
entries i model (recorded j name e ∷ es) =
    entries i model es ++ (if (place j == place i) && same_text name model then e ∷ [] else [])
entries i model (flushed ∷ es) = entries i model es

module _ {V : Type 0} (h : Handles V) where
  unfoldable pub run_events :
      List (Event V) → ThreadMetrics h → h.Registry → Result String (ThreadMetrics h × h.Registry)
  run_events [] t r = ok (t, r)
  run_events (recorded i model e ∷ es) t r =
      with_local_metrics h i model e t >>= λ t'. run_events es t' r
  run_events (flushed ∷ es) t r = let (r', t') = flush_local_metrics h t r in run_events es t' r'

  run_events-recorded :
      (i : Instrument) (model : String) (e : Entry V) (es : List (Event V)) (t t₁ : PerModel h)
      (r : h.Registry)
      → record_on h i model e t ≡ ok t₁
      → run_events (recorded i model e ∷ es) (some t) r ≡ run_events es (some t₁) r
  unfolding run_events with_local_metrics
  run_events-recorded i model e es t t₁ r done = ground (arith, done)

  module _ (law : IsHandles h) where
    -- One entry more at a field of a model.
    abbrev HereTotal : Instrument → String → Entry V → PerModel h → PerModel h → h.Registry → Type 0
    HereTotal i model e t t' r = total h law t' r i model ≡ (e ∷ []) ++ total h law t r i model

    entry_total :
        (i j : Instrument) (n model : String) (e : Entry V) (t t' : PerModel h) (r : h.Registry)
        → Recorded h law j n e t t'
        → total h law t' r i model
          ≡ (if (place j == place i) && same_text n model then e ∷ [] else [])
            ++ total h law t r i model
    entry_total i j n model e t t' r change = elim (Bool-cases (place j == place i)) [
      | inr other ↦ rw other (
          ap (λ x. x ++ law.recorded r (series_of i model))
            (change.elsewhere model i (inr (λ is. absurd (ground (arith, other, ap place is))))))
      | inl same ↦ elim (Bool-cases (same_text n model)) [
        | inr other ↦
            rw (same, other)
              (ap (λ x. x ++ law.recorded r (series_of i model))
                (change.elsewhere model i
                  (inl (λ is. absurd (ground (arith, is, other, same_text_self n))))))
        | inl same' ↦
            rw (same, same')
              (subst {A = Instrument × String} (λ p. HereTotal p.0 p.1 e t t' r)
                (ap₂ (λ x y. (x, y)) (place-injective j i ((==_iff (place j) (place i)).0 same))
                  ((eq_iff n model).0 same'))
                (ap (λ x. x ++ law.recorded r (series_of j n)) change.here))
      ]
    ]

    run_events-total :
        (es : List (Event V)) (t : PerModel h) (r : h.Registry)
        → IsTable h law t
        → (t' : PerModel h) × (r' : h.Registry) × (run_events es (some t) r ≡ ok (some t', r'))
          × IsTable h law t'
          × ((i : Instrument) (model : String)
              → total h law t' r' i model ≡ entries i model es ++ total h law t r i model)
    unfolding run_events with_local_metrics flush_local_metrics entries
    run_events-total [] t r w = (t, r, refl, w, λ i model. refl)
    run_events-total (recorded j n e ∷ es) t r w =
        let (t₁, done, change) = record_on-Recorded h law j n e t w in
        let (t', r', ran, w', sums) = run_events-total es t₁ r change.table in
        (
          t',
          r',
          run_events-recorded j n e es t t₁ r done ∙ ran,
          w',
          λ i model.
              sums i model
              ∙ ap (λ x. entries i model es ++ x) (entry_total i j n model e t t₁ r change)
              ∙ sym (append_assoc (entries i model es) _ _),
        )
    run_events-total (flushed ∷ es) t r w =
        let (t', r', ran, w', sums) =
          run_events-total es (flush_models h t r).1 (flush_models h t r).0
            (flush_models-IsTable h law t r w) in
        (
          t',
          r',
          ran,
          w',
          λ i model.
              sums i model
              ∙ ap (λ x. entries i model es ++ x) (flush_models-total h law t r i model w),
        )

    -- Of a thread that starts its metrics anew, records and flushes in any order, and flushes at the
    -- end: no call panics, and the registry then holds at the series of each field of each model
    -- what was recorded there, once, and before it what the registry held at the start.
    pub run_events-entries :
        (es : List (Event V)) (r : h.Registry)
        → (t : PerModel h) × (r' : h.Registry) × (run_events es
              (init_local_metrics h none r).1
              (init_local_metrics h none r).0
            ≡ ok (some t, r'))
          × ((i : Instrument) (model : String)
              → law.recorded (flush_local_metrics h (some t) r').0 (series_of i model)
                ≡ entries i model es ++ law.recorded r (series_of i model))
    unfolding init_local_metrics flush_local_metrics find_model
    run_events-entries es r =
        let (t, r', ran, w, sums) = run_events-total es [] r tt in
        (
          t,
          r',
          ran,
          λ i model.
              ap (λ x. x ++ law.recorded (flush_models h t r').0 (series_of i model))
                (sym (flush_models-empty h law t r' i model w))
              ∙ flush_models-total h law t r' i model w
              ∙ sums i model,
        )
