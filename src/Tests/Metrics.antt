-- ===== src/Tests/Metrics.antt =====
-- A registry of the two parts that src/metrics uses, and a thread that records in it.
use text.Mathlib.TextEquality.{eq_iff}
use mathlib.Core.HLevel.{×_discrete}
use mathlib.Core.List.{List-discrete}
use toutates.Base.{
  ℕ, ltb, ◌&&◌, same_text, if◌then◌else◌, List, [], ◌∷◌, ◌++◌, get_elem?, none, some, ok, ◌≡◌, ◌≢◌,
  inl, inr, refl, sym, ap, ◌∙◌, arith, String, true, Bool-cases, ℕ_discrete,
}
use toutates.Metrics.Registry.{
  Buckets, Prometheus, Family, opts, all_families, new_registry, inference_requests_total,
  inference_batches_total, inference_batch_items, inference_client_batch_size,
  inference_request_duration_seconds, inference_batch_duration_seconds,
  inference_model_execution_seconds, inference_model_session_run_seconds,
  inference_model_h2d_copy_seconds, inference_model_d2h_copy_seconds,
  inference_requests_model_proxy_aquired, inference_requests_serialization_done,
  inference_requests_inference_in_queue, inference_requests_inference_exec_start,
  inference_requests_inference_exec_end, inference_requests_output_processed, inference_inflight,
  inference_capacity, inference_executors_in_use, inference_configured_batch_size, loaded_models,
}
use toutates.Metrics.Registry.Accepted.{accepts}
use toutates.Metrics.Registry.Unique.{has_name, IsPrometheus, new_registry-ok}
use toutates.Metrics.Local.{
  Instrument, Series, Entry, inc, observe, Handles, PerModel, init_local_metrics,
  flush_local_metrics, requests_ok, batch_items,
}
use toutates.Metrics.Local.Laws.{IsHandles, series_of}
use toutates.Metrics.Local.Sums.{Event, recorded, flushed, entries, run_events, run_events-entries}

-- A registry as the names that it holds, a collector as its name, and bounds as what they are made
-- of; nothing is made of what is not accepted.
abbrev names_crate : Prometheus (List String) String Buckets
names_crate = record {
  exponential_buckets =
      λ b. if ltb 0 b.start && ltb 1 b.factor && ltb 0 b.count then some b else none;
  new_collector = λ o bounds. if accepts o then some o.name else none;
  register = λ ns n. if has_name ns n then none else some (n ∷ ns);
}

abbrev names_crate-IsPrometheus : IsPrometheus names_crate []
names_crate-IsPrometheus = record {
  names = λ ns. ns;
  name_of = λ n. n;
  names_empty = refl;
  makes_bounds = λ b start factor count. (b, ground (arith, start, factor, count));
  makes_collector = λ o bounds valid bounded. (o.name, rw valid refl, refl);
  registers = λ ns n new. (n ∷ ns, rw new refl, refl);
}

new_registry-ok_example :
    (r : List String) × (new_registry names_crate [] ≡ ok r)
    × ((f : Family) → has_name r (opts f).name ≡ true)
new_registry-ok_example = new_registry-ok names_crate [] names_crate-IsPrometheus

string_discrete : Discrete String
string_discrete s t = elim (Bool-cases (same_text s t)) [
  | inl same ↦ yes ((eq_iff s t).0 same)
  | inr other ↦ no (λ e. absurd (ground (arith, e, other, (eq_iff t t).1 refl)))
]

number : Family → ℕ
number inference_requests_total = 0
number inference_batches_total = 1
number inference_batch_items = 2
number inference_client_batch_size = 3
number inference_request_duration_seconds = 4
number inference_batch_duration_seconds = 5
number inference_model_execution_seconds = 6
number inference_model_session_run_seconds = 7
number inference_model_h2d_copy_seconds = 8
number inference_model_d2h_copy_seconds = 9
number inference_requests_model_proxy_aquired = 10
number inference_requests_serialization_done = 11
number inference_requests_inference_in_queue = 12
number inference_requests_inference_exec_start = 13
number inference_requests_inference_exec_end = 14
number inference_requests_output_processed = 15
number inference_inflight = 16
number inference_capacity = 17
number inference_executors_in_use = 18
number inference_configured_batch_size = 19
number loaded_models = 20

numbered : (f : Family) → get_elem? all_families (number f) ≡ some f
unfolding all_families number
numbered inference_requests_total = refl
numbered inference_batches_total = refl
numbered inference_batch_items = refl
numbered inference_client_batch_size = refl
numbered inference_request_duration_seconds = refl
numbered inference_batch_duration_seconds = refl
numbered inference_model_execution_seconds = refl
numbered inference_model_session_run_seconds = refl
numbered inference_model_h2d_copy_seconds = refl
numbered inference_model_d2h_copy_seconds = refl
numbered inference_requests_model_proxy_aquired = refl
numbered inference_requests_serialization_done = refl
numbered inference_requests_inference_in_queue = refl
numbered inference_requests_inference_exec_start = refl
numbered inference_requests_inference_exec_end = refl
numbered inference_requests_output_processed = refl
numbered inference_inflight = refl
numbered inference_capacity = refl
numbered inference_executors_in_use = refl
numbered inference_configured_batch_size = refl
numbered loaded_models = refl

number-injective : (f g : Family) → number f ≡ number g → f ≡ g
number-injective f g e =
    out f g (sym (numbered f) ∙ ap (λ k. get_elem? all_families k) e ∙ numbered g)
  where
    out : (f g : Family) → some f ≡ some g → f ≡ g
    out f g e = ground arith

family_discrete : Discrete Family
family_discrete f g = elim (ℕ_discrete (number f) (number g)) [
  | yes same ↦ yes (number-injective f g same)
  | no other ↦ no (λ e. other (ap number e))
]

series_discrete : Discrete Series
series_discrete = ×_discrete family_discrete (List-discrete string_discrete)

-- A registry as what each series holds, and a handle as a series and what is held back for it.
abbrev Held : Type 0
Held = Series × List (Entry ℕ)

abbrev Store : Type 0
Store = Series → List (Entry ℕ)

abbrev flush_held : Held → Store → Store × Held
flush_held (s, p) r =
    ((λ s'. elim (series_discrete s' s) [ yes _ ↦ p ++ r s' | no _ ↦ r s' ]), (s, []))

abbrev held_handles : Handles ℕ
held_handles = record {
  Registry = Store;
  Handle = Held;
  local = λ s. (s, []);
  record_entry = λ e x. (x.0, e ∷ x.1);
  flush = λ x r. flush_held x r;
}

abbrev held_handles-IsHandles : IsHandles held_handles
held_handles-IsHandles = record {
  series = λ x. x.0;
  pending = λ x. x.1;
  recorded = λ r s. r s;
  local_series = λ s. refl;
  local_pending = λ s. refl;
  record_series = λ e x. refl;
  record_pending = λ e x. refl;
  flush_series = λ x r. refl;
  flush_pending = λ x r. refl;
  flush_recorded = λ x r. self x r;
  flush_others = λ x r s ne. other x r s ne;
}
  where
    self : (x : Held) (r : Store) → (flush_held x r).0 x.0 ≡ x.1 ++ r x.0
    self (s, p) r =
        elim (series_discrete s s) as (λ d. elim d [ yes _ ↦ p ++ r s | no _ ↦ r s ] ≡ p ++ r s) [
          | yes _ ↦ refl
          | no ne ↦ absurd (ne refl)
        ]

    other : (x : Held) (r : Store) (s : Series) → s ≢ x.0 → (flush_held x r).0 s ≡ r s
    other (t, p) r s ne =
        elim (series_discrete s t) as (λ d. elim d [ yes _ ↦ p ++ r s | no _ ↦ r s ] ≡ r s) [
          | yes e ↦ absurd (ne e)
          | no _ ↦ refl
        ]

abbrev two_requests : List (Event ℕ)
two_requests =
    recorded requests_ok "m" inc
    ∷ recorded batch_items "m" (observe 3)
    ∷ flushed
    ∷ recorded requests_ok "m" inc
    ∷ recorded requests_ok "n" inc
    ∷ []

run_events-entries_example :
    (t : PerModel held_handles) × (r : Store) × (run_events held_handles two_requests
        (init_local_metrics held_handles none (λ _. [])).1
        (init_local_metrics held_handles none (λ _. [])).0
      ≡ ok (some t, r))
    × ((i : Instrument) (model : String)
        → (flush_local_metrics held_handles (some t) r).0 (series_of i model)
          ≡ entries i model two_requests ++ [])
run_events-entries_example =
    run_events-entries held_handles held_handles-IsHandles two_requests (λ _. [])
