-- ===== src/ModelRepository/Latest.antt =====
-- The version that src/model_repository/repository.rs loads is the latest.
use toutates.Base.{
  ℕ, ◌≤◌, ltb, if◌then◌else◌, List, [], ◌∷◌, Option, none, some, Option-cases, ok, ok-injective,
  bind-ok, ok_or, ok_or-ok, ensure, ◌≡◌, ◌⊎◌, inl, inr, refl, sym, ap, ◌∙◌, true, Bool-cases, arith,
  String,
}
use toutates.ModelRepository.{
  Entry, version_config, model_config, ModelDir, LoadedModel, later_version, latest_version,
  load_model,
}

module _ (parse : String → Option ℕ) where
  -- A version is that of a directory among the entries.
  abbrev pub IsVersion : ℕ → List Entry → Type 0
  IsVersion v [] = ⊥
  IsVersion v (e ∷ es) = ((e.is_dir ≡ true) × (parse e.name ≡ some v)) ⊎ IsVersion v es

  -- What a round of the loop makes of the latest version so far.
  after_entry : Entry → Option ℕ → Option ℕ
  after_entry e latest =
      if e.is_dir
      then (elim (parse e.name) [ none ↦ latest | some v ↦ later_version parse latest v ])
      else latest

  after_entry-from :
      (e : Entry) (latest : Option ℕ) (v : ℕ)
      → after_entry e latest ≡ some v
      → ((e.is_dir ≡ true) × (parse e.name ≡ some v)) ⊎ (latest ≡ some v)
  unfolding after_entry later_version
  after_entry-from e none v h = ground arith
  after_entry-from e (some cur) v h = ground arith

  after_entry-bound :
      (e : Entry) (latest : Option ℕ) (cur : ℕ)
      → latest ≡ some cur
      → (v : ℕ) × (after_entry e latest ≡ some v) × (cur ≤ v)
  unfolding after_entry later_version
  after_entry-bound e latest cur h = elim (Bool-cases e.is_dir) [
    | inr file ↦ (cur, ground (arith, file, h), omega arith)
    | inl dir ↦ elim (Option-cases (parse e.name)) [
      | inl other ↦ (cur, ground (arith, dir, other, h), omega arith)
      | inr (w, parsed) ↦ elim (Bool-cases (ltb cur w)) [
        | inl newer ↦ (w, ground (arith, dir, parsed, h, newer), ground (arith, newer))
        | inr older ↦ (cur, ground (arith, dir, parsed, h, older), omega arith)
      ]
    ]
  ]

  after_entry-own :
      (e : Entry) (latest : Option ℕ) (w : ℕ)
      → e.is_dir ≡ true
      → parse e.name ≡ some w
      → (v : ℕ) × (after_entry e latest ≡ some v) × (w ≤ v)
  unfolding after_entry later_version
  after_entry-own e none w d p = (w, ground (arith, d, p), omega arith)
  after_entry-own e (some cur) w d p = elim (Bool-cases (ltb cur w)) [
    | inl newer ↦ (w, ground (arith, d, p, newer), omega arith)
    | inr older ↦ (cur, ground (arith, d, p, older), ground (arith, older))
  ]

  -- The result of the loop is no less than what it started from.
  latest_version-bound :
      (es : List Entry) (latest : Option ℕ) (cur v : ℕ)
      → latest ≡ some cur
      → latest_version parse es latest ≡ some v
      → cur ≤ v
  unfolding latest_version after_entry
  latest_version-bound [] latest cur v start found = ground (arith, start, found)
  latest_version-bound (e ∷ es) latest cur v start found =
      let (w, next, up) = after_entry-bound e latest cur start in
      omega (arith, latest_version-bound es (after_entry e latest) w v next found, up)

  latest_version-from :
      (es : List Entry) (latest : Option ℕ) (v : ℕ)
      → latest_version parse es latest ≡ some v
      → IsVersion v es ⊎ (latest ≡ some v)
  unfolding latest_version after_entry
  latest_version-from [] latest v found = inr found
  latest_version-from (e ∷ es) latest v found =
      elim (latest_version-from es (after_entry e latest) v found) [
        | inl later ↦ inl (inr later)
        | inr here ↦ elim (after_entry-from e latest v here) [
          | inl own ↦ inl (inl own)
          | inr before ↦ inr before
        ]
      ]

  latest_version-greatest :
      (es : List Entry) (latest : Option ℕ) (v w : ℕ)
      → latest_version parse es latest ≡ some v
      → IsVersion w es
      → w ≤ v
  unfolding latest_version after_entry
  latest_version-greatest [] latest v w found own = absurd own
  latest_version-greatest (e ∷ es) latest v w found (inl (dir, parsed)) =
      let (u, next, up) = after_entry-own e latest w dir parsed in
      omega (arith, latest_version-bound es (after_entry e latest) u v next found, up)
  latest_version-greatest (e ∷ es) latest v w found (inr later) =
      latest_version-greatest es (after_entry e latest) v w found later

  -- A model that is loaded has the greatest version of the directories of its model whose names
  -- are numbers, a model file in that version, and the configuration of the version's own
  -- file where there is one, and else of the model's.
  pub load_model-latest :
      (dir : ModelDir) (name : String) (model : LoadedModel)
      → load_model parse dir name ≡ ok model
      → (entries : List Entry) × (dir.entries ≡ some entries)
        × IsVersion model.version entries
        × ((w : ℕ) → IsVersion w entries → w ≤ model.version)
        × (dir.has_model model.version ≡ true)
        × (dir.read
              (if dir.has_config model.version then version_config model.version else model_config)
            ≡ some (some model.config))
        × (model.name ≡ name)
  unfolding load_model
  load_model-latest dir name model e =
      let (entries, listed, e₁) = bind-ok (ok_or dir.entries _) _ model e in
      let (version, found, e₂) = bind-ok (ok_or (latest_version parse entries none) _) _ model e₁ in
      let path = if dir.has_config version then version_config version else model_config in
      let (bytes, read, e₃) = bind-ok (ok_or (dir.read path) _) _ model e₂ in
      let (config, parsed, e₄) = bind-ok (ok_or bytes _) _ model e₃ in
      let (u, there, last) = bind-ok (ensure (dir.has_model version) _) _ model e₄ in
      let latest = ok_or-ok (latest_version parse entries none) _ version found in
      rw (sym (ok-injective _ model last)) (
        entries,
        ok_or-ok dir.entries _ entries listed,
        (elim (latest_version-from entries none version latest) [
          | inl own ↦ own
          | inr absurdly ↦ absurd (ground (arith, absurdly))
        ]),
        (λ w own. latest_version-greatest entries none version w latest own),
        ground (arith, there),
        (ok_or-ok (dir.read path) _ bytes read ∙ ap some (ok_or-ok bytes _ config parsed)),
        refl,
      )
