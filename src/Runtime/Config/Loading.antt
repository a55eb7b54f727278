-- ===== src/Runtime/Config/Loading.antt =====
-- What a loaded configuration holds.
use cotrex_ai.Base.{
  String, ◌≡◌, ◌⊎◌, inl, inr, true, false, Option, some, none, [], ◌∷◌, Result, Result-cases, ok,
  err, arith, refl,
}
use cotrex_ai.FilePath.{FilePath, normal}
use cotrex_ai.Runtime.Config.{
  ConfigError, GlobalConfig, EngineConfig, ModelConfig, ProjectConfig, ResolvedConfig, unwrap_or,
  one_tenth, Surroundings, merge, global_path, project_path, load_file, load_global, load_project,
  load, global_default, project_default,
}

-- The setting `v` is the one that is given, or the default `d`.
abbrev pub Chosen : {A : Type 0} → Option A → A → A → Type 0
Chosen (some a) d v = v ≡ a
Chosen none d v = v ≡ d

-- The settings of the model, where the project's file has a section `m` on it or none.
abbrev pub FromModel : Option ModelConfig → ResolvedConfig → Type 0
FromModel (some m) r =
    Chosen m.name "unknown" r.model_name
    × Chosen m.path (normal "models" ∷ normal "unknown.gguf" ∷ []) r.model_path
    × Chosen m.context 4096 r.context
    × Chosen m.temperature one_tenth r.temperature
    × Chosen m.max_tokens 512 r.max_tokens
FromModel none r =
    (r.model_name ≡ "unknown")
    × (r.model_path ≡ normal "models" ∷ normal "unknown.gguf" ∷ [])
    × (r.context ≡ 4096)
    × (r.temperature ≡ one_tenth)
    × (r.max_tokens ≡ 512)

-- The settings of the engine, where the global file has a section on it or none.
abbrev pub FromEngine : Option EngineConfig → ResolvedConfig → Type 0
FromEngine (some e) r = Chosen e.threads 4 r.threads × Chosen e.gpu_layers 0 r.gpu_layers
FromEngine none r = (r.threads ≡ 4) × (r.gpu_layers ≡ 0)

unwrap_or-Chosen : {A : Type 0} (o : Option A) (d : A) → Chosen o d (unwrap_or o d)
unwrap_or-Chosen (some a) d = refl
unwrap_or-Chosen none d = refl

merge-FromModel :
    (g : GlobalConfig) (m : Option ModelConfig) → FromModel m (merge g (record { model = m }))
unfolding merge
merge-FromModel g (some m) = (
  unwrap_or-Chosen m.name "unknown",
  unwrap_or-Chosen m.path (normal "models" ∷ normal "unknown.gguf" ∷ []),
  unwrap_or-Chosen m.context 4096,
  unwrap_or-Chosen m.temperature one_tenth,
  unwrap_or-Chosen m.max_tokens 512,
)
merge-FromModel g none = (refl, refl, refl, refl, refl)

merge-FromEngine :
    (backend : Option String) (e : Option EngineConfig) (p : ProjectConfig)
    → FromEngine e (merge (record { provider = backend; engine = e }) p)
unfolding merge
merge-FromEngine backend (some e) p =
    (unwrap_or-Chosen e.threads 4, unwrap_or-Chosen e.gpu_layers 0)
merge-FromEngine backend none p = (refl, refl)

merge-Chosen : (g : GlobalConfig) (p : ProjectConfig) → Chosen g.provider "mock" (merge g p).backend
unfolding merge
merge-Chosen g p = unwrap_or-Chosen g.provider "mock"

module _ (S : Surroundings) where
  -- What a loader answers: the default without the file, or what the file holds.
  abbrev pub Comes : {A : Type 0} → (String → Result A String) → A → FilePath → A → Type 0
  Comes parse default path a =
      (S.exists path ≡ false) × (a ≡ default)
      ⊎ (t : String) × (S.exists path ≡ true) × (S.read_to_string path ≡ ok t) × (parse t ≡ ok a)

  load_file-Comes :
      {A : Type 0} (parse : String → Result A String) (default : A) (path : FilePath) {a : A}
      → load_file S parse default path ≡ ok a
      → Comes parse default path a
  unfolding load_file
  load_file-Comes parse default path h = ground arith

  -- A configuration loads only where each of the two files is missing or is read and parsed, a
  -- missing file holding no setting. Each of its eight settings is then the one that its file holds,
  -- the provider and the engine's from the global file and the model's from that of the project, or
  -- else its default. Otherwise the error is that of the global file, or, where that one loads, that
  -- of the project file.
  pub load_lem :
      (global project : Option FilePath)
      → ((e : ConfigError) × (load S global project ≡ err e)
          × ((load_global S global ≡ err e)
              ⊎ ((g : GlobalConfig) × (load_global S global ≡ ok g)
                  × (load_project S project ≡ err e))))
        ⊎ ((r : ResolvedConfig) × (g : GlobalConfig) × (p : ProjectConfig) × (load S global project
              ≡ ok r)
            × Comes S.parse_global global_default (global_path S global) g
            × Comes S.parse_project project_default (project_path S project) p
            × Chosen g.provider "mock" r.backend
            × FromEngine g.engine r
            × FromModel p.model r)
  unfolding load load_global load_project
  load_lem global project = elim (Result-cases (load_global S global)) [
    | inr (e, bad) ↦ inl (e, rw (bad, load) refl, inl bad)
    | inl (g, good) ↦ elim (Result-cases (load_project S project)) [
      | inr (e, bad) ↦ inl (e, rw (good, bad, load) refl, inr (g, good, bad))
      | inl (p, fine) ↦ inr (
        merge g p,
        g,
        p,
        rw (good, fine, load) refl,
        load_file-Comes S.parse_global global_default (global_path S global) good,
        load_file-Comes S.parse_project project_default (project_path S project) fine,
        merge-Chosen g p,
        merge-FromEngine g.provider g.engine p,
        merge-FromModel g p.model,
      )
    ]
  ]
