-- ===== src/Runtime/Manager/Merge.antt =====
-- What a merged registry finds.
use cotrex_ai.Base.{
  String, ◌≡◌, Option, none, some, List, [], ◌∷◌, arith, if◌then◌else◌, ◌==◌, string_eq, refl,
}
use cotrex_ai.Runtime.Manager.{
  ModelDefinition, ModelRegistry, find, find_model, put, put_all, merge,
}

-- The last model of a list with an identifier.
unfoldable find_last : String → List ModelDefinition → Option ModelDefinition
find_last id [] = none
find_last id (m ∷ ms) = elim (find_last id ms) [
  | some later ↦ some later
  | none ↦ if m.id == id then some m else none
]

abbrev pub or_else : Option ModelDefinition → Option ModelDefinition → Option ModelDefinition
or_else (some m) other = some m
or_else none other = other

find_model-put :
    (id : String) (model : ModelDefinition) (models : List ModelDefinition)
    → find_model id (put model models)
      ≡ (if model.id == id then some model else find_model id models)
unfolding find_model put
find_model-put id model [] = refl
find_model-put id model (m ∷ ms) = ground (
  arith,
  find_model-put id model ms,
  string_eq.beq_iff m.id model.id,
  string_eq.beq_iff m.id id,
  string_eq.beq_iff model.id id,
)

find_model-put_all :
    (id : String) (others models : List ModelDefinition)
    → find_model id (put_all others models) ≡ or_else (find_last id others) (find_model id models)
unfolding put_all find_last
find_model-put_all id [] models = refl
find_model-put_all id (m ∷ ms) models =
    ground (arith, find_model-put_all id ms (put m models), find_model-put id m models)

-- A registry that another one has been merged into finds, for each identifier, the last model of the
-- other one that bears it, and otherwise the model that it found before.
find-merge :
    (registry other : ModelRegistry) (id : String)
    → find (merge registry other) id ≡ or_else (find_last id other.models) (find registry id)
unfolding find merge
find-merge registry other id = find_model-put_all id other.models registry.models
