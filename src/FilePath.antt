-- ===== src/FilePath.antt =====
-- `std::path`, as the program uses it. A `PathBuf` is the list of its components, by which the
-- standard library compares and hashes paths and strips prefixes; of its text only repeated
-- separators and inner `.` are left out. Unix: there are no drive prefixes.
use cotrex_ai.Base.{
  Bool-cases, Option-cases, inl, inr, ==_iff, ==_refl, refl, String, ◌<>◌, ◌≡◌, ◌↔◌, Bool, true,
  false, Option, none, some, List, [], ◌∷◌, ◌++◌, arith, Eq, ◌==◌, string_eq, if◌then◌else◌,
}

pub data Component : Type 0 where
  root_dir cur_dir parent_dir : Component
  normal : String → Component

abbrev component_beq : Component → Component → Bool
component_beq root_dir root_dir = true
component_beq cur_dir cur_dir = true
component_beq parent_dir parent_dir = true
component_beq (normal s) (normal t) = s == t
component_beq _ _ = false

pub component_beq_iff : (a b : Component) → (component_beq a b ≡ true) ↔ (a ≡ b)
component_beq_iff (normal s) (normal t) = ground (arith, string_eq.beq_iff s t)
component_beq_iff _ _ = ground arith

instance abbrev pub component_eq : Eq Component
component_eq = record { beq = component_beq; beq_iff = component_beq_iff }

abbrev pub FilePath : Type 0
FilePath = List Component

-- `Component::as_os_str`
abbrev pub as_str : Component → String
as_str root_dir = "/"
as_str cur_dir = "."
as_str parent_dir = ".."
as_str (normal s) = s

-- `Path::display`
unfoldable pub display : FilePath → String
display [] = ""
display (c ∷ []) = as_str c
display (root_dir ∷ (c ∷ cs)) = "/" <> display (c ∷ cs)
display (d ∷ (c ∷ cs)) = as_str d <> ("/" <> display (c ∷ cs))

-- `Path::strip_prefix`
unfoldable pub strip_prefix : FilePath → FilePath → Option FilePath
strip_prefix [] path = some path
strip_prefix (b ∷ bs) [] = none
strip_prefix (b ∷ bs) (c ∷ cs) = if b == c then strip_prefix bs cs else none

-- `Path::is_absolute`
unfoldable pub is_absolute : FilePath → Bool
is_absolute (root_dir ∷ cs) = true
is_absolute _ = false

-- `Path::starts_with`
unfoldable pub starts_with : FilePath → FilePath → Bool
starts_with path base = elim (strip_prefix base path) [ some rest ↦ true | none ↦ false ]

-- A leading `.` disappears behind another component.
abbrev inner : FilePath → FilePath
inner (cur_dir ∷ cs) = cs
inner cs = cs

-- `Path::join`: an absolute path takes the place of the first one.
unfoldable pub join : FilePath → FilePath → FilePath
unfolding is_absolute
join [] b = b
join (c ∷ cs) b = if is_absolute b then b else c ∷ cs ++ inner b

-- `Path::parent`; neither the root nor the empty path has one.
unfoldable pub parent : FilePath → Option FilePath
parent [] = none
parent (root_dir ∷ []) = none
parent (c ∷ []) = some []
parent (c ∷ (d ∷ cs)) = elim (parent (d ∷ cs)) [ none ↦ none | some up ↦ some (c ∷ up) ]

pub strip_prefix_eq :
    (base path rel : FilePath) → strip_prefix base path ≡ some rel → path ≡ base ++ rel
unfolding strip_prefix
strip_prefix_eq [] path rel h = cc
strip_prefix_eq (b ∷ base) [] rel h = cc
strip_prefix_eq (b ∷ base) (c ∷ path) rel h = elim (Bool-cases (b == c)) [
  | inl same ↦ let e = (==_iff b c).0 same in ground (arith, e, same, strip_prefix_eq base path rel)
  | inr other ↦ ground (arith, other, h)
]

pub strip_prefix-append : (base rel : FilePath) → strip_prefix base (base ++ rel) ≡ some rel
unfolding strip_prefix
strip_prefix-append [] rel = refl
strip_prefix-append (b ∷ base) rel = rw ==_refl (strip_prefix-append base rel)

pub starts_with_eq :
    (path base : FilePath) → starts_with path base ≡ true → (rel : FilePath) × (path ≡ base ++ rel)
unfolding starts_with
starts_with_eq path base h = elim (Option-cases (strip_prefix base path)) [
  | inl outside ↦ cc (outside, h)
  | inr (rel, found) ↦ (rel, strip_prefix_eq base path rel found)
]
