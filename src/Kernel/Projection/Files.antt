-- ===== src/Kernel/Projection/Files.antt =====
-- The state of `FileChangeProjection` against an independent description: the operations that the
-- events report on a path, in order.
use mathlib.Core.Path.{ap₂}
use mathlib.Core.List.{append-nil, append_assoc}
use cotrex_ai.Base.{
  ℕ, suc, ◌+◌, ◌%◌, ◌≡◌, refl, sym, ap, ◌∙◌, inl, inr, Option, none, some, List, [], ◌∷◌, ◌++◌,
  arith, length, length-snoc, last?, last?-snoc, last?-cons, ok, u64_mod, ◌==◌, ==_iff, list_eq,
  add_u64, Bool-cases, if◌then◌else◌,
}
use cotrex_ai.Base.Map
use cotrex_ai.Base.Map.{Map, get-insert}
use cotrex_ai.FilePath.{FilePath, component_eq}
use cotrex_ai.Kernel.Event.{Event, EventPayload, file_changed, FileChanged, FileOperation}
use cotrex_ai.Kernel.Store.{IsNumbered}
use cotrex_ai.Kernel.Projection.{
  FileRecord, FileChangeProjection, touched, track, process_event, process_all, get_file,
}

abbrev pub changes : FilePath → EventPayload → List FileOperation
changes path (file_changed fc) = if fc.path == path then fc.operation ∷ [] else []
changes path _ = []

-- The operations on `path` that the events report.
unfoldable pub history : FilePath → List Event → List FileOperation
history path [] = []
history path (e ∷ es) = changes path e.payload ++ history path es

-- What the projection is to say of a path with these operations: nothing if there are none, else
-- the last one and their number, as a `u64`.
abbrev summarised : FilePath → ℕ → Option FileOperation → Option FileRecord
summarised path n none = none
summarised path n (some op) =
    some (record { path = path; last_operation = op; change_count = n % u64_mod })

unfoldable pub summary : FilePath → List FileOperation → Option FileRecord
summary path ops = summarised path (length ops) (last? ops)

summary-snoc :
    (path : FilePath) (ops : List FileOperation) (fc : FileChanged)
    → fc.path ≡ path
    → summary path (ops ++ fc.operation ∷ []) ≡ some (touched fc (summary path ops))
unfolding summary
summary-snoc path [] fc same = cc
summary-snoc path (o ∷ ops) fc same =
    let (l, found) = last?-cons o ops in
    let count : suc (length (o ∷ ops)) % u64_mod ≡ add_u64 (length (o ∷ ops) % u64_mod) 1 =
      omega arith in
    ap₂ (summarised path) (length-snoc (o ∷ ops) fc.operation) (last?-snoc (o ∷ ops) fc.operation)
    ∙ cc count
    ∙ ap (λ r. some (touched fc (summarised path (length (o ∷ ops)) r))) (sym found)

get-track :
    (path : FilePath) (p : EventPayload) (m : Map FilePath FileRecord) (ops : List FileOperation)
    → Map.get path m ≡ summary path ops
    → Map.get path (track p m) ≡ summary path (ops ++ changes path p)
unfolding track
get-track path (file_changed fc) m ops h = rw get-insert (elim (Bool-cases (fc.path == path)) [
  | inl same ↦
      let e = (==_iff fc.path path).0 same in
      let before : Map.get fc.path m ≡ summary path ops = rw e h in
      rw same (rw before (sym (summary-snoc path ops fc e)))
  | inr other ↦ rw (other, append-nil) h
])
get-track path _ m ops h = rw append-nil h

pub track_all : List Event → Map FilePath FileRecord → Map FilePath FileRecord
track_all [] m = m
track_all (e ∷ es) m = track_all es (track e.payload m)

get-track_all :
    (path : FilePath) (es : List Event) (m : Map FilePath FileRecord) (ops : List FileOperation)
    → Map.get path m ≡ summary path ops
    → Map.get path (track_all es m) ≡ summary path (ops ++ history path es)
unfolding track_all history
get-track_all path [] m ops h = rw append-nil h
get-track_all path (e ∷ es) m ops h = rw (← append_assoc) (
    get-track_all path es (track e.payload m) (ops ++ changes path e.payload)
      (get-track path e.payload m ops h))

-- The checkpoint after a run of events.
pub end_of : ℕ → List Event → ℕ
end_of c [] = c
end_of c (e ∷ es) = end_of e.sequence es

pub process_all_lem :
    (es : List Event) (p : FileChangeProjection)
    → process_all es p
      ≡ (ok tt, record p { state = track_all es p.state; checkpoint = end_of p.checkpoint es })
unfolding process_all process_event track_all end_of
process_all_lem [] p = refl
process_all_lem (e ∷ es) p =
    process_all_lem es (record p { state = track e.payload p.state; checkpoint = e.sequence })

end_of-IsNumbered : (k : ℕ) (es : List Event) → IsNumbered (suc k) es → end_of k es ≡ k + length es
unfolding end_of
end_of-IsNumbered k [] h = omega arith
end_of-IsNumbered k (e ∷ es) h = rw (h.0) (end_of-IsNumbered (suc k) es h.1 ∙ omega arith)

pub history-snoc :
    (path : FilePath) (es : List Event) (e : Event)
    → history path (es ++ e ∷ []) ≡ history path es ++ changes path e.payload
unfolding history
history-snoc path [] e = rw append-nil
history-snoc path (x ∷ es) e = rw (history-snoc path es e, append_assoc)

-- The projection says of every path what the events report, and has seen them all.
pub record IsCurrent (p : FileChangeProjection) (es : List Event) : Type 0 where
  pub files : (path : FilePath) → get_file p path ≡ summary path (history path es)
  pub seen : p.checkpoint ≡ length es

-- Handing a current projection the next event of the log keeps it current.
pub process_event-IsCurrent :
    (p : FileChangeProjection) (es : List Event) (e : Event)
    → IsCurrent p es
    → e.sequence ≡ length es + 1
    → IsCurrent (process_event e p).1 (es ++ e ∷ [])
unfolding process_event get_file
process_event-IsCurrent p es e h next = record {
  files =
      λ path. rw history-snoc (get-track path e.payload p.state (history path es) (h.files path));
  seen = rw length-snoc (omega arith);
}

-- The state that a replay of all events leaves.
pub track_all-IsCurrent :
    (es : List Event) (p : FileChangeProjection)
    → IsNumbered 1 es
    → p.state ≡ track_all es []
    → p.checkpoint ≡ end_of 0 es
    → IsCurrent p es
unfolding get_file Map.get
track_all-IsCurrent es p numbered state seen = record {
  files = λ path. rw state (get-track_all path es [] [] (unfold summary in refl));
  seen = seen ∙ end_of-IsNumbered 0 es numbered ∙ omega arith;
}
