-- ===== src/Kernel/Store/Reported.antt =====
-- What a store that keeps its contract reports after an append.
use mathlib.Core.List.{map-append}
use cotrex_ai.Base.{◌≡◌, List, [], ◌∷◌, ◌++◌, ok}
use cotrex_ai.Kernel.Event.{Event, EventPayload, payloads}
use cotrex_ai.Kernel.Store.{EventStore, IsEventLog}

pub reported-append :
    (S : EventStore) (log : S.State → List Event) {Valid : S.State → Type 0}
    (L : IsEventLog S log Valid) (w : S.Env) (p : EventPayload) (store : S.State) (e : Event)
    → (S.append w p store).0 ≡ ok e
    → payloads (log (S.append w p store).1) ≡ payloads (log store) ++ p ∷ []
reported-append S log L w p store e h =
    let (grown, same) = L.append_ok w p store e h in rw (grown, map-append, same)
