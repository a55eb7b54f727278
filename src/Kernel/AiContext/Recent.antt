-- ===== src/Kernel/AiContext/Recent.antt =====
-- What the AI context says after a rebuild: the last ten changes, in order.
use mathlib.Core.List.{append_assoc, append-nil}
use cotrex_ai.Base.{
  ℕ, zero, suc, ◌-◌, ◌≤◌, String, ◌≡◌, refl, sym, ap, ◌∙◌, inl, inr, List, [], ◌∷◌, ◌++◌, arith,
  length, length-snoc, drop, ok, ltb, Bool-cases,
}
use cotrex_ai.Kernel.Event.{Event, EventPayload, file_changed}
use cotrex_ai.Kernel.Store.{EventStore, ReplayResult, IsEventLog}
use cotrex_ai.Kernel.Projection.{initialized}
use cotrex_ai.Kernel.AiContext.{
  AiContextProjection, description, remember, track, process_event, process_all, rebuild,
  initialize,
}

-- The last ten of a list.
abbrev pub last_ten : List String → List String
last_ten xs = drop (length xs - 10) xs

abbrev changes : EventPayload → List String
changes (file_changed fc) = description fc ∷ []
changes _ = []

-- The changes that the events report, as the context words them.
unfoldable pub reported : List Event → List String
reported [] = []
reported (e ∷ es) = changes e.payload ++ reported es

drop-append_le : (n : ℕ) (xs ys : List String) → n ≤ length xs → drop n (xs ++ ys) ≡ drop n xs ++ ys
drop-append_le zero xs ys h = refl
drop-append_le (suc n) [] ys h = absurd (omega arith)
drop-append_le (suc n) (x ∷ xs) ys h = drop-append_le n xs ys (omega arith)

length-drop : (n : ℕ) (xs : List String) → length (drop n xs) ≡ length xs - n
length-drop zero xs = omega arith
length-drop (suc n) [] = omega arith
length-drop (suc n) (x ∷ xs) = omega (arith, length-drop n xs)

drop-drop_one : (n : ℕ) (xs : List String) → drop 1 (drop n xs) ≡ drop (suc n) xs
drop-drop_one zero xs = refl
drop-drop_one (suc n) [] = refl
drop-drop_one (suc n) (x ∷ xs) = drop-drop_one n xs

-- Remembering one more change keeps the last ten.
remember-last_ten :
    (x : String) (xs : List String) → remember x (last_ten xs) ≡ last_ten (xs ++ x ∷ [])
unfolding remember
remember-last_ten x xs =
    let k = length xs - 10 in
    let joined : drop k xs ++ x ∷ [] ≡ drop k (xs ++ x ∷ []) =
      sym (drop-append_le k xs (x ∷ []) (omega arith)) in
    let size : length (drop k (xs ++ x ∷ [])) ≡ suc (length xs) - k =
      length-drop k (xs ++ x ∷ []) ∙ rw length-snoc refl in
    elim (Bool-cases (ltb 10 (length (drop k (xs ++ x ∷ []))))) [
      | inl long ↦
          let over : suc k ≡ length (xs ++ x ∷ []) - 10 =
            ground (arith, long, size, length-snoc xs x) in
          rw (joined, long) (drop-drop_one k (xs ++ x ∷ []) ∙ ap (λ n. drop n (xs ++ x ∷ [])) over)
      | inr short ↦
          let all : k ≡ length (xs ++ x ∷ []) - 10 =
            ground (arith, short, size, length-snoc xs x) in
          rw (joined, short) (ap (λ n. drop n (xs ++ x ∷ [])) all)
    ]

recent-track :
    (pl : EventPayload) (p : AiContextProjection) (past : List String)
    → p.recent_changes ≡ last_ten past
    → (track pl p).recent_changes ≡ last_ten (past ++ changes pl)
unfolding track
recent-track (file_changed fc) p past h = rw h (remember-last_ten (description fc) past)
recent-track _ p past h = h ∙ ap last_ten (sym (append-nil past))

process_all-last_ten :
    (es : List Event) (p : AiContextProjection) (past : List String)
    → p.recent_changes ≡ last_ten past
    → ((process_all es p).0 ≡ ok tt)
      × ((process_all es p).1.recent_changes ≡ last_ten (past ++ reported es))
unfolding process_all process_event reported
process_all-last_ten [] p past h = (refl, h ∙ ap last_ten (sym (append-nil past)))
process_all-last_ten (e ∷ es) p past h = rw (← append_assoc) (
    process_all-last_ten es (record (track e.payload p) { checkpoint = e.sequence })
      (past ++ changes e.payload) (recent-track e.payload p past h))

-- Initializing the AI context from a store that keeps its contract succeeds where the replay does,
-- whatever its status was, and leaves it with the last ten changes that the log reports, in order.
pub initialize-last_ten :
    (S : EventStore) {log : S.State → List Event} {Valid : S.State → Type 0}
    (L : IsEventLog S log Valid) (w : S.Env) (store : S.State) (p : AiContextProjection)
    (r : ReplayResult)
    → Valid store
    → S.replay w 1 store ≡ ok r
    → ((initialize S w store p).0 ≡ ok tt)
      × ((initialize S w store p).1.status ≡ initialized)
      × ((initialize S w store p).1.recent_changes ≡ last_ten (reported (log store)))
unfolding initialize rebuild
initialize-last_ten S {log} L w store p r valid h =
    let all : r.events ≡ log store = L.replay_ok w 1 store r valid h in
    let blank = record p { checkpoint = 0; files = []; recent_changes = [] } in
    let (done, recent) = process_all-last_ten r.events blank [] refl in
    rw (h, done) (refl, refl, recent ∙ ap (λ es. last_ten (reported es)) all)
