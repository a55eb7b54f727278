-- ===== src/Kernel/Store/Persistent/Verify.antt =====
-- `PersistentEventStore::verify` (kernel/src/persistent_store.rs), the report on a log.
use mathlib.Core.Path.{subst}
use cotrex_ai.Base.{
  ℕ, suc, String, ◌<>◌, ◌≡◌, ◌↔◌, Bool, true, false, List, [], ◌∷◌, ◌++◌, length, is_empty, Result,
  Result-cases, Bool-cases, ok, err, map_err, and_then, leb, if◌then◌else◌, ◌==◌, nat_eq, ==_iff,
  arith, refl, inl, inr, ap, sym, ◌∙◌,
}
use cotrex_ai.Base.Text.{show_u64}
use cotrex_ai.Kernel.Event.{Event}
use cotrex_ai.Kernel.Store.{EventStoreError, replay_failure, IsNumbered}
use cotrex_ai.Kernel.Store.Persistent.{Format, Disk, PersistentEventStore}

pub record VerificationResult : Type 0 where
  pub event_count : ℕ
  pub errors : List String
  pub valid : Bool

abbrev bad_line : ℕ → String → String
bad_line n e = "line " <> show_u64 (suc n) <> ": " <> e

-- The loop over the lines: the events, and the lines that are none.
unfoldable pub collect_lines :
    Format → ℕ → List (Result String String) → Result (List Event × List String) EventStoreError
collect_lines F n [] = ok ([], [])
collect_lines F n (err e ∷ ls) = err (replay_failure e)
collect_lines F n (ok line ∷ ls) =
    let rest = collect_lines F (suc n) ls in
    elim (F.blank line) [
      | true ↦ rest
      | false ↦ elim (F.decode line) [
        | ok event ↦ and_then rest (λ r. ok (event ∷ r.0, r.1))
        | err e ↦ and_then rest (λ r. ok (r.0, bad_line n e ∷ r.1))
      ]
    ]

-- "Check ordering"
unfoldable pub order_errors : List Event → List String
order_errors [] = []
order_errors (a ∷ []) = []
order_errors (a ∷ (b ∷ es)) =
    let rest = order_errors (b ∷ es) in
    if leb b.sequence a.sequence
    then ("ordering corruption: " <> show_u64 a.sequence <> " >= " <> show_u64 b.sequence) ∷ rest
    else rest

-- "Check gaps", from the event with index `i` on.
unfoldable pub gap_errors : ℕ → List Event → List String
gap_errors i [] = []
gap_errors i (e ∷ es) =
    let rest = gap_errors (suc i) es in
    if e.sequence == suc i
    then rest
    else ("sequence gap at "
        <> show_u64 i
        <> ": expected "
        <> show_u64 (suc i)
        <> ", got "
        <> show_u64 e.sequence)
      ∷ rest

abbrev report : List Event × List String → VerificationResult
report (events, unread) =
    let errors = unread ++ order_errors events ++ gap_errors 0 events in
    record { event_count = length events; errors = errors; valid = is_empty errors }

module _ (F : Format) (D : Disk) where
  unfoldable pub verify : PersistentEventStore F D → Result VerificationResult EventStoreError
  verify s =
      and_then (map_err replay_failure (D.lines s.disk))
        (λ ls. and_then (collect_lines F 0 ls) (λ r. ok (report r)))

-- The lines hold events, one each, but for blank lines.
pub data Holds (F : Format) : List (Result String String) → List Event → Type 0 where
  no_line : Holds F [] []
  blank_line :
      {line : String} {ls : List (Result String String)} {es : List Event}
      → F.blank line ≡ true
      → Holds F ls es
      → Holds F (ok line ∷ ls) es
  event_line :
      {line : String} {e : Event} {ls : List (Result String String)} {es : List Event}
      → F.blank line ≡ false
      → F.decode line ≡ ok e
      → Holds F ls es
      → Holds F (ok line ∷ ls) (e ∷ es)

Holds-collects :
    (F : Format) (n : ℕ) (ls : List (Result String String)) (es : List Event)
    → Holds F ls es
    → collect_lines F n ls ≡ ok (es, [])
unfolding collect_lines
Holds-collects F n [] [] no_line = refl
Holds-collects F n [] (e ∷ es) h = elim h [ ]
Holds-collects F n (err x ∷ ls) es h = elim h [ ]
Holds-collects F n (ok line ∷ ls) es (blank_line b h) =
    rw (b, collect_lines) (Holds-collects F (suc n) ls es h)
Holds-collects F n (ok line ∷ ls) (e ∷ es) (event_line b d h) =
    rw (b, d, Holds-collects F (suc n) ls es h, collect_lines) refl

collects-Holds :
    (F : Format) (n : ℕ) (ls : List (Result String String)) (es : List Event)
    → collect_lines F n ls ≡ ok (es, [])
    → Holds F ls es
unfolding collect_lines
collects-Holds F n [] [] h = no_line
collects-Holds F n [] (e ∷ es) h = ground arith
collects-Holds F n (err x ∷ ls) es h = ground arith
collects-Holds F n (ok line ∷ ls) es h = elim (Bool-cases (F.blank line)) [
  | inl b ↦ blank_line b (collects-Holds F (suc n) ls es (ground (arith, b, h)))
  | inr b ↦ elim (Result-cases (F.decode line)) [
    | inl (e, d) ↦ elim (Result-cases (collect_lines F (suc n) ls)) [
      | inl (r, c) ↦
          let facts : (r.1 ≡ []) × (e ∷ r.0 ≡ es) = ground (arith, b, d, c, h) in
          subst (λ xs. Holds F (ok line ∷ ls) xs) facts.1
            (event_line b d (collects-Holds F (suc n) ls r.0 (c ∙ ap (λ u. ok (r.0, u)) facts.0)))
      | inr (x, c) ↦ ground (arith, b, d, c, h)
    ]
    | inr (x, d) ↦ elim (Result-cases (collect_lines F (suc n) ls)) [
      | inl (r, c) ↦ ground (arith, b, d, c, h)
      | inr (y, c) ↦ ground (arith, b, d, c, h)
    ]
  ]
]

gap_errors-IsNumbered : (i : ℕ) (es : List Event) → (gap_errors i es ≡ [] ↔ IsNumbered (suc i) es)
unfolding gap_errors
gap_errors-IsNumbered i [] = ground arith
gap_errors-IsNumbered i (e ∷ es) =
    ground (arith, gap_errors-IsNumbered (suc i) es, ==_iff e.sequence (suc i))

IsNumbered-ordered : (i : ℕ) (es : List Event) → IsNumbered i es → order_errors es ≡ []
unfolding order_errors
IsNumbered-ordered i [] h = refl
IsNumbered-ordered i (e ∷ []) h = refl
IsNumbered-ordered i (a ∷ (b ∷ es)) h = ground (arith, IsNumbered-ordered (suc i) (b ∷ es) h.1)

empty-append : {A : Type 0} (xs ys : List A) → is_empty (xs ++ ys) ≡ true → (xs ≡ []) × (ys ≡ [])
empty-append [] [] h = (refl, refl)
empty-append [] (y ∷ ys) h = cc h
empty-append (x ∷ xs) ys h = cc h

no_errors_iff :
    (events : List Event) (unread : List String)
    → ((report (events, unread)).valid ≡ true) ↔ ((unread ≡ []) × IsNumbered 1 events)
no_errors_iff events (x ∷ unread) = ground arith
no_errors_iff events [] = ground (
  arith,
  gap_errors-IsNumbered 0 events,
  IsNumbered-ordered 1 events,
  empty-append (order_errors events) (gap_errors 0 events),
)

reported :
    (F : Format) (D : Disk) (s : PersistentEventStore F D) (ls : List (Result String String))
    (r : VerificationResult) (c : List Event × List String)
    → D.lines s.disk ≡ ok ls
    → verify F D s ≡ ok r
    → collect_lines F 0 ls ≡ ok c
    → r ≡ report c
unfolding verify
reported F D s ls r c found h collected = ground (arith, found, collected, h)

-- Where `verify` answers, it reports the log as valid exactly where every line that is not blank holds
-- an event, and the events carry the numbers 1, 2, 3 and so on.
pub verify_iff :
    (F : Format) (D : Disk) (s : PersistentEventStore F D) (ls : List (Result String String))
    (r : VerificationResult)
    → D.lines s.disk ≡ ok ls
    → verify F D s ≡ ok r
    → (r.valid ≡ true) ↔ ((es : List Event) × Holds F ls es × IsNumbered 1 es)
unfolding verify
verify_iff F D s ls r found h = elim (Result-cases (collect_lines F 0 ls)) [
  | inr (e, bad) ↦ ground (arith, found, bad, h)
  | inl (c, good) ↦
      let is = reported F D s ls r c found h good in
      (
        λ valid.
            (let clean = (no_errors_iff c.0 c.1).0 (sym (ap (λ x. x.valid) is) ∙ valid) in
              (c.0, collects-Holds F 0 ls c.0 (good ∙ ap (λ u. ok (c.0, u)) clean.0), clean.1)),
        λ (es, holds, numbered).
            (ap (λ x. x.valid)
                (reported F D s ls r (es, []) found h (Holds-collects F 0 ls es holds))
              ∙ (no_errors_iff es []).1 (refl, numbered)),
      )
]
