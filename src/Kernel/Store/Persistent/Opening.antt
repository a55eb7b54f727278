-- ===== src/Kernel/Store/Persistent/Opening.antt =====
-- What `open` finds out from the log.
use mathlib.Core.Path.{ap₂}
use cotrex_ai.Base.{
  ℕ, suc, ◌+◌, ◌<◌, String, ◌≡◌, ◌∙◌, true, Option, some, List, [], ◌∷◌, arith, length, map, Result,
  ok, u64_mod, ltb, add_u64,
}
use cotrex_ai.Kernel.Event.{Event}
use cotrex_ai.Kernel.Store.{EventStoreError, IsNumbered}
use cotrex_ai.Kernel.Store.Persistent.{Format, Disk, StoreMeta, scan_lines, scan_log}
use cotrex_ai.Kernel.Store.Persistent.Journal.{Records}

abbrev meta_of : ℕ → ℕ → StoreMeta
meta_of next count = record { next_sequence = next; event_count = count }

abbrev scanned : ℕ → ℕ → Result (Option StoreMeta) EventStoreError
scanned next count = ok (some (meta_of next count))

scan_lines-Records :
    (F : Format) (D : Disk) (count last : ℕ) (ls : List String) (es : List Event)
    → Records F ls es
    → IsNumbered (suc last) es
    → count + length es + 1 < u64_mod
    → last + length es + 1 < u64_mod
    → scan_lines F D count last (map (λ l. ok l) ls)
      ≡ ok (some (meta_of (last + length es + 1) (count + length es)))
unfolding scan_lines
scan_lines-Records F D count last [] [] h numbered room room' =
    ap₂ scanned (omega arith) (omega arith)
scan_lines-Records F D count last (l ∷ ls) (e ∷ es) (full, read, rest) (here, behind) room room' =
    let above : ltb last e.sequence ≡ true = ground (arith, here) in
    let one : add_u64 count 1 ≡ count + 1 = omega arith in
    let next =
      scan_lines-Records F D (count + 1) (suc last) ls es rest behind (omega arith) (omega arith) in
    rw (full, read, above, scan_lines)
      (rw (one, here) (next ∙ ap₂ scanned (omega arith) (omega arith)))
scan_lines-Records F D count last [] (e ∷ es) h numbered room room' = absurd h
scan_lines-Records F D count last (l ∷ ls) [] h numbered room room' = absurd h

-- A scan of a log that holds the lines of numbered events counts them, and finds the number behind
-- the last one.
pub scan_log_recorded :
    (F : Format) (D : Disk) (d : D.State) (ls : List String) (es : List Event)
    → D.log_exists d ≡ true
    → D.lines d ≡ ok (map (λ l. ok l) ls)
    → Records F ls es
    → IsNumbered 1 es
    → length es + 1 < u64_mod
    → scan_log F D d ≡ ok (some (record { next_sequence = length es + 1; event_count = length es }))
unfolding scan_log
scan_log_recorded F D d ls es there readable recorded numbered room =
    rw (there, readable, scan_log)
      (scan_lines-Records F D 0 0 ls es recorded numbered (omega arith) (omega arith)
        ∙ ap₂ scanned (omega arith) (omega arith))
