-- ===== src/Tests/Store.antt =====
-- `MemoryEventStore` on concrete inputs.
use cotrex_ai.Base.{◌-◌, ◌≡◌, refl, [], ◌∷◌, arith, length, drop, ok, err}
use cotrex_ai.FilePath.{FilePath, root_dir, normal}
use cotrex_ai.Kernel.Event.{EventPayload, file_changed, FileOperation}
use cotrex_ai.Kernel.Store.{backpressure}
use cotrex_ai.Kernel.Store.Memory.{MemoryEventStore, Stamp, with_capacity, append, replay}
use cotrex_ai.Kernel.Store.Memory.Laws.{IsValid, with_capacity-IsValid, append-IsValid, replay-drop}

abbrev stamp : Stamp
stamp = record { id = 7; now = 1000 }

abbrev a_txt : FilePath
a_txt = root_dir ∷ normal "a.txt" ∷ []

abbrev made : EventPayload
made = file_changed (record { path = a_txt; operation = FileOperation.created; timestamp = 1000 })

abbrev small : MemoryEventStore
small = with_capacity 2

abbrev one : MemoryEventStore
one = (append stamp made small).1

append_three : (append stamp made (append stamp made one).1).0 ≡ err backpressure
unfolding with_capacity append
append_three = refl

one-IsValid : IsValid one
unfolding with_capacity
one-IsValid = append-IsValid stamp made small (with_capacity-IsValid 2) (omega arith)

replay-drop_example :
    replay 1 one
    ≡ ok (record { events = drop (1 - 1) one.events; snapshot_end = length one.events })
replay-drop_example = replay-drop 1 one one-IsValid
