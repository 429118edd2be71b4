-- ===== src/Tests/Lifecycle.antt =====
-- Witnesses of the life of a processor (process.go) on the in-memory adapter.
use xwork.Prelude.{true, List, [], ◌∷◌, String, ◌≡◌, refl, inl, inr}
use xwork.Prelude.Result.{ok}
use xwork.Memory.State.{MemoryState}
use xwork.Memory.Adapter.{memory_adapter}
use xwork.Processor.Work.{JobDefinitions}
use xwork.Processor.Lifecycle.{Loop, Process, process, shutdown, Step, Run}
use xwork.Processor.Lifecycle.Laws.{IsManaged, stopping, process-IsManaged}
use xwork.Tests.{ascii, busy}

abbrev listened : List String
listened = "default" ∷ []

abbrev no_definitions : JobDefinitions MemoryState
no_definitions = []

-- after the pool has accepted a task for the queue
abbrev polled : Process MemoryState
polled = record (process listened busy) { tasks = "default" ∷ [] }

polled-Run : Run (memory_adapter ascii) ascii no_definitions (process listened busy) polled
polled-Run = Run.next Run.here (
    Step.ticked (process listened busy) (Loop.queue "default") true 60 (λ n. 60)
      (inr (inr (inr (inr (inl refl))))))

process-IsManaged_example :
    IsManaged listened polled
    × (shutdown polled ≡ ok (stopping polled))
    × ((q : Process MemoryState) × Run
          (memory_adapter ascii)
          ascii
          no_definitions
          (process listened busy)
          q
        × (q.loops ≡ [])
        × (q.quit_closed ≡ true)
        × (q.store ≡ polled.store))
process-IsManaged_example =
    process-IsManaged (memory_adapter ascii) ascii listened no_definitions busy polled polled-Run
