-- ===== src/Processor/Events.antt =====
-- The processor at work as a sequence of events: each is one transaction of one goroutine on the
-- in-memory store, and any interleaving of the goroutines is a list of them.
pub mod Places
pub mod Valid
pub mod History
pub mod Attempts
use xwork.Prelude.{
  ℕ, ◌+◌, ◌≤◌, Bool, true, false, Option, none, some, List, [], ◌∷◌, String, ◌≡◌, nat_eq, leb, eqb,
  ◌==◌, if◌then◌else◌, ◌&&◌,
}
use xwork.Prelude.Result.{Error, orphan_job}
use xwork.GoMap.{lookup}
use xwork.Payload.{IsPayload}
use xwork.Text.{Platform}
use xwork.Job.{Uuid, Time, ScheduledJob, ProcessingJob, FailedJob}
use xwork.Memory.State.{MemoryState}
use xwork.Memory.Invariant.{IsValid}
use xwork.Memory.Processing.{emit_heartbeat}
use xwork.Memory.Adapter.{memory_adapter}
use xwork.Processor.Backoff.{default_max_retry_count}
use xwork.Processor.Moves.{enqueue, dequeue, retry, enqueue_scheduled, fail}
use xwork.Processor.Work.{Outcome, returned_nil, returned, panicked, settle}

-- The table entries of one id.
abbrev pub at {ℓ} : {V : Type ℓ} → Option V → ℕ
at none = 0
at (some _) = 1

abbrev pub places : Uuid → MemoryState → ℕ
places id s =
    at (lookup id s.scheduled)
    + at (lookup id s.enqueued)
    + at (lookup id s.processing)
    + at (lookup id s.processed)
    + at (lookup id s.failed)

pub data Event : Type 0 where
  -- a call of `Enqueue`, `EnqueueIn` or `EnqueueAt`
  enqueues : Time → Time → ScheduledJob → Event
  -- a job of the polling loops
  enqueues_scheduled : Time → ScheduledJob → Event
  retries : Time → FailedJob → Event
  -- a worker takes a job, and is done with one
  dequeues : Time → String → Event
  settles : Time → Time → ProcessingJob → Outcome → Event
  -- a job of the orphan check
  orphans : Time → ProcessingJob → Event
  beats : Time → ProcessingJob → Event

module _ (platform : Platform) where
  unfoldable pub occur : Event → MemoryState → MemoryState
  occur (Event.enqueues checked now job) s = (enqueue (memory_adapter platform) checked now job s).1
  occur (Event.enqueues_scheduled now job) s =
      (enqueue_scheduled (memory_adapter platform) now job s).1
  occur (Event.retries now job) s = (retry (memory_adapter platform) now job s).1
  occur (Event.dequeues now queue) s = (dequeue (memory_adapter platform) now queue s).1
  occur (Event.settles done now job outcome) s =
      settle (memory_adapter platform) platform done now job outcome s
  occur (Event.orphans now job) s = (fail (memory_adapter platform) platform now job orphan_job s).1
  occur (Event.beats now job) s = (emit_heartbeat now job s).1

  -- When an event can occur: a new job has a new id; the one poller of the schedule holds a job
  -- that is still scheduled; a job that is settled or failed as an orphan is still in processing.
  -- The retry poller, the workers and the heartbeats are not restricted.
  abbrev pub Enabled : Event → MemoryState → Type 0
  Enabled (Event.enqueues checked now job) s = (places job.id s ≡ 0) × IsPayload job.payload
  Enabled (Event.enqueues_scheduled now job) s = lookup job.id s.scheduled ≡ some job
  Enabled (Event.retries now job) s = Unit {0}
  Enabled (Event.dequeues now queue) s = Unit {0}
  Enabled (Event.settles done now job outcome) s = lookup job.id s.processing ≡ some job
  Enabled (Event.orphans now job) s = lookup job.id s.processing ≡ some job
  Enabled (Event.beats now job) s = Unit {0}

  -- A history that respects this.
  unfoldable pub occur_all : List Event → MemoryState → MemoryState
  occur_all [] s = s
  occur_all (e ∷ es) s = occur_all es (occur e s)

  abbrev pub EnabledAll : List Event → MemoryState → Type 0
  EnabledAll [] s = Unit {0}
  EnabledAll (e ∷ es) s = Enabled e s × EnabledAll es (occur e s)

-- Every id has at most one entry in all the tables.
pub record IsExclusive (s : MemoryState) : Type 0 where
  pub valid : IsValid s
  pub once : (id : Uuid) → places id s ≤ 1

abbrev one_if : Bool → ℕ
one_if true = 1
one_if false = 0

-- the entries that an event makes for an id, and those that it drops for good
abbrev pub made : Event → Uuid → ℕ
made (Event.enqueues checked now job) id = one_if (job.id == id)
made _ id = 0

abbrev fails_for_good : ProcessingJob → Uuid → ℕ
fails_for_good job id = one_if (job.id == id && leb default_max_retry_count job.retry_count)

abbrev dropped_by : Outcome → ProcessingJob → Uuid → ℕ
dropped_by returned_nil job id = 0
dropped_by (returned e) job id = fails_for_good job id
dropped_by (panicked text stack) job id = fails_for_good job id

abbrev pub dropped : Event → Uuid → ℕ
dropped (Event.settles done now job outcome) id = dropped_by outcome job id
dropped (Event.orphans now job) id = fails_for_good job id
dropped _ id = 0
