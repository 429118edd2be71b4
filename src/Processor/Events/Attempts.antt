-- ===== src/Processor/Events/Attempts.antt =====
-- How often a job is tried.
use xwork.Prelude.{
  ℕ, ◌<◌, ◌≤◌, Option, none, some, List, [], ◌∷◌, String, ◌≡◌, inl, inr, arith, nat_eq, ltb, leb,
  Option-cases, Bool-cases,
}
use xwork.Prelude.Result.{Result, ok, err, Error, orphan_job}
use xwork.GoMap.{lookup}
use xwork.GoMap.Laws.{lookup-set, lookup-delete}
use xwork.Payload.{IsPayload}
use xwork.Text.{Platform}
use xwork.Job.{Uuid, Time, ScheduledJob, EnqueuedJob, ProcessingJob, FailedJob}
use xwork.Memory.State.{MemoryState, new_memory_state}
use xwork.Memory.Stored.{lookup-Stored}
use xwork.Memory.Adapter.{memory_adapter}
use xwork.Memory.Inserts.{insert_to_queue-new, insert_to_scheduled-new}
use xwork.Processor.Backoff.{default_max_retry_count}
use xwork.Processor.Moves.{
  enqueue, dequeue, retry, enqueue_scheduled, fail_with_stack, error_json, enqueued_from_scheduled,
  processing_from_enqueued, enqueued_from_failed, failed_from_processing,
}
use xwork.Processor.Dequeue.{Dequeues, dequeue-Dequeues, started}
use xwork.Processor.Effects.{
  finished, failed_once_more, complete-new, fail-new, fail-discard, retry-new, retry-gone,
  enqueue_scheduled-new,
}
use xwork.Processor.Work.{Outcome, returned_nil, returned, panicked, settle}
use xwork.Memory.Processing.{emit_heartbeat}
use xwork.Processor.Events.Places.{unfailed, unprocessed}
use xwork.Processor.Events.Valid.{in_processing-IsPayload, occur-IsExclusive}
use xwork.Processor.Events.History.{new_memory_state-IsExclusive}
use xwork.Processor.Events.{places, Event, occur, Enabled, occur_all, EnabledAll, IsExclusive}

-- A count of retries that the processor may meet.
abbrev pub EnqueuedWithin : Option EnqueuedJob → Type 0
EnqueuedWithin none = Unit {0}
EnqueuedWithin (some job) = job.retry_count ≤ default_max_retry_count

abbrev pub ProcessingWithin : Option ProcessingJob → Type 0
ProcessingWithin none = Unit {0}
ProcessingWithin (some job) = job.retry_count ≤ default_max_retry_count

-- a failed job has failed at least once
abbrev pub FailedWithin : Option FailedJob → Type 0
FailedWithin none = Unit {0}
FailedWithin (some job) = (1 ≤ job.retry_count) × (job.retry_count ≤ default_max_retry_count)

-- The counts of one id in all tables.
abbrev pub CountsWithin : Uuid → MemoryState → Type 0
CountsWithin id s =
    EnqueuedWithin (lookup id s.enqueued)
    × ProcessingWithin (lookup id s.processing)
    × FailedWithin (lookup id s.failed)

module _ (platform : Platform) (s : MemoryState) (x : IsExclusive s)
    (w : (id : Uuid) → CountsWithin id s) (id : Uuid) where
  finished-CountsWithin : (now : Time) (job : ProcessingJob) → CountsWithin id (finished now job s)
  finished-CountsWithin now job = ground (arith, w id, lookup-delete id job.id s.processing)

  failed-CountsWithin :
      (now : Time) (error : String) (job : ProcessingJob)
      → job.retry_count < default_max_retry_count
      → CountsWithin id (failed_once_more now error job s)
  failed-CountsWithin now error job left = ground (
    arith,
    w id,
    lookup-delete id job.id s.processing,
    lookup-set id job.id (failed_from_processing now error job) s.failed,
  )

  started-CountsWithin :
      (now : Time) (b : EnqueuedJob)
      → lookup b.id s.enqueued ≡ some b
      → CountsWithin id (started now b s)
  started-CountsWithin now b there = ground (
    arith,
    w id,
    w b.id,
    there,
    lookup-delete id b.id s.enqueued,
    lookup-set id b.id (processing_from_enqueued now b) s.processing,
  )

  fail-CountsWithin :
      (now : Time) (job : ProcessingJob) (e : Error) (stack : List ℕ)
      → lookup job.id s.processing ≡ some job
      → CountsWithin id (fail_with_stack (memory_adapter platform) platform now job e stack s).1
  fail-CountsWithin now job e stack held =
      elim (Bool-cases (leb default_max_retry_count job.retry_count)) [
        | inl spent ↦
            rw (fail-discard platform now s x.valid job e stack (ground (arith, spent)))
              (ground (arith, w id, lookup-delete id job.id s.processing))
        | inr left ↦
            rw
              (fail-new platform now s x.valid job e stack
                (in_processing-IsPayload platform s x.valid job held) (ground (arith, left))
                (unfailed platform s x id job held))
              (failed-CountsWithin now (error_json platform e stack) job (ground (arith, left)))
      ]

  settle-CountsWithin :
      (done now : Time) (job : ProcessingJob) (outcome : Outcome)
      → lookup job.id s.processing ≡ some job
      → CountsWithin id (settle (memory_adapter platform) platform done now job outcome s)
  unfolding settle
  settle-CountsWithin done now job returned_nil held =
      rw
        (complete-new platform done s x.valid job
          (in_processing-IsPayload platform s x.valid job held)
          (unprocessed platform s x id job held))
        (finished-CountsWithin done job)
  settle-CountsWithin done now job (returned e) held = fail-CountsWithin now job e [] held
  settle-CountsWithin done now job (panicked text stack) held =
      fail-CountsWithin now job _ stack held

  enqueue-CountsWithin :
      (checked now : Time) (job : ScheduledJob)
      → places job.id s ≡ 0
      → IsPayload job.payload
      → CountsWithin id (enqueue (memory_adapter platform) checked now job s).1
  unfolding enqueue
  enqueue-CountsWithin checked now job new p = elim (Bool-cases (ltb job.enqueue_at checked)) [
    | inl at_once ↦
        rw
          (at_once, insert_to_queue-new (enqueued_from_scheduled now job) s p (ground (arith, new)))
          (ground (arith, w id, lookup-set id job.id (enqueued_from_scheduled now job) s.enqueued))
    | inr later ↦ rw (later, insert_to_scheduled-new job s p (ground (arith, new))) (w id)
  ]

  enqueue_scheduled-CountsWithin :
      (now : Time) (job : ScheduledJob)
      → lookup job.id s.scheduled ≡ some job
      → CountsWithin id (enqueue_scheduled (memory_adapter platform) now job s).1
  enqueue_scheduled-CountsWithin now job held =
      let fit =
        lookup-Stored (λ (j : ScheduledJob). j.id) (λ j. j.payload) job.id job s.scheduled
          x.valid.scheduled held in
      let free : lookup job.id s.enqueued ≡ none = ground (arith, x.once job.id) in
      rw (enqueue_scheduled-new platform now s x.valid job fit.1 free)
        (ground (arith, w id, lookup-set id job.id (enqueued_from_scheduled now job) s.enqueued))

  retry-CountsWithin :
      (now : Time) (job : FailedJob) → CountsWithin id (retry (memory_adapter platform) now job s).1
  retry-CountsWithin now job = elim (Option-cases (lookup job.id s.failed)) [
    | inl gone ↦ rw (retry-gone platform now s x.valid job gone) (w id)
    | inr (stored, there) ↦
        let free : lookup job.id s.enqueued ≡ none = ground (arith, x.once job.id, there) in
        rw (retry-new platform now s x.valid job stored there free) (
          ground (
            arith,
            w id,
            w job.id,
            there,
            lookup-delete id job.id s.failed,
            lookup-set id job.id (enqueued_from_failed now stored) s.enqueued,
          ))
  ]

  dequeued-CountsWithin :
      (now : Time) (q : String) (r : Result (Option ProcessingJob) × MemoryState)
      → Dequeues now q s r
      → CountsWithin id r.1
  dequeued-CountsWithin now q (ok none, t) (same, _) = rw same (w id)
  dequeued-CountsWithin now q (ok (some job), t) (b, o, _, _, same) =
      rw same (started-CountsWithin now b o.stored)
  dequeued-CountsWithin now q (err e, t) (_, same, _) = rw same (w id)

  -- Every event keeps the counts of retries within their bounds.
  pub occur-CountsWithin : (e : Event) → Enabled platform e s → CountsWithin id (occur platform e s)
  unfolding occur emit_heartbeat
  occur-CountsWithin (Event.enqueues checked now job) h =
      enqueue-CountsWithin checked now job h.0 h.1
  occur-CountsWithin (Event.enqueues_scheduled now job) h = enqueue_scheduled-CountsWithin now job h
  occur-CountsWithin (Event.retries now job) h = retry-CountsWithin now job
  occur-CountsWithin (Event.dequeues now queue) h =
      dequeued-CountsWithin now queue (dequeue (memory_adapter platform) now queue s)
        (dequeue-Dequeues platform now queue s x.valid)
  occur-CountsWithin (Event.settles done now job outcome) h =
      settle-CountsWithin done now job outcome h
  occur-CountsWithin (Event.orphans now job) h = fail-CountsWithin now job orphan_job [] h
  occur-CountsWithin (Event.beats now job) h = w id

module _ (platform : Platform) where
  occur_all-CountsWithin :
      (es : List Event) (s : MemoryState)
      → IsExclusive s
      → ((id : Uuid) → CountsWithin id s)
      → EnabledAll platform es s
      → (id : Uuid) → CountsWithin id (occur_all platform es s)
  unfolding occur_all
  occur_all-CountsWithin [] s x w h = w
  occur_all-CountsWithin (e ∷ es) s x w h =
      occur_all-CountsWithin es (occur platform e s) (occur-IsExclusive platform e s x h.0)
        (λ id. occur-CountsWithin platform s x w id e h.0) h.1

  -- In every history that starts with an empty store and in which each event is enabled where it
  -- occurs (a job that is enqueued has a new id, one that the poller of the schedule enqueues is
  -- scheduled still, and one that is settled or failed as an orphan is in processing still), no
  -- job in the queue, in processing or failed has more than 19 retries, and a failed job has one
  -- at least.
  pub retries_bounded :
      (es : List Event) (id : Uuid)
      → EnabledAll platform es new_memory_state
      → CountsWithin id (occur_all platform es new_memory_state)
  unfolding lookup
  retries_bounded es id h =
      occur_all-CountsWithin es new_memory_state new_memory_state-IsExclusive (λ i. (tt, tt, tt)) h
        id
