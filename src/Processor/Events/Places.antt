-- ===== src/Processor/Events/Places.antt =====
-- The entries of an id before and after an event of the processor.
use xwork.Prelude.{
  ℕ, ◌+◌, Option, none, some, List, [], String, ◌≡◌, inl, inr, arith, nat_eq, ltb, leb, ◌==◌,
  if◌then◌else◌, Option-cases, Bool-cases,
}
use xwork.Prelude.Result.{Result, ok, err, Error, orphan_job}
use xwork.GoMap.{lookup}
use xwork.GoMap.Laws.{lookup-set, lookup-delete}
use xwork.Payload.{IsPayload}
use xwork.Text.{Platform}
use xwork.Job.{Uuid, Time, ScheduledJob, EnqueuedJob, ProcessingJob, FailedJob}
use xwork.Memory.State.{MemoryState}
use xwork.Memory.Stored.{lookup-Stored}
use xwork.Memory.Processing.{emit_heartbeat}
use xwork.Memory.Inserts.{insert_to_queue-new, insert_to_scheduled-new}
use xwork.Memory.Adapter.{memory_adapter}
use xwork.Processor.Backoff.{default_max_retry_count}
use xwork.Processor.Moves.{
  enqueue, dequeue, retry, enqueue_scheduled, fail_with_stack, error_json, enqueued_from_scheduled,
  processing_from_enqueued, enqueued_from_failed, failed_from_processing, processed_from_processing,
}
use xwork.Processor.Dequeue.{Dequeues, dequeue-Dequeues, started}
use xwork.Processor.Effects.{
  finished, failed_once_more, released, complete-new, fail-new, fail-discard, retry-new, retry-gone,
  enqueue_scheduled-new,
}
use xwork.Processor.Work.{Outcome, returned_nil, returned, panicked, settle}
use xwork.Processor.Events.{at, places, Event, occur, Enabled, IsExclusive, made, dropped}

module _ (platform : Platform) (s : MemoryState) (x : IsExclusive s) (id : Uuid) where
  -- The entries of `id` in a state `t` that an event leaves, against those in `s`.
  abbrev Balance : ℕ → ℕ → MemoryState → Type 0
  Balance gone new t = places id t + gone ≡ places id s + new

  finished-Balance :
      (now : Time) (job : ProcessingJob)
      → lookup job.id s.processing ≡ some job
      → Balance 0 0 (finished now job s)
  finished-Balance now job held = ground (
    arith,
    x.once job.id,
    lookup-delete id job.id s.processing,
    lookup-set id job.id (processed_from_processing now job) s.processed,
  )

  failed-Balance :
      (now : Time) (error : String) (job : ProcessingJob)
      → lookup job.id s.processing ≡ some job
      → Balance 0 0 (failed_once_more now error job s)
  failed-Balance now error job held = ground (
    arith,
    x.once job.id,
    lookup-delete id job.id s.processing,
    lookup-set id job.id (failed_from_processing now error job) s.failed,
  )

  released-Balance :
      (job : ProcessingJob)
      → lookup job.id s.processing ≡ some job
      → Balance (at (if job.id == id then some job else none)) 0 (released job.id s)
  released-Balance job held = ground (arith, lookup-delete id job.id s.processing)

  -- what the tables say of a job in processing
  pub unfailed :
      (job : ProcessingJob) → lookup job.id s.processing ≡ some job → lookup job.id s.failed ≡ none
  unfailed job held = elim (Option-cases (lookup job.id s.failed)) [
    | inl e ↦ e
    | inr (f, e) ↦ absurd (ground (arith, x.once job.id))
  ]

  pub unprocessed :
      (job : ProcessingJob)
      → lookup job.id s.processing ≡ some job
      → lookup job.id s.processed ≡ none
  unprocessed job held = elim (Option-cases (lookup job.id s.processed)) [
    | inl e ↦ e
    | inr (f, e) ↦ absurd (ground (arith, x.once job.id))
  ]

  in_processing-IsPayload :
      (job : ProcessingJob) → lookup job.id s.processing ≡ some job → IsPayload job.payload
  in_processing-IsPayload job held =
      (lookup-Stored (λ (j : ProcessingJob). j.id) (λ j. j.payload) job.id job s.processing
        x.valid.processing held).1

  fail-Balance :
      (now : Time) (job : ProcessingJob) (e : Error) (stack : List ℕ)
      → lookup job.id s.processing ≡ some job
      → Balance
          (dropped (Event.orphans now job) id)
          0
          (fail_with_stack (memory_adapter platform) platform now job e stack s).1
  fail-Balance now job e stack held =
      elim (Bool-cases (leb default_max_retry_count job.retry_count)) [
        | inl spent ↦
            rw (fail-discard platform now s x.valid job e stack (ground (arith, spent)))
              (ground (arith, released-Balance job held, spent))
        | inr left ↦
            rw
              (fail-new platform now s x.valid job e stack (in_processing-IsPayload job held)
                (ground (arith, left)) (unfailed job held))
              (ground (arith, failed-Balance now (error_json platform e stack) job held, left))
      ]

  settle-Balance :
      (done now : Time) (job : ProcessingJob) (outcome : Outcome)
      → lookup job.id s.processing ≡ some job
      → Balance
          (dropped (Event.settles done now job outcome) id)
          0
          (settle (memory_adapter platform) platform done now job outcome s)
  unfolding settle
  settle-Balance done now job returned_nil held =
      rw
        (complete-new platform done s x.valid job (in_processing-IsPayload job held)
          (unprocessed job held))
        (finished-Balance done job held)
  settle-Balance done now job (returned e) held = fail-Balance now job e [] held
  settle-Balance done now job (panicked text stack) held = fail-Balance now job _ stack held

  enqueue-Balance :
      (checked now : Time) (job : ScheduledJob)
      → places job.id s ≡ 0
      → IsPayload job.payload
      → Balance 0
          (made (Event.enqueues checked now job) id)
          (enqueue (memory_adapter platform) checked now job s).1
  unfolding enqueue
  enqueue-Balance checked now job new p = elim (Bool-cases (ltb job.enqueue_at checked)) [
    | inl at_once ↦
        rw
          (at_once, insert_to_queue-new (enqueued_from_scheduled now job) s p (ground (arith, new)))
          (ground (arith, new, lookup-set id job.id (enqueued_from_scheduled now job) s.enqueued))
    | inr later ↦
        rw (later, insert_to_scheduled-new job s p (ground (arith, new)))
          (ground (arith, new, lookup-set id job.id job s.scheduled))
  ]

  enqueue_scheduled-Balance :
      (now : Time) (job : ScheduledJob)
      → lookup job.id s.scheduled ≡ some job
      → Balance 0 0 (enqueue_scheduled (memory_adapter platform) now job s).1
  enqueue_scheduled-Balance now job held =
      let fit =
        lookup-Stored (λ (j : ScheduledJob). j.id) (λ j. j.payload) job.id job s.scheduled
          x.valid.scheduled held in
      let free : lookup job.id s.enqueued ≡ none = ground (arith, x.once job.id) in
      rw (enqueue_scheduled-new platform now s x.valid job fit.1 free) (
        ground (
          arith,
          x.once job.id,
          lookup-delete id job.id s.scheduled,
          lookup-set id job.id (enqueued_from_scheduled now job) s.enqueued,
        ))

  retry-Balance :
      (now : Time) (job : FailedJob) → Balance 0 0 (retry (memory_adapter platform) now job s).1
  retry-Balance now job = elim (Option-cases (lookup job.id s.failed)) [
    | inl gone ↦ rw (retry-gone platform now s x.valid job gone) (omega arith)
    | inr (stored, there) ↦
        let free : lookup job.id s.enqueued ≡ none = ground (arith, x.once job.id, there) in
        rw (retry-new platform now s x.valid job stored there free) (
          ground (
            arith,
            there,
            x.once job.id,
            lookup-delete id job.id s.failed,
            lookup-set id job.id (enqueued_from_failed now stored) s.enqueued,
          ))
  ]

  started-Balance :
      (now : Time) (b : EnqueuedJob)
      → lookup b.id s.enqueued ≡ some b
      → Balance 0 0 (started now b s)
  started-Balance now b there = ground (
    arith,
    there,
    x.once b.id,
    lookup-delete id b.id s.enqueued,
    lookup-set id b.id (processing_from_enqueued now b) s.processing,
  )

  dequeued-Balance :
      (now : Time) (q : String) (r : Result (Option ProcessingJob) × MemoryState)
      → Dequeues now q s r
      → Balance 0 0 r.1
  dequeued-Balance now q (ok none, t) (same, _) = rw same (omega arith)
  dequeued-Balance now q (ok (some job), t) (b, o, _, _, same) =
      rw same (started-Balance now b o.stored)
  dequeued-Balance now q (err e, t) (_, same, _) = rw same (omega arith)

  -- Whatever event occurs, the tables hold for each id the entries that they held before, and the
  -- one that a call of `Enqueue` makes, less the one of a job that fails with no retries left.
  pub occur-Balance :
      (e : Event) → Enabled platform e s → Balance (dropped e id) (made e id) (occur platform e s)
  unfolding occur emit_heartbeat
  occur-Balance (Event.enqueues checked now job) h = enqueue-Balance checked now job h.0 h.1
  occur-Balance (Event.enqueues_scheduled now job) h = enqueue_scheduled-Balance now job h
  occur-Balance (Event.retries now job) h = retry-Balance now job
  occur-Balance (Event.dequeues now queue) h =
      dequeued-Balance now queue (dequeue (memory_adapter platform) now queue s)
        (dequeue-Dequeues platform now queue s x.valid)
  occur-Balance (Event.settles done now job outcome) h = settle-Balance done now job outcome h
  occur-Balance (Event.orphans now job) h = fail-Balance now job orphan_job [] h
  occur-Balance (Event.beats now job) h = omega arith
