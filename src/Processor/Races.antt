-- ===== src/Processor/Races.antt =====
-- What the moves of process.go do with a job that has changed since they read it.
use xwork.Prelude.{ℕ, none, some, List, ◌∷◌, ◌≡◌, refl, ◌≢◌, arith, nat_eq}
use xwork.Prelude.Result.{ok, err, already_enqueued}
use xwork.GoMap.{lookup}
use xwork.GoMap.Laws.{lookup-set_self}
use xwork.Payload.{IsPayload}
use xwork.Text.{Platform}
use xwork.Job.{Time, ScheduledJob, ProcessingJob, FailedJob}
use xwork.Memory.State.{MemoryState}
use xwork.Memory.Invariant.{IsValid}
use xwork.Memory.Adapter.{memory_adapter}
use xwork.Processor.Moves.{
  complete, enqueue_scheduled, enqueued_from_scheduled, processed_from_processing,
}
use xwork.Processor.Passes.{enqueue_all}
use xwork.Processor.Effects.{complete-new, enqueue_scheduled-new, enqueue_scheduled-taken}

module _ (platform : Platform) (now : Time) (s : MemoryState) (v : IsValid s) where
  -- In a well-formed store where a job's id is in processing and not queued, and its payload is a
  -- Go map, `enqueueScheduled` of that job succeeds: afterwards the id is queued, and in
  -- processing as before.
  pub enqueue_scheduled_stale :
      (job : ScheduledJob) (running : ProcessingJob)
      → IsPayload job.payload
      → lookup job.id s.enqueued ≡ none
      → lookup job.id s.processing ≡ some running
      → let (r, t) = enqueue_scheduled (memory_adapter platform) now job s in
        (r ≡ ok tt)
        × (lookup job.id t.enqueued ≡ some (enqueued_from_scheduled now job))
        × (lookup job.id t.processing ≡ some running)
  enqueue_scheduled_stale job running p free busy =
      rw (enqueue_scheduled-new platform now s v job p free)
        (refl, lookup-set_self job.id (enqueued_from_scheduled now job) s.enqueued, busy)

  -- In a well-formed store where a job's id is failed and not processed, and its payload is a Go
  -- map, `complete` of that job succeeds: afterwards the id is processed, and failed as before.
  pub complete_orphan :
      (job : ProcessingJob) (failed : FailedJob)
      → IsPayload job.payload
      → lookup job.id s.processed ≡ none
      → lookup job.id s.failed ≡ some failed
      → let (r, t) = complete (memory_adapter platform) now job s in
        (r ≡ ok tt)
        × (lookup job.id t.processed ≡ some (processed_from_processing now job))
        × (lookup job.id t.failed ≡ some failed)
  complete_orphan job failed p free there =
      rw (complete-new platform now s v job p free)
        (refl, lookup-set_self job.id (processed_from_processing now job) s.processed, there)

  -- In a well-formed store, when the id of the first job of a pass over the schedule is queued
  -- already, the pass ends with an error and nothing is changed.
  pub enqueue_all_blocked :
      (clock : ℕ → Time) (n : ℕ) (job : ScheduledJob) (jobs : List ScheduledJob)
      → lookup job.id s.enqueued ≢ none
      → enqueue_all (memory_adapter platform) clock n (job ∷ jobs) s ≡ (err already_enqueued, s)
  unfolding enqueue_all
  enqueue_all_blocked clock n job jobs busy =
      ground (arith, enqueue_scheduled-taken platform (clock n) s v job busy)
