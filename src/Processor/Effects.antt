-- ===== src/Processor/Effects.antt =====
-- The moves of process.go over the in-memory adapter, each as an equation for each of its
-- branches. All of them are for a valid state, and for a job whose payload is a Go map.
use xwork.Prelude.{ℕ, ◌<◌, ◌≤◌, none, some, List, ◌≡◌, ◌≢◌, arith, nat_eq, String}
use xwork.Prelude.Result.{ok, err, Error, duplicate_job, already_enqueued}
use xwork.GoMap.{lookup, set, delete}
use xwork.Payload.{IsPayload}
use xwork.Text.{Platform}
use xwork.Job.{Uuid, Time, ScheduledJob, ProcessingJob, FailedJob}
use xwork.Memory.State.{MemoryState}
use xwork.Memory.Scheduled.{delete_from_scheduled}
use xwork.Memory.Processing.{delete_from_processing}
use xwork.Memory.Finished.{claim_failed}
use xwork.Memory.Stored.{lookup-Stored}
use xwork.Memory.Inserts.{
  insert_to_queue-new, insert_to_queue-taken, insert_to_processed-new, insert_to_processed-taken,
  insert_to_failed-new, insert_to_failed-taken,
}
use xwork.Memory.Invariant.{IsValid, transact_lem, clone_failed_job_lem}
use xwork.Memory.Adapter.{memory_adapter}
use xwork.Processor.Backoff.{default_max_retry_count}
use xwork.Processor.Moves.{
  error_json, complete, requeue, fail_with_stack, retry, enqueue_scheduled, enqueued_from_scheduled,
  enqueued_from_processing, enqueued_from_failed, processed_from_processing, failed_from_processing,
}

-- the state without the job in processing and without its heartbeat
abbrev pub released : Uuid → MemoryState → MemoryState
released id s = record s {
  processing = delete id s.processing;
  processing_heartbeat = delete id s.processing_heartbeat;
}

abbrev pub finished : Time → ProcessingJob → MemoryState → MemoryState
finished now job s = record s {
  processed = set job.id (processed_from_processing now job) s.processed;
  processing = delete job.id s.processing;
  processing_heartbeat = delete job.id s.processing_heartbeat;
}

abbrev pub put_back : Time → ProcessingJob → MemoryState → MemoryState
put_back now job s = record s {
  enqueued = set job.id (enqueued_from_processing now job) s.enqueued;
  processing = delete job.id s.processing;
  processing_heartbeat = delete job.id s.processing_heartbeat;
}

abbrev pub failed_once_more : Time → String → ProcessingJob → MemoryState → MemoryState
failed_once_more now error job s = record s {
  failed = set job.id (failed_from_processing now error job) s.failed;
  processing = delete job.id s.processing;
  processing_heartbeat = delete job.id s.processing_heartbeat;
}

module _ (platform : Platform) (now : Time) (s : MemoryState) (v : IsValid s) where
  module _ (job : ProcessingJob) where
    -- A job whose id is not processed yet moves from processing to processed.
    pub complete-new :
        IsPayload job.payload
        → lookup job.id s.processed ≡ none
        → complete (memory_adapter platform) now job s ≡ (ok tt, finished now job s)
    unfolding complete delete_from_processing
    complete-new p free =
        rw (transact_lem _ s v)
          (ground (arith, insert_to_processed-new (processed_from_processing now job) s p free))

    -- A job whose id is processed already stays where it is.
    pub complete-taken :
        lookup job.id s.processed ≢ none
        → complete (memory_adapter platform) now job s ≡ (err duplicate_job, s)
    unfolding complete
    complete-taken busy =
        rw (transact_lem _ s v)
          (ground (arith, insert_to_processed-taken (processed_from_processing now job) s busy))

    -- `requeue` puts the job back with no retries counted.
    pub requeue-new :
        IsPayload job.payload
        → lookup job.id s.enqueued ≡ none
        → requeue (memory_adapter platform) now job s ≡ (ok tt, put_back now job s)
    unfolding requeue delete_from_processing
    requeue-new p free =
        rw (transact_lem _ s v)
          (ground (arith, insert_to_queue-new (enqueued_from_processing now job) s p free))

    pub requeue-taken :
        lookup job.id s.enqueued ≢ none
        → requeue (memory_adapter platform) now job s ≡ (err already_enqueued, s)
    unfolding requeue
    requeue-taken busy =
        rw (transact_lem _ s v)
          (ground (arith, insert_to_queue-taken (enqueued_from_processing now job) s busy))

    module _ (e : Error) (stack : List ℕ) where
      -- A job with retries left moves from processing to failed.
      pub fail-new :
          IsPayload job.payload
          → job.retry_count < default_max_retry_count
          → lookup job.id s.failed ≡ none
          → fail_with_stack (memory_adapter platform) platform now job e stack s
            ≡ (ok tt, failed_once_more now (error_json platform e stack) job s)
      unfolding fail_with_stack delete_from_processing
      fail-new p left free = rw (transact_lem _ s v) (
          ground (
            arith,
            insert_to_failed-new (failed_from_processing now (error_json platform e stack) job)
                (released job.id s) p free,
          ))

      -- A job whose id is among the failed ones already stays where it is.
      pub fail-taken :
          job.retry_count < default_max_retry_count
          → lookup job.id s.failed ≢ none
          → fail_with_stack (memory_adapter platform) platform now job e stack s
            ≡ (err duplicate_job, s)
      unfolding fail_with_stack delete_from_processing
      fail-taken left busy = rw (transact_lem _ s v) (
          ground (
            arith,
            insert_to_failed-taken (failed_from_processing now (error_json platform e stack) job)
                (released job.id s) busy,
          ))

      -- A job that has used up its retries is gone.
      pub fail-discard :
          default_max_retry_count ≤ job.retry_count
          → fail_with_stack (memory_adapter platform) platform now job e stack s
            ≡ (ok tt, released job.id s)
      unfolding fail_with_stack delete_from_processing
      fail-discard spent = rw (transact_lem _ s v) (ground arith)

  module _ (job : FailedJob) where
    -- What `retry` is given may be out of date: it moves the job that is stored.
    pub retry-new :
        (stored : FailedJob)
        → lookup job.id s.failed ≡ some stored
        → lookup job.id s.enqueued ≡ none
        → retry (memory_adapter platform) now job s ≡ (
          ok tt,
          record s {
            failed = delete job.id s.failed;
            enqueued = set job.id (enqueued_from_failed now stored) s.enqueued;
          },
        )
    unfolding retry claim_failed
    retry-new stored there free =
        let fit =
          lookup-Stored (λ (j : FailedJob). j.id) (λ j. j.payload) job.id stored s.failed v.failed
            there in
        rw (transact_lem _ s v) (
          ground (
            arith,
            fit.0,
            clone_failed_job_lem stored fit.1,
            insert_to_queue-new (enqueued_from_failed now stored)
                (record s { failed = delete job.id s.failed }) fit.1 (rw fit.0 free),
          ))

    -- A job whose id is queued already is only taken off the failed ones.
    pub retry-taken :
        (stored : FailedJob)
        → lookup job.id s.failed ≡ some stored
        → lookup job.id s.enqueued ≢ none
        → retry (memory_adapter platform) now job s
          ≡ (ok tt, record s { failed = delete job.id s.failed })
    unfolding retry claim_failed
    retry-taken stored there busy =
        let fit =
          lookup-Stored (λ (j : FailedJob). j.id) (λ j. j.payload) job.id stored s.failed v.failed
            there in
        rw (transact_lem _ s v) (
          ground (
            arith,
            fit.0,
            clone_failed_job_lem stored fit.1,
            insert_to_queue-taken (enqueued_from_failed now stored)
                (record s { failed = delete job.id s.failed }) (rw fit.0 busy),
          ))

    -- A job that another caller has claimed is left to that caller.
    pub retry-gone :
        lookup job.id s.failed ≡ none → retry (memory_adapter platform) now job s ≡ (ok tt, s)
    unfolding retry claim_failed
    retry-gone gone = rw (transact_lem _ s v) (ground (arith, gone))

  module _ (job : ScheduledJob) where
    -- A scheduled job moves to its queue.
    pub enqueue_scheduled-new :
        IsPayload job.payload
        → lookup job.id s.enqueued ≡ none
        → enqueue_scheduled (memory_adapter platform) now job s ≡ (
          ok tt,
          record s {
            scheduled = delete job.id s.scheduled;
            enqueued = set job.id (enqueued_from_scheduled now job) s.enqueued;
          },
        )
    unfolding enqueue_scheduled delete_from_scheduled
    enqueue_scheduled-new p free = rw (transact_lem _ s v) (
        ground (
          arith,
          insert_to_queue-new (enqueued_from_scheduled now job)
              (record s { scheduled = delete job.id s.scheduled }) p free,
        ))

    -- A scheduled job whose id is queued already stays scheduled.
    pub enqueue_scheduled-taken :
        lookup job.id s.enqueued ≢ none
        → enqueue_scheduled (memory_adapter platform) now job s ≡ (err already_enqueued, s)
    unfolding enqueue_scheduled delete_from_scheduled
    enqueue_scheduled-taken busy = rw (transact_lem _ s v) (
        ground (
          arith,
          insert_to_queue-taken (enqueued_from_scheduled now job)
              (record s { scheduled = delete job.id s.scheduled }) busy,
        ))
