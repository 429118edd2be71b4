-- ===== src/Memory/Inserts.antt =====
-- The insertions of the in-memory adapter as equations: a new id is added to its table, and an id
-- that is there already is refused with the state unchanged.
use xwork.Prelude.{none, ◌≡◌, ◌≢◌, arith, nat_eq}
use xwork.Prelude.Result.{ok, err, duplicate_job, already_enqueued}
use xwork.GoMap.{lookup, set}
use xwork.Payload.{IsPayload}
use xwork.Job.{ScheduledJob, EnqueuedJob, ProcessingJob, ProcessedJob, FailedJob}
use xwork.Memory.State.{MemoryState}
use xwork.Memory.Scheduled.{insert_to_scheduled}
use xwork.Memory.Queue.{insert_to_queue}
use xwork.Memory.Processing.{insert_to_processing}
use xwork.Memory.Finished.{insert_to_processed, insert_to_failed}
use xwork.Memory.Invariant.{
  clone_scheduled_job_lem, clone_enqueued_job_lem, clone_processing_job_lem,
  clone_processed_job_lem, clone_failed_job_lem,
}

module _ (job : ScheduledJob) (s : MemoryState) where
  pub insert_to_scheduled-new :
      IsPayload job.payload
      → lookup job.id s.scheduled ≡ none
      → insert_to_scheduled job s ≡ (ok tt, record s { scheduled = set job.id job s.scheduled })
  unfolding insert_to_scheduled
  insert_to_scheduled-new p h = rw (clone_scheduled_job_lem job p) (ground (arith, h))

  pub insert_to_scheduled-taken :
      lookup job.id s.scheduled ≢ none → insert_to_scheduled job s ≡ (err duplicate_job, s)
  unfolding insert_to_scheduled
  insert_to_scheduled-taken h = ground (arith, h)

module _ (job : EnqueuedJob) (s : MemoryState) where
  pub insert_to_queue-new :
      IsPayload job.payload
      → lookup job.id s.enqueued ≡ none
      → insert_to_queue job s ≡ (ok tt, record s { enqueued = set job.id job s.enqueued })
  unfolding insert_to_queue
  insert_to_queue-new p h = rw (clone_enqueued_job_lem job p) (ground (arith, h))

  pub insert_to_queue-taken :
      lookup job.id s.enqueued ≢ none → insert_to_queue job s ≡ (err already_enqueued, s)
  unfolding insert_to_queue
  insert_to_queue-taken h = ground (arith, h)

module _ (job : ProcessingJob) (s : MemoryState) where
  pub insert_to_processing-new :
      IsPayload job.payload
      → lookup job.id s.processing ≡ none
      → insert_to_processing job s ≡ (
        ok tt,
        record s {
          processing = set job.id job s.processing;
          processing_heartbeat = set job.id job.started_at s.processing_heartbeat;
        },
      )
  unfolding insert_to_processing
  insert_to_processing-new p h = rw (clone_processing_job_lem job p) (ground (arith, h))

  pub insert_to_processing-taken :
      lookup job.id s.processing ≢ none → insert_to_processing job s ≡ (err duplicate_job, s)
  unfolding insert_to_processing
  insert_to_processing-taken h = ground (arith, h)

module _ (job : ProcessedJob) (s : MemoryState) where
  pub insert_to_processed-new :
      IsPayload job.payload
      → lookup job.id s.processed ≡ none
      → insert_to_processed job s ≡ (ok tt, record s { processed = set job.id job s.processed })
  unfolding insert_to_processed
  insert_to_processed-new p h = rw (clone_processed_job_lem job p) (ground (arith, h))

  pub insert_to_processed-taken :
      lookup job.id s.processed ≢ none → insert_to_processed job s ≡ (err duplicate_job, s)
  unfolding insert_to_processed
  insert_to_processed-taken h = ground (arith, h)

module _ (job : FailedJob) (s : MemoryState) where
  pub insert_to_failed-new :
      IsPayload job.payload
      → lookup job.id s.failed ≡ none
      → insert_to_failed job s ≡ (ok tt, record s { failed = set job.id job s.failed })
  unfolding insert_to_failed
  insert_to_failed-new p h = rw (clone_failed_job_lem job p) (ground (arith, h))

  pub insert_to_failed-taken :
      lookup job.id s.failed ≢ none → insert_to_failed job s ≡ (err duplicate_job, s)
  unfolding insert_to_failed
  insert_to_failed-taken h = ground (arith, h)
