-- ===== src/Processor/Moves.antt =====
-- The moves of process.go: each takes a job from one table of the storage to another, in one
-- transaction. The readings of the clock are arguments.
use Prim.Native.String.{◌++◌ as ◌<>◌}
use xwork.Prelude.{ℕ, ◌+◌, Option, none, some, List, [], ◌∷◌, String, ltb, if◌then◌else◌}
use xwork.Prelude.Result.{
  Action, Result, ok, err, Error, already_enqueued, error_text, pure, ◌>>=◌, ◌>>◌,
}
use xwork.Text.{Platform}
use xwork.Job.{Uuid, Time, ScheduledJob, EnqueuedJob, ProcessingJob, ProcessedJob, FailedJob}
use xwork.Storage.{StorageAdapter}
use xwork.StackTrace.{clean_stack_trace}
use xwork.Processor.Backoff.{default_max_retry_count, exponential_backoff}

-- `string(jobErrJson)`
unfoldable pub error_json : Platform → Error → List ℕ → String
error_json platform job_err stack =
    elim (platform.marshal_error (error_text job_err) (present (clean_stack_trace stack))) [
      | some json ↦ json
      | none ↦ "{\"message\":\"" <> error_text job_err <> "\"}"
    ]
  where
    present : List ℕ → Option (List ℕ)
    present [] = none
    present (c ∷ cs) = some (c ∷ cs)

-- the records that the moves make
abbrev pub enqueued_from_scheduled : Time → ScheduledJob → EnqueuedJob
enqueued_from_scheduled now job = record {
  id = job.id;
  name = job.name;
  queue = job.queue;
  payload = job.payload;
  retry_count = 0;
  enqueued_at = now;
  scheduled_at = job.scheduled_at;
}

abbrev pub processing_from_enqueued : Time → EnqueuedJob → ProcessingJob
processing_from_enqueued now job = record {
  id = job.id;
  name = job.name;
  queue = job.queue;
  payload = job.payload;
  retry_count = job.retry_count;
  started_at = now;
  enqueued_at = job.enqueued_at;
  scheduled_at = job.scheduled_at;
}

abbrev pub processed_from_processing : Time → ProcessingJob → ProcessedJob
processed_from_processing now job = record {
  id = job.id;
  name = job.name;
  queue = job.queue;
  payload = job.payload;
  started_at = job.started_at;
  completed_at = now;
  enqueued_at = job.enqueued_at;
  scheduled_at = job.scheduled_at;
}

abbrev pub enqueued_from_processing : Time → ProcessingJob → EnqueuedJob
enqueued_from_processing now job = record {
  id = job.id;
  name = job.name;
  queue = job.queue;
  payload = job.payload;
  retry_count = 0;
  enqueued_at = now;
  scheduled_at = job.scheduled_at;
}

abbrev pub failed_from_processing : Time → String → ProcessingJob → FailedJob
failed_from_processing now error job = record {
  id = job.id;
  name = job.name;
  queue = job.queue;
  payload = job.payload;
  error = error;
  retry_count = job.retry_count + 1;
  last_retry_at = now;
  next_retry_at = now + exponential_backoff (job.retry_count + 1);
  scheduled_at = job.scheduled_at;
}

abbrev pub enqueued_from_failed : Time → FailedJob → EnqueuedJob
enqueued_from_failed now job = record {
  id = job.id;
  name = job.name;
  queue = job.queue;
  payload = job.payload;
  retry_count = job.retry_count;
  enqueued_at = now;
  scheduled_at = job.scheduled_at;
}

-- `errors.Is(err, ErrAlreadyEnqueued)` counts as success
abbrev pub unless_already_enqueued : {S : Type 0} → Result (Unit {0}) × S → Result (Unit {0}) × S
unless_already_enqueued (ok u, s) = (ok u, s)
unless_already_enqueued (err already_enqueued, s) = (ok tt, s)
unless_already_enqueued (err e, s) = (err e, s)

module _ (storage : StorageAdapter) where
  open storage use {Store}

  -- `enqueue`: `checked` is the clock's reading in the test, `now` the one in the record.
  unfoldable pub enqueue : Time → Time → ScheduledJob → Action Store (Unit {0})
  enqueue checked now job =
      if ltb job.enqueue_at checked
      then storage.insert_to_queue (enqueued_from_scheduled now job)
      else storage.insert_to_scheduled job

  -- the rest of the transaction of `dequeue`, for the job taken from the queue
  abbrev pub start_claimed : Time → Option EnqueuedJob → Action Store (Option ProcessingJob)
  start_claimed now none = pure none
  start_claimed now (some enqueued_job) =
      let job = processing_from_enqueued now enqueued_job in
      storage.insert_to_processing job >> pure (some job)

  unfoldable pub dequeue : Time → String → Action Store (Option ProcessingJob)
  dequeue now queue = storage.transact (storage.delete_from_queue queue >>= start_claimed now)

  unfoldable pub complete : Time → ProcessingJob → Action Store (Unit {0})
  complete now job = storage.transact (
      storage.insert_to_processed (processed_from_processing now job)
      >> storage.delete_from_processing job.id)

  unfoldable pub requeue : Time → ProcessingJob → Action Store (Unit {0})
  requeue now job = storage.transact (
      storage.insert_to_queue (enqueued_from_processing now job)
      >> storage.delete_from_processing job.id)

  -- after the deletion of `failWithStack`: a job that has used up its retries is discarded
  abbrev pub record_failure : Time → String → ProcessingJob → Action Store (Unit {0})
  record_failure now error job =
      if ltb default_max_retry_count (job.retry_count + 1)
      then pure tt
      else storage.insert_to_failed (failed_from_processing now error job)

  unfoldable pub fail_with_stack :
      Platform → Time → ProcessingJob → Error → List ℕ → Action Store (Unit {0})
  fail_with_stack platform now job job_err stack = storage.transact (
      storage.delete_from_processing job.id
      >> record_failure now (error_json platform job_err stack) job)

  abbrev pub fail : Platform → Time → ProcessingJob → Error → Action Store (Unit {0})
  fail platform now job job_err = fail_with_stack platform now job job_err []

  -- the end of the transaction of `retry`
  abbrev pub push_retry : Time → FailedJob → Action Store (Unit {0})
  push_retry now failed_job s =
      unless_already_enqueued (storage.insert_to_queue (enqueued_from_failed now failed_job) s)

  abbrev pub push_claimed : Time → Option FailedJob → Action Store (Unit {0})
  push_claimed now none = pure tt
  push_claimed now (some claimed) = push_retry now claimed

  -- with and without a `FailedJobClaimer`
  abbrev pub retry_by :
      Option (Uuid → Action Store (Option FailedJob)) → Time → FailedJob → Action Store (Unit {0})
  retry_by (some claim_failed) now job = claim_failed job.id >>= push_claimed now
  retry_by none now job = storage.delete_from_failed job.id >> push_retry now job

  unfoldable pub retry : Time → FailedJob → Action Store (Unit {0})
  retry now job = storage.transact (retry_by storage.claim_failed? now job)

  unfoldable pub enqueue_scheduled : Time → ScheduledJob → Action Store (Unit {0})
  enqueue_scheduled now job = storage.transact (
      storage.delete_from_scheduled job.id
      >> storage.insert_to_queue (enqueued_from_scheduled now job))
