-- ===== src/Server.antt =====
-- The parts of server.go that work on the storage: the listing of the web UI for an adapter without
-- `ListJobs`, and the retry of a failed job.
pub mod Request
pub mod Query
pub mod Bounds
pub mod Reading
pub mod Listing
pub mod Actions
pub mod Routes
pub mod Responses
pub mod Serve
pub mod Retry
pub mod Lookahead
use xwork.Prelude.{
  ℕ, ◌+◌, ◌%◌, ◌^◌, Bool, true, false, Option, none, some, List, String, string_eq, ◌==◌, leb,
  if◌then◌else◌, length, take,
}
use xwork.Prelude.Result.{
  Action, Result, ok, err, fails, pure, ◌>>=◌, ◌>>◌, unsupported_job_type, failed_job_not_found,
  failed_job_claim_unsupported,
}
use xwork.Job.{Uuid, Time, EnqueuedJob, FailedJob, JobType, JobQuery, Jobs, default_queue}
use xwork.Storage.{StorageAdapter}
use xwork.Processor.Moves.{enqueued_from_failed}

unfoldable pub trim_lookahead {ℓ} : {A : Type ℓ} → List A → ℕ → List A × Bool
trim_lookahead jobs limit =
    if leb (length jobs) limit then (jobs, false) else (take limit jobs, true)

-- `page, hasMore := trimLookahead(jobs, query.Limit)` and `return page, hasMore, err`
abbrev trimmed : {J : Type 0} → (List J → Jobs) → ℕ → List J → Jobs × Bool
trimmed jobs limit found =
    let (page, has_more) = trim_lookahead found limit in (jobs page, has_more)

module _ (storage : StorageAdapter) where
  open storage use {Store}

  -- `query.Limit + 1` is a sum of `uint` values.
  unfoldable pub list_legacy_jobs : JobType → JobQuery → Action Store (Jobs × Bool)
  list_legacy_jobs JobType.scheduled query =
      storage.list_scheduled ((query.limit + 1) % 2 ^ 64) query.offset >>= λ jobs.
      pure (trimmed Jobs.scheduled query.limit jobs)
  list_legacy_jobs JobType.enqueued query =
      storage.list_enqueued (if query.queue == "" then default_queue else query.queue)
        ((query.limit + 1) % 2 ^ 64) query.offset
      >>= λ jobs. pure (trimmed Jobs.enqueued query.limit jobs)
  list_legacy_jobs JobType.processing query =
      storage.list_processing ((query.limit + 1) % 2 ^ 64) query.offset >>= λ jobs.
      pure (trimmed Jobs.processing query.limit jobs)
  list_legacy_jobs JobType.processed query =
      storage.list_processed ((query.limit + 1) % 2 ^ 64) query.offset >>= λ jobs.
      pure (trimmed Jobs.processed query.limit jobs)
  list_legacy_jobs JobType.failed query =
      storage.list_failed ((query.limit + 1) % 2 ^ 64) query.offset >>= λ jobs.
      pure (trimmed Jobs.failed query.limit jobs)
  list_legacy_jobs (JobType.other raw) query = fails (unsupported_job_type raw)

  -- the transaction of `retryFailedJob` from the claimed job on
  abbrev pub enqueue_claimed : Time → Option FailedJob → Action Store EnqueuedJob
  enqueue_claimed now none = fails failed_job_not_found
  enqueue_claimed now (some failed_job) =
      storage.insert_to_queue (enqueued_from_failed now failed_job)
      >> pure (enqueued_from_failed now failed_job)

  abbrev pub claim_and_enqueue :
      Option (Uuid → Action Store (Option FailedJob)) → Time → Uuid → Action Store EnqueuedJob
  claim_and_enqueue none now id = fails failed_job_claim_unsupported
  claim_and_enqueue (some claim_failed) now id = claim_failed id >>= enqueue_claimed now

  unfoldable pub retry_failed_job : Time → Uuid → Action Store EnqueuedJob
  retry_failed_job now id = storage.transact (claim_and_enqueue storage.claim_failed? now id)
