-- ===== src/Processor/Passes.antt =====
-- The background loops of process.go: what one tick of each does. `clock n` is the reading in the
-- round for the n-th job of the pass.
use xwork.Prelude.{ℕ, suc, ◌-◌, ◌*◌, Bool, true, false, List, [], ◌∷◌}
use xwork.Prelude.Result.{Action, ok, err, orphan_job, pure, ◌>>=◌, ◌>>◌}
use xwork.Text.{Platform}
use xwork.Job.{Time, ScheduledJob, ProcessingJob, FailedJob}
use xwork.Storage.{StorageAdapter}
use xwork.Processor.Backoff.{heartbeat_ticker_timeout}
use xwork.Processor.Moves.{enqueue_scheduled, retry, fail}

module _ (storage : StorageAdapter) where
  open storage use {Store}

  -- the loop of `enqueueReadyScheduledJobs`
  unfoldable pub enqueue_all : (ℕ → Time) → ℕ → List ScheduledJob → Action Store (Unit {0})
  enqueue_all clock n [] = pure tt
  enqueue_all clock n (job ∷ jobs) =
      enqueue_scheduled storage (clock n) job >> enqueue_all clock (suc n) jobs

  unfoldable pub enqueue_ready_scheduled_jobs : Time → (ℕ → Time) → Action Store (Unit {0})
  enqueue_ready_scheduled_jobs now clock = storage.next_from_scheduled now >>= enqueue_all clock 0

  -- the loop of `enqueueReadyFailedJobs`
  unfoldable pub retry_all : (ℕ → Time) → ℕ → List FailedJob → Action Store (Unit {0})
  retry_all clock n [] = pure tt
  retry_all clock n (job ∷ jobs) = retry storage (clock n) job >> retry_all clock (suc n) jobs

  unfoldable pub enqueue_ready_failed_jobs : Time → (ℕ → Time) → Action Store (Unit {0})
  enqueue_ready_failed_jobs now clock = storage.next_from_failed now >>= retry_all clock 0

  -- the loop of `checkForOrphanedJobs` over the orphans of one tick; `false` means that the
  -- goroutine has returned
  unfoldable pub fail_all : Platform → (ℕ → Time) → ℕ → List ProcessingJob → Store → Bool × Store
  fail_all platform clock n [] s = (true, s)
  fail_all platform clock n (job ∷ jobs) s =
      let (r, s') = fail storage platform (clock n) job orphan_job s in
      elim r [ ok _ ↦ fail_all platform clock (suc n) jobs s' | err _ ↦ (false, s') ]

  -- one tick of `checkForOrphanedJobs`; a failed query leaves an empty list
  unfoldable pub check_for_orphaned_jobs : Platform → Time → (ℕ → Time) → Store → Bool × Store
  check_for_orphaned_jobs platform now clock s =
      let (r, s') = storage.get_by_last_heartbeat_before (now - heartbeat_ticker_timeout * 3) s in
      elim r [ ok orphaned_jobs ↦ fail_all platform clock 0 orphaned_jobs s' | err _ ↦ (true, s') ]

  -- one tick of `emitHeartbeats` over the jobs in this process; a failure is only logged
  unfoldable pub emit_all : (ℕ → Time) → ℕ → List ProcessingJob → Store → Store
  emit_all clock n [] s = s
  emit_all clock n (job ∷ jobs) s =
      emit_all clock (suc n) jobs (storage.emit_heartbeat (clock n) job s).1
