-- ===== src/Sql/Moves.antt =====
-- The moves of process.go, its loops over ready jobs, and the retry of server.go as data, and
-- sequences of them over an adapter.
pub mod Match
pub mod Part
pub mod Parts
pub mod Calls
pub mod Claimed
pub mod Each
pub mod Retried
pub mod Passes
pub mod Laws
use xwork.Prelude.{ℕ, List, [], ◌∷◌}
use xwork.Prelude.Result.{Action, Error, Result, pure, ◌>>◌}
use xwork.Text.{Platform}
use xwork.Job.{Uuid, Time, ScheduledJob, ProcessingJob, FailedJob}
use xwork.Storage.{StorageAdapter}
use xwork.Processor.Moves.{enqueue, enqueue_scheduled, complete, requeue, fail_with_stack, retry}
use xwork.Processor.Passes.{enqueue_all, retry_all}
use xwork.Server.{retry_failed_job}

pub data Move : Type 0 where
  enqueues : Time → Time → ScheduledJob → Move
  enqueues_scheduled : Time → ScheduledJob → Move
  completes requeues : Time → ProcessingJob → Move
  fails_with : Time → ProcessingJob → Error → List ℕ → Move
  retries : Time → FailedJob → Move
  -- the loops of a tick over the ready jobs, with the clock's readings
  enqueues_all : (ℕ → Time) → List ScheduledJob → Move
  retries_all : (ℕ → Time) → List FailedJob → Move
  -- `retryFailedJob` of server.go
  retries_from_web : Time → Uuid → Move

module _ (storage : StorageAdapter) (platform : Platform) where
  open storage use {Store}

  unfoldable pub perform : Move → Action Store (Unit {0})
  perform (Move.enqueues checked now job) = enqueue storage checked now job
  perform (Move.enqueues_scheduled now job) = enqueue_scheduled storage now job
  perform (Move.completes now job) = complete storage now job
  perform (Move.requeues now job) = requeue storage now job
  perform (Move.fails_with now job job_err stack) =
      fail_with_stack storage platform now job job_err stack
  perform (Move.retries now job) = retry storage now job
  perform (Move.enqueues_all clock jobs) = enqueue_all storage clock 0 jobs
  perform (Move.retries_all clock jobs) = retry_all storage clock 0 jobs
  perform (Move.retries_from_web now id) = retry_failed_job storage now id >> pure tt

  -- one after another, whatever they return
  unfoldable pub perform_all : List Move → Store → List (Result (Unit {0})) × Store
  perform_all [] s = ([], s)
  perform_all (move ∷ moves) s =
      let (r, s') = perform move s in let (rs, s'') = perform_all moves s' in (r ∷ rs, s'')
