-- ===== src/Memory/State.antt =====
-- `memoryState`, its copy, and `Transact` of storage/memory.go.
use xwork.Prelude.{[], nat_eq}
use xwork.Prelude.Result.{Action, Result, ok, err}
use xwork.GoMap.{Map, rebuild}
use xwork.Payload.{clone_payload}
use xwork.Job.{Uuid, Time, ScheduledJob, EnqueuedJob, ProcessingJob, ProcessedJob, FailedJob}

pub record MemoryState : Type 0 where
  pub scheduled : Map Uuid ScheduledJob
  pub enqueued : Map Uuid EnqueuedJob
  pub processing : Map Uuid ProcessingJob
  pub processing_heartbeat : Map Uuid Time
  pub processed : Map Uuid ProcessedJob
  pub failed : Map Uuid FailedJob

abbrev pub new_memory_state : MemoryState
new_memory_state = record {
  scheduled = [];
  enqueued = [];
  processing = [];
  processing_heartbeat = [];
  processed = [];
  failed = [];
}

unfoldable pub clone_scheduled_job : ScheduledJob → ScheduledJob
clone_scheduled_job job = record job { payload = clone_payload job.payload }

unfoldable pub clone_enqueued_job : EnqueuedJob → EnqueuedJob
clone_enqueued_job job = record job { payload = clone_payload job.payload }

unfoldable pub clone_processing_job : ProcessingJob → ProcessingJob
clone_processing_job job = record job { payload = clone_payload job.payload }

unfoldable pub clone_processed_job : ProcessedJob → ProcessedJob
clone_processed_job job = record job { payload = clone_payload job.payload }

unfoldable pub clone_failed_job : FailedJob → FailedJob
clone_failed_job job = record job { payload = clone_payload job.payload }

-- `clone` of `*memoryState`
unfoldable pub clone_state : MemoryState → MemoryState
clone_state s = record {
  scheduled = rebuild clone_scheduled_job s.scheduled;
  enqueued = rebuild clone_enqueued_job s.enqueued;
  processing = rebuild clone_processing_job s.processing;
  processing_heartbeat = rebuild (λ heartbeat. heartbeat) s.processing_heartbeat;
  processed = rebuild clone_processed_job s.processed;
  failed = rebuild clone_failed_job s.failed;
}

-- What `Transact` does with the copy: an error drops it, a success puts it in place.
abbrev pub commit : {A : Type 0} → MemoryState → Result A × MemoryState → Result A × MemoryState
commit s (ok a, tx) = (ok a, tx)
commit s (err e, tx) = (err e, s)

-- `Transact`, on a locked adapter and on an unlocked one: `f` runs on a copy.
unfoldable pub transact : {A : Type 0} → Action MemoryState A → Action MemoryState A
transact f s = commit s (f (clone_state s))
