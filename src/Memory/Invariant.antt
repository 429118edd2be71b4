-- ===== src/Memory/Invariant.antt =====
-- What every state of the in-memory adapter satisfies, and the copy of such a state.
use xwork.Prelude.{none, ◌≡◌, refl, ◌≢◌, nat_eq, string_eq}
use xwork.Prelude.Result.{Action, Result, ok, err}
use xwork.GoMap.{Map, lookup, Distinct}
use xwork.GoMap.Laws.{rebuild-Distinct}
use xwork.Payload.{IsPayload, clone_payload_lem}
use xwork.Job.{Uuid, Time, ScheduledJob, EnqueuedJob, ProcessingJob, ProcessedJob, FailedJob}
use xwork.Memory.State.{
  MemoryState, new_memory_state, clone_scheduled_job, clone_enqueued_job, clone_processing_job,
  clone_processed_job, clone_failed_job, clone_state, transact, commit,
}
use xwork.Memory.Stored.{Stored, rebuild-Stored}

abbrev pub Scheduled : Map Uuid ScheduledJob → Type 0
Scheduled = Stored (λ job. job.id) (λ job. job.payload)

abbrev pub Enqueued : Map Uuid EnqueuedJob → Type 0
Enqueued = Stored (λ job. job.id) (λ job. job.payload)

abbrev pub Processing : Map Uuid ProcessingJob → Type 0
Processing = Stored (λ job. job.id) (λ job. job.payload)

abbrev pub Processed : Map Uuid ProcessedJob → Type 0
Processed = Stored (λ job. job.id) (λ job. job.payload)

abbrev pub Failed : Map Uuid FailedJob → Type 0
Failed = Stored (λ job. job.id) (λ job. job.payload)

-- Every job in processing has a heartbeat, so that it can be found when its worker is gone.
abbrev pub HasHeartbeats : Map Uuid ProcessingJob → Map Uuid Time → Type 0
HasHeartbeats processing heartbeat =
    (id : Uuid) → lookup id processing ≢ none → lookup id heartbeat ≢ none

pub record IsValid (s : MemoryState) : Type 0 where
  pub scheduled : Scheduled s.scheduled
  pub enqueued : Enqueued s.enqueued
  pub processing : Processing s.processing
  pub heartbeat : Distinct s.processing_heartbeat
  pub alive : HasHeartbeats s.processing s.processing_heartbeat
  pub processed : Processed s.processed
  pub failed : Failed s.failed

pub clone_scheduled_job_lem :
    (job : ScheduledJob) → IsPayload job.payload → clone_scheduled_job job ≡ job
unfolding clone_scheduled_job
clone_scheduled_job_lem job h = rw (clone_payload_lem job.payload h)

pub clone_enqueued_job_lem :
    (job : EnqueuedJob) → IsPayload job.payload → clone_enqueued_job job ≡ job
unfolding clone_enqueued_job
clone_enqueued_job_lem job h = rw (clone_payload_lem job.payload h)

pub clone_processing_job_lem :
    (job : ProcessingJob) → IsPayload job.payload → clone_processing_job job ≡ job
unfolding clone_processing_job
clone_processing_job_lem job h = rw (clone_payload_lem job.payload h)

pub clone_processed_job_lem :
    (job : ProcessedJob) → IsPayload job.payload → clone_processed_job job ≡ job
unfolding clone_processed_job
clone_processed_job_lem job h = rw (clone_payload_lem job.payload h)

pub clone_failed_job_lem : (job : FailedJob) → IsPayload job.payload → clone_failed_job job ≡ job
unfolding clone_failed_job
clone_failed_job_lem job h = rw (clone_payload_lem job.payload h)

-- The copy that a transaction works on is the state itself.
pub clone_state_lem : (s : MemoryState) → IsValid s → clone_state s ≡ s
unfolding clone_state
clone_state_lem s v = rw (
  rebuild-Stored (λ (job : ScheduledJob). job.id) (λ job. job.payload) clone_scheduled_job
      clone_scheduled_job_lem s.scheduled v.scheduled,
  rebuild-Stored (λ (job : EnqueuedJob). job.id) (λ job. job.payload) clone_enqueued_job
      clone_enqueued_job_lem s.enqueued v.enqueued,
  rebuild-Stored (λ (job : ProcessingJob). job.id) (λ job. job.payload) clone_processing_job
      clone_processing_job_lem s.processing v.processing,
  rebuild-Distinct (λ (heartbeat : Time). heartbeat) s.processing_heartbeat v.heartbeat (λ t. refl),
  rebuild-Stored (λ (job : ProcessedJob). job.id) (λ job. job.payload) clone_processed_job
      clone_processed_job_lem s.processed v.processed,
  rebuild-Stored (λ (job : FailedJob). job.id) (λ job. job.payload) clone_failed_job
      clone_failed_job_lem s.failed v.failed,
)

-- On a well-formed store, a transaction is the function run on the store itself, committed: the
-- state that the function left where it succeeded, the state before where it failed.
pub transact_lem :
    {A : Type 0} (f : Action MemoryState A) (s : MemoryState)
    → IsValid s
    → transact f s ≡ commit s (f s)
unfolding transact
transact_lem f s v = rw (clone_state_lem s v)

-- How a transaction ends, by what its function makes of the state before: the function's result and
-- the state that it left where it succeeded, its error and the state before where it failed.
abbrev pub IsTransacted :
    {A : Type 0} → MemoryState → Result A × MemoryState → Result A × MemoryState → Type 0
IsTransacted s (ok a, t) ended = ended ≡ (ok a, t)
IsTransacted s (err e, t) ended = ended ≡ (err e, s)

commit-IsTransacted :
    {A : Type 0} (s : MemoryState) (r : Result A × MemoryState) → IsTransacted s r (commit s r)
commit-IsTransacted s (ok a, t) = refl
commit-IsTransacted s (err e, t) = refl

-- On a well-formed store, a transaction has the result and leaves the state that its function has
-- and leaves on the store itself, where the function succeeds; where it fails, the transaction has
-- its error and leaves the state before.
pub transact-IsTransacted :
    {A : Type 0} (f : Action MemoryState A) (s : MemoryState)
    → IsValid s
    → IsTransacted s (f s) (transact f s)
transact-IsTransacted f s v = rw (transact_lem f s v) (commit-IsTransacted s (f s))

pub new_memory_state-IsValid : IsValid new_memory_state
unfolding lookup
new_memory_state-IsValid = record {
  scheduled = tt;
  enqueued = tt;
  processing = tt;
  heartbeat = tt;
  alive = λ id h. absurd (h refl);
  processed = tt;
  failed = tt;
}
