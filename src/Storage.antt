-- ===== src/Storage.antt =====
-- The interfaces of storage.go: `StorageAdapter` and the optional ones that the code asks for by
-- a type assertion, each a field that may be absent. A method is an action on the adapter's store,
-- and the clock's reading of a method that calls `time.Now()` is an argument.
use xwork.Prelude.{ℕ, Bool, String, Option, List}
use xwork.Prelude.Result.{Action}
use xwork.Job.{
  Uuid, Time, ScheduledJob, EnqueuedJob, ProcessingJob, ProcessedJob, FailedJob, JobType, JobQuery,
  Jobs,
}

pub record StorageAdapter : Type 1 where
  pub Store : Type 0
  pub transact : {A : Type 0} → Action Store A → Action Store A
  pub insert_to_scheduled : ScheduledJob → Action Store (Unit {0})
  pub next_from_scheduled : Time → Action Store (List ScheduledJob)
  pub delete_from_scheduled : Uuid → Action Store (Unit {0})
  pub list_scheduled : ℕ → ℕ → Action Store (List ScheduledJob)
  pub insert_to_queue : EnqueuedJob → Action Store (Unit {0})
  pub get_from_queue : String → Action Store (Option EnqueuedJob)
  pub delete_from_queue : String → Action Store (Option EnqueuedJob)
  pub list_enqueued : String → ℕ → ℕ → Action Store (List EnqueuedJob)
  pub insert_to_processing : ProcessingJob → Action Store (Unit {0})
  pub emit_heartbeat : Time → ProcessingJob → Action Store (Unit {0})
  pub get_by_last_heartbeat_before : Time → Action Store (List ProcessingJob)
  pub delete_from_processing : Uuid → Action Store (Unit {0})
  pub list_processing : ℕ → ℕ → Action Store (List ProcessingJob)
  pub insert_to_processed : ProcessedJob → Action Store (Unit {0})
  pub list_processed : ℕ → ℕ → Action Store (List ProcessedJob)
  pub insert_to_failed : FailedJob → Action Store (Unit {0})
  pub next_from_failed : Time → Action Store (List FailedJob)
  pub delete_from_failed : Uuid → Action Store (Unit {0})
  pub list_failed : ℕ → ℕ → Action Store (List FailedJob)
  pub count : JobType → Action Store ℕ
  -- `JobQueryAdapter`, `FailedJobLookup`, `FailedJobClaimer`, `Initializer`
  pub list_jobs? : Option (JobType → JobQuery → Action Store (Jobs × Bool))
  pub get_failed? : Option (Uuid → Action Store (Option FailedJob))
  pub claim_failed? : Option (Uuid → Action Store (Option FailedJob))
  pub initialize? : Option (Action Store (Unit {0}))
