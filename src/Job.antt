-- ===== src/Job.antt =====
-- The job records of job.go and the constants and query record of storage.go.
--
-- A `uuid.UUID` is its 16 bytes read as a number, a `time.Time` its nanoseconds, and a payload
-- value of type `any` is a text that nobody looks into.
use xwork.Payload.{Payload}
use xwork.Prelude.{ℕ, Bool, String, List}

abbrev pub Uuid : Type 0
Uuid = ℕ

abbrev pub Time : Type 0
Time = ℕ

pub record ScheduledJob : Type 0 where
  pub id : Uuid
  pub name : String
  pub queue : String
  pub payload : Payload
  pub enqueue_at : Time
  pub scheduled_at : Time

pub record EnqueuedJob : Type 0 where
  pub id : Uuid
  pub name : String
  pub queue : String
  pub payload : Payload
  pub retry_count : ℕ
  pub enqueued_at : Time
  pub scheduled_at : Time

pub record ProcessingJob : Type 0 where
  pub id : Uuid
  pub name : String
  pub queue : String
  pub payload : Payload
  pub retry_count : ℕ
  pub started_at : Time
  pub enqueued_at : Time
  pub scheduled_at : Time

pub record ProcessedJob : Type 0 where
  pub id : Uuid
  pub name : String
  pub queue : String
  pub payload : Payload
  pub started_at : Time
  pub completed_at : Time
  pub enqueued_at : Time
  pub scheduled_at : Time

pub record FailedJob : Type 0 where
  pub id : Uuid
  pub name : String
  pub queue : String
  pub payload : Payload
  pub error : String
  pub retry_count : ℕ
  pub last_retry_at : Time
  pub next_retry_at : Time
  pub scheduled_at : Time

-- `JobType` is a string; these are its five constants, and any other text.
pub data JobType : Type 0 where
  scheduled enqueued processing processed failed : JobType
  other : String → JobType

pub record JobQuery : Type 0 where
  pub query : String
  pub queue : String
  pub all_queues : Bool
  pub limit : ℕ
  pub offset : ℕ

abbrev pub default_queue : String
default_queue = "default"

-- A page of jobs, which the code passes on as `any`.
pub data Jobs : Type 0 where
  scheduled : List ScheduledJob → Jobs
  enqueued : List EnqueuedJob → Jobs
  processing : List ProcessingJob → Jobs
  processed : List ProcessedJob → Jobs
  failed : List FailedJob → Jobs
