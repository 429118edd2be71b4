-- ===== src/Tests.antt =====
-- Concrete data for the tests and the witnesses: a platform on ASCII, some jobs and two stores.
pub mod Storage
pub mod Processing
pub mod Web
pub mod Serve
pub mod Heap
pub mod Lifecycle
pub mod Oldest
pub mod Database
pub mod Answers
pub mod Sql
pub mod Moves
use xwork.Prelude.{
  ℕ, ◌+◌, ◌≤◌, Bool, ◌&&◌, Option, none, some, List, [], ◌∷◌, String, ◌≡◌, ◌≢◌, refl, arith, nat_eq,
  ltb, leb, eqb, ◌==◌, if◌then◌else◌,
}
use xwork.GoMap.{lookup, Map}
use xwork.Text.{Platform}
use xwork.Job.{ScheduledJob, EnqueuedJob, ProcessingJob, FailedJob, Uuid}
use xwork.Memory.State.{MemoryState, new_memory_state}
use xwork.Memory.Invariant.{IsValid}
use xwork.Processor.Events.{IsExclusive, places}

abbrev pub ascii_lower : ℕ → ℕ
ascii_lower c = if leb 65 c && leb c 90 then c + 32 else c

abbrev pub ascii : Platform
ascii = record {
  to_lower = ascii_lower;
  is_space = λ c. eqb c 32;
  uuid_string = λ id. "00000000-0000-4000-8000-000000000000";
  marshal_error = λ message stack. some message;
}

abbrev pub mail : EnqueuedJob
mail = record {
  id = 1;
  name = "mail";
  queue = "default";
  payload = none;
  retry_count = 0;
  enqueued_at = 10;
  scheduled_at = 5;
}

abbrev pub resize : ProcessingJob
resize = record {
  id = 2;
  name = "resize";
  queue = "images";
  payload = none;
  retry_count = 1;
  started_at = 20;
  enqueued_at = 9;
  scheduled_at = 4;
}

abbrev pub report : FailedJob
report = record {
  id = 3;
  name = "report";
  queue = "default";
  payload = none;
  error = "timeout";
  retry_count = 2;
  last_retry_at = 30;
  next_retry_at = 40;
  scheduled_at = 3;
}

abbrev pub cleanup : ScheduledJob
cleanup = record {
  id = 4;
  name = "cleanup";
  queue = "default";
  payload = none;
  enqueue_at = 50;
  scheduled_at = 2;
}

-- one job in each table but the processed one
abbrev pub busy : MemoryState
busy = record {
  scheduled = (4, cleanup) ∷ [];
  enqueued = (1, mail) ∷ [];
  processing = (2, resize) ∷ [];
  processing_heartbeat = (2, 20) ∷ [];
  processed = [];
  failed = (3, report) ∷ [];
}

alive_busy :
    (id : Uuid) → lookup id busy.processing ≢ none → lookup id busy.processing_heartbeat ≢ none
unfolding lookup
alive_busy id h = ground arith

pub busy-IsValid : IsValid busy
unfolding lookup
busy-IsValid = record {
  scheduled = (refl, refl, tt, tt);
  enqueued = (refl, refl, tt, tt);
  processing = (refl, refl, tt, tt);
  heartbeat = (refl, tt);
  alive = alive_busy;
  processed = tt;
  failed = (refl, refl, tt, tt);
}

once_busy : (id : Uuid) → places id busy ≤ 1
unfolding lookup
once_busy id = ground arith

pub busy-IsExclusive : IsExclusive busy
busy-IsExclusive = record { valid = busy-IsValid; once = once_busy }
