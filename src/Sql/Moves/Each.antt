-- ===== src/Sql/Moves/Each.antt =====
-- Each move of process.go over storage/sql.go and over storage/memory.go, side by side.
use xwork.Prelude.{ℕ, List, String, refl, sym, subst, nat_eq, ltb, ◌+◌, Bool-cases, inl, inr}
use xwork.Prelude.Result.{Action, Error, ◌>>◌}
use xwork.Payload.{IsPayload}
use xwork.Text.{Platform}
use xwork.Job.{Uuid, Time, EnqueuedJob, ScheduledJob, ProcessingJob}
use xwork.Memory.State as Mem
use xwork.Memory.State.{MemoryState}
use xwork.Memory.Scheduled as Scheduled
use xwork.Memory.Queue as Queue
use xwork.Memory.Processing as Processing
use xwork.Memory.Finished as Finished
use xwork.Memory.Adapter.{memory_adapter}
use xwork.Processor.Backoff.{default_max_retry_count}
use xwork.Processor.Moves.{
  enqueue, enqueue_scheduled, complete, requeue, fail_with_stack, error_json,
  enqueued_from_scheduled, enqueued_from_processing, processed_from_processing,
  failed_from_processing, record_failure,
}
use xwork.Sql.Driver.{Driver, Json}
use xwork.Sql.Schedule.{delete_from_scheduled}
use xwork.Sql.Queue.{insert_to_queue}
use xwork.Sql.Processing.{delete_from_processing}
use xwork.Sql.Finished.{insert_to_processed}
use xwork.Sql.Adapter.{sql_adapter, transact}
use xwork.Sql.Engine.{Table, Stored}
use xwork.Sql.Engine.Writes.{Serves}
use xwork.Sql.Engine.Inserts.{Writes}
use xwork.Sql.Stored.{IsKept}
use xwork.Sql.Steps.{Keeps, bind-Keeps}
use xwork.Sql.Keeps.{insert_to_queue-Keeps}
use xwork.Sql.Moves.Match.{Fits, Relates, bind-Matches, transact-Matches}
use xwork.Sql.Moves.Calls.{
  insert_to_scheduled-Matches, insert_to_processed-Matches, insert_to_failed-Matches,
  delete_from_scheduled-Matches, delete_from_processing-Matches, insert_to_processed-Keeps,
  insert_to_failed-Keeps, delete_from_scheduled-Keeps, delete_from_processing-Keeps,
}
use xwork.Sql.Moves.Claimed.{insert_to_queue-Matches}

module _ (platform : Platform) (json : Json) (driver : Driver)
    (tables saved : driver.Db → Table → List Stored) (violation : Table → String)
    (serves : Serves driver tables saved) (writes : Writes driver tables saved violation) where
  -- two actions in one transaction
  both-Fits :
      (f k : Action driver.Db (Unit {0})) (g l : Action MemoryState (Unit {0}))
      → Keeps saved f
      → Keeps saved k
      → Fits json driver tables saved violation f g
      → Fits json driver tables saved violation k l
      → Fits json driver tables saved violation (transact driver (f >> k)) (Mem.transact (g >> l))
  both-Fits f k g l first second fits follows db s related =
      transact-Matches json driver tables saved violation serves (f >> k) (g >> l)
        (bind-Keeps saved f (λ u. k) first (λ u. second)) db s related
        (λ inside same.
          bind-Matches json driver tables saved violation (λ u. k) (λ u. l) f g inside s
            (fits inside s (subst (λ t. Relates json t s) (sym same) related))
            (λ u e now. follows (f inside).1 (g s).1 now))

  insert_to_queue-Fits :
      (job : EnqueuedJob)
      → IsPayload job.payload
      → IsKept json job.payload
      → Fits json driver tables saved violation
          (insert_to_queue json driver job)
          (Queue.insert_to_queue job)
  insert_to_queue-Fits job good kept db s related =
      insert_to_queue-Matches json driver tables saved violation serves db s related job good kept

  delete_from_processing-Fits :
      (id : Uuid)
      → Fits json driver tables saved violation
          (delete_from_processing json driver id)
          (Processing.delete_from_processing id)
  delete_from_processing-Fits id db s related =
      delete_from_processing-Matches json driver tables saved violation writes db s related id

  module _ (job : ScheduledJob) (good : IsPayload job.payload)
      (kept : IsKept json job.payload) where
    pub enqueue-Fits :
        (checked now : Time)
        → Fits json driver tables saved violation
            (enqueue (sql_adapter platform json driver) checked now job)
            (enqueue (memory_adapter platform) checked now job)
    unfolding enqueue
    enqueue-Fits checked now db s related = elim (Bool-cases (ltb job.enqueue_at checked)) [
      | inl due ↦
          rw due (insert_to_queue-Fits (enqueued_from_scheduled now job) good kept db s related)
      | inr later ↦ rw later (
          insert_to_scheduled-Matches json driver tables saved violation writes db s related job
            good kept)
    ]

    pub enqueue_scheduled-Fits :
        (now : Time)
        → Fits json driver tables saved violation
            (enqueue_scheduled (sql_adapter platform json driver) now job)
            (enqueue_scheduled (memory_adapter platform) now job)
    unfolding enqueue_scheduled
    enqueue_scheduled-Fits now =
        both-Fits (delete_from_scheduled json driver job.id)
          (insert_to_queue json driver (enqueued_from_scheduled now job))
          (Scheduled.delete_from_scheduled job.id)
          (Queue.insert_to_queue (enqueued_from_scheduled now job))
          (delete_from_scheduled-Keeps json driver tables saved violation writes job.id)
          (insert_to_queue-Keeps json driver tables saved serves (enqueued_from_scheduled now job))
          (λ db s related.
            delete_from_scheduled-Matches json driver tables saved violation writes db s related
              job.id)
          (insert_to_queue-Fits (enqueued_from_scheduled now job) good kept)

  module _ (job : ProcessingJob) (good : IsPayload job.payload)
      (kept : IsKept json job.payload) where
    pub complete-Fits :
        (now : Time)
        → Fits json driver tables saved violation
            (complete (sql_adapter platform json driver) now job)
            (complete (memory_adapter platform) now job)
    unfolding complete
    complete-Fits now =
        both-Fits (insert_to_processed json driver (processed_from_processing now job))
          (delete_from_processing json driver job.id)
          (Finished.insert_to_processed (processed_from_processing now job))
          (Processing.delete_from_processing job.id)
          (insert_to_processed-Keeps json driver tables saved violation writes
            (processed_from_processing now job))
          (delete_from_processing-Keeps json driver tables saved violation writes job.id)
          (λ db s related.
            insert_to_processed-Matches json driver tables saved violation writes db s related
              (processed_from_processing now job) good kept)
          (delete_from_processing-Fits job.id)

    pub requeue-Fits :
        (now : Time)
        → Fits json driver tables saved violation
            (requeue (sql_adapter platform json driver) now job)
            (requeue (memory_adapter platform) now job)
    unfolding requeue
    requeue-Fits now =
        both-Fits (insert_to_queue json driver (enqueued_from_processing now job))
          (delete_from_processing json driver job.id)
          (Queue.insert_to_queue (enqueued_from_processing now job))
          (Processing.delete_from_processing job.id)
          (insert_to_queue-Keeps json driver tables saved serves (enqueued_from_processing now job))
          (delete_from_processing-Keeps json driver tables saved violation writes job.id)
          (insert_to_queue-Fits (enqueued_from_processing now job) good kept)
          (delete_from_processing-Fits job.id)

    module _ (now : Time) (error : String) where
      record_failure-Keeps :
          Keeps saved (record_failure (sql_adapter platform json driver) now error job)
      record_failure-Keeps db =
          elim (Bool-cases (ltb default_max_retry_count (job.retry_count + 1))) [
            | inl spent ↦ rw spent refl
            | inr left ↦ rw left (
                insert_to_failed-Keeps json driver tables saved violation writes
                  (failed_from_processing now error job) db)
          ]

      record_failure-Fits :
          Fits json driver tables saved violation
            (record_failure (sql_adapter platform json driver) now error job)
            (record_failure (memory_adapter platform) now error job)
      record_failure-Fits db s related =
          elim (Bool-cases (ltb default_max_retry_count (job.retry_count + 1))) [
            | inl spent ↦ rw spent (refl, tt, related)
            | inr left ↦ rw left (
                insert_to_failed-Matches json driver tables saved violation writes db s related
                  (failed_from_processing now error job) good kept)
          ]

    pub fail_with_stack-Fits :
        (now : Time) (job_err : Error) (stack : List ℕ)
        → Fits json driver tables saved violation
            (fail_with_stack (sql_adapter platform json driver) platform now job job_err stack)
            (fail_with_stack (memory_adapter platform) platform now job job_err stack)
    unfolding fail_with_stack
    fail_with_stack-Fits now job_err stack =
        let error = error_json platform job_err stack in
        both-Fits (delete_from_processing json driver job.id)
          (record_failure (sql_adapter platform json driver) now error job)
          (Processing.delete_from_processing job.id)
          (record_failure (memory_adapter platform) now error job)
          (delete_from_processing-Keeps json driver tables saved violation writes job.id)
          (record_failure-Keeps now error) (delete_from_processing-Fits job.id)
          (record_failure-Fits now error)
