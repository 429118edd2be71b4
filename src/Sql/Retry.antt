-- ===== src/Sql/Retry.antt =====
-- `retryFailedJob` of server.go over storage/sql.go.
use xwork.Prelude.Result.{Result, ok, err, failed_job_not_found, already_enqueued}
use xwork.Prelude.{List, String, ◌≡◌, inl, inr}
use xwork.Text.{Platform}
use xwork.Job.{Uuid, Time, EnqueuedJob}
use xwork.Memory.State.{MemoryState}
use xwork.Memory.Invariant.{IsValid}
use xwork.Memory.Adapter.{memory_adapter}
use xwork.Server.{retry_failed_job}
use xwork.Server.Retry.{web_retried-cases, retry_failed_job_lem}
use xwork.Sql.Driver.{Driver, Json}
use xwork.Sql.Adapter.{sql_adapter}
use xwork.Sql.Engine.{Table, Stored}
use xwork.Sql.Engine.Writes.{Serves}
use xwork.Sql.Listing.{Holds}
use xwork.Sql.Moves.Match.{Tells}
use xwork.Sql.Moves.Retried.{retry_failed_job-Fits}

abbrev no_text : Table → String
no_text t = ""

module _ (platform : Platform) (json : Json) (driver : Driver)
    (tables saved : driver.Db → Table → List Stored) (serves : Serves driver tables saved)
    (now : Time) (s : MemoryState) (v : IsValid s) where
  -- a retry from the web inserts nothing that the primary key of another table refuses
  same_result :
      (id : Uuid) (r : Result EnqueuedJob)
      → let memory = retry_failed_job (memory_adapter platform) now id s in
        Tells no_text memory.0 r → r ≡ memory.0
  same_result id r =
      rw (retry_failed_job_lem platform now id s v) (elim (web_retried-cases now s id) [
        | inl gone ↦ rw gone (same_missing r)
        | inr (inl taken) ↦ rw taken (same_taken r)
        | inr (inr (job, there, free, moved)) ↦ rw moved (λ h. h)
      ])
    where
      same_missing :
          (r : Result EnqueuedJob)
          → Tells no_text (err failed_job_not_found) r
          → r ≡ err failed_job_not_found
      same_missing (ok a) h = absurd h
      same_missing (err x) h = cc

      same_taken :
          (r : Result EnqueuedJob)
          → Tells no_text (err already_enqueued) r
          → r ≡ err already_enqueued
      same_taken (ok a) h = absurd h
      same_taken (err x) h = cc

  -- For a database that runs transactions, the claim of a failed job and the insertion into the
  -- queue as SQL says, and whose tables hold the jobs of a well-formed state, `retryFailedJob`
  -- over the SQL adapter has the result that it has over the in-memory adapter on that state, an
  -- error included, and leaves tables that hold the jobs of the state that the in-memory adapter
  -- leaves.
  pub retry_failed_job-memory :
      (id : Uuid) (db : driver.Db)
      → Holds json (tables db) s
      → let sql = retry_failed_job (sql_adapter platform json driver) now id db in
        let memory = retry_failed_job (memory_adapter platform) now id s in
        (sql.0 ≡ memory.0) × Holds json (tables sql.1) memory.1
  retry_failed_job-memory id db held =
      let (same, calm, (after, good)) =
        retry_failed_job-Fits platform json driver tables saved no_text serves now id db s
          (held, v) in
      (same_result id _ same, after)
