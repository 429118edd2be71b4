-- ===== src/Sql/Moves/Passes.antt =====
-- The loops over the ready jobs of process.go over storage/sql.go and over storage/memory.go, side
-- by side.
use xwork.Prelude.{ℕ, suc, List, [], ◌∷◌, String, refl}
use xwork.Payload.{IsPayload}
use xwork.Text.{Platform}
use xwork.Job.{Time, ScheduledJob, FailedJob}
use xwork.Memory.Adapter.{memory_adapter}
use xwork.Processor.Moves.{enqueue_scheduled, retry}
use xwork.Processor.Passes.{enqueue_all, retry_all}
use xwork.Sql.Driver.{Driver, Json}
use xwork.Sql.Adapter.{sql_adapter}
use xwork.Sql.Engine.{Table, Stored}
use xwork.Sql.Engine.Writes.{Serves}
use xwork.Sql.Engine.Inserts.{Writes}
use xwork.Sql.Stored.{IsKept}
use xwork.Sql.Moves.Match.{Fits, bind-Matches}
use xwork.Sql.Moves.Each.{enqueue_scheduled-Fits}
use xwork.Sql.Moves.Retried.{retry-Fits}

-- the payloads of the jobs of a pass
abbrev pub AllSound : Json → List ScheduledJob → Type 0
AllSound json [] = Unit {0}
AllSound json (job ∷ jobs) = IsPayload job.payload × IsKept json job.payload × AllSound json jobs

module _ (platform : Platform) (json : Json) (driver : Driver)
    (tables saved : driver.Db → Table → List Stored) (violation : Table → String)
    (serves : Serves driver tables saved) (clock : ℕ → Time) where
  pub enqueue_all-Fits :
      Writes driver tables saved violation
      → (n : ℕ) (jobs : List ScheduledJob) → AllSound json jobs
      → Fits json driver tables saved violation
          (enqueue_all (sql_adapter platform json driver) clock n jobs)
          (enqueue_all (memory_adapter platform) clock n jobs)
  unfolding enqueue_all
  enqueue_all-Fits writes n [] u db s related = (refl, tt, related)
  enqueue_all-Fits writes n (job ∷ jobs) (good, kept, rest) db s related =
      bind-Matches json driver tables saved violation
        (λ u. enqueue_all (sql_adapter platform json driver) clock (suc n) jobs)
        (λ u. enqueue_all (memory_adapter platform) clock (suc n) jobs)
        (enqueue_scheduled (sql_adapter platform json driver) (clock n) job)
        (enqueue_scheduled (memory_adapter platform) (clock n) job) db s
        (enqueue_scheduled-Fits platform json driver tables saved violation serves writes job good
          kept (clock n) db s related)
        (λ u e now. enqueue_all-Fits writes (suc n) jobs rest _ _ now)

  pub retry_all-Fits :
      (n : ℕ) (jobs : List FailedJob)
      → Fits json driver tables saved violation
          (retry_all (sql_adapter platform json driver) clock n jobs)
          (retry_all (memory_adapter platform) clock n jobs)
  unfolding retry_all
  retry_all-Fits n [] db s related = (refl, tt, related)
  retry_all-Fits n (job ∷ jobs) db s related =
      bind-Matches json driver tables saved violation
        (λ u. retry_all (sql_adapter platform json driver) clock (suc n) jobs)
        (λ u. retry_all (memory_adapter platform) clock (suc n) jobs)
        (retry (sql_adapter platform json driver) (clock n) job)
        (retry (memory_adapter platform) (clock n) job) db s
        (retry-Fits platform json driver tables saved violation serves (clock n) job db s related)
        (λ u e now. retry_all-Fits (suc n) jobs _ _ now)
