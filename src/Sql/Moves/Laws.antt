-- ===== src/Sql/Moves/Laws.antt =====
-- Sequences of the moves of process.go over storage/sql.go and over storage/memory.go.
use xwork.Prelude.{List, [], ◌∷◌, String, refl}
use xwork.Prelude.Result.{Result, pure}
use xwork.Payload.{Payload, IsPayload}
use xwork.Text.{Platform}
use xwork.Memory.State.{MemoryState}
use xwork.Memory.Adapter.{memory_adapter}
use xwork.Server.{retry_failed_job}
use xwork.Sql.Driver.{Driver, Json}
use xwork.Sql.Adapter.{sql_adapter}
use xwork.Sql.Engine.{Table, Stored}
use xwork.Sql.Engine.Writes.{Serves}
use xwork.Sql.Engine.Inserts.{Writes}
use xwork.Sql.Stored.{IsKept}
use xwork.Sql.Moves.{Move, perform, perform_all}
use xwork.Sql.Moves.Match.{bind-Matches, Fits, Relates, Tells}
use xwork.Sql.Moves.Each.{
  enqueue-Fits, enqueue_scheduled-Fits, complete-Fits, requeue-Fits, fail_with_stack-Fits,
}
use xwork.Sql.Moves.Retried.{retry-Fits, retry_failed_job-Fits}
use xwork.Sql.Moves.Passes.{AllSound, enqueue_all-Fits, retry_all-Fits}

abbrev IsSound : Json → Payload → Type 0
IsSound json payload = IsPayload payload × IsKept json payload

-- The job that a move writes has a payload that is a Go map, and that encoding/json gives back. A
-- retry writes the stored job.
abbrev pub IsMove : Json → Move → Type 0
IsMove json (Move.enqueues checked now job) = IsSound json job.payload
IsMove json (Move.enqueues_scheduled now job) = IsSound json job.payload
IsMove json (Move.completes now job) = IsSound json job.payload
IsMove json (Move.requeues now job) = IsSound json job.payload
IsMove json (Move.fails_with now job job_err stack) = IsSound json job.payload
IsMove json (Move.enqueues_all clock jobs) = AllSound json jobs
IsMove json _ = Unit {0}

abbrev pub AreMoves : Json → List Move → Type 0
AreMoves json [] = Unit {0}
AreMoves json (move ∷ moves) = IsMove json move × AreMoves json moves

-- The results in memory and over SQL, call by call.
abbrev pub AllTell : (Table → String) → List (Result (Unit {0})) → List (Result (Unit {0})) → Type 0
AllTell violation [] [] = Unit {0}
AllTell violation (q ∷ qs) (p ∷ ps) = Tells violation q p × AllTell violation qs ps
AllTell violation _ _ = ⊥

module _ (platform : Platform) (json : Json) (driver : Driver)
    (tables saved : driver.Db → Table → List Stored) (violation : Table → String)
    (serves : Serves driver tables saved) (writes : Writes driver tables saved violation) where
  perform-Fits :
      (move : Move)
      → IsMove json move
      → Fits json driver tables saved violation
          (perform (sql_adapter platform json driver) platform move)
          (perform (memory_adapter platform) platform move)
  unfolding perform
  perform-Fits (Move.enqueues checked now job) (good, kept) =
      enqueue-Fits platform json driver tables saved violation serves writes job good kept checked
        now
  perform-Fits (Move.enqueues_scheduled now job) (good, kept) =
      enqueue_scheduled-Fits platform json driver tables saved violation serves writes job good kept
        now
  perform-Fits (Move.completes now job) (good, kept) =
      complete-Fits platform json driver tables saved violation serves writes job good kept now
  perform-Fits (Move.requeues now job) (good, kept) =
      requeue-Fits platform json driver tables saved violation serves writes job good kept now
  perform-Fits (Move.fails_with now job job_err stack) (good, kept) =
      fail_with_stack-Fits platform json driver tables saved violation serves writes job good kept
        now job_err stack
  perform-Fits (Move.retries now job) u =
      retry-Fits platform json driver tables saved violation serves now job
  perform-Fits (Move.enqueues_all clock jobs) sound =
      enqueue_all-Fits platform json driver tables saved violation serves clock writes 0 jobs sound
  perform-Fits (Move.retries_all clock jobs) u =
      retry_all-Fits platform json driver tables saved violation serves clock 0 jobs
  perform-Fits (Move.retries_from_web now id) u = λ db s related.
      bind-Matches json driver tables saved violation (λ job. pure tt) (λ job. pure tt)
        (retry_failed_job (sql_adapter platform json driver) now id)
        (retry_failed_job (memory_adapter platform) now id) db s
        (retry_failed_job-Fits platform json driver tables saved violation serves now id db s
          related)
        (λ job e after. (refl, tt, after))

  -- For a database that serves transactions, the claim of a failed job and the insertions and
  -- deletions as SQL says, whose tables hold the jobs of a well-formed state, and for any
  -- sequence of calls of `enqueue`, `enqueueScheduled`, `complete`, `requeue`, `failWithStack`,
  -- `retry`, the loops of the two pollers over ready jobs, and `retryFailedJob`, where the jobs
  -- that are given, but those to be retried, have payloads that are Go maps and that
  -- encoding/json gives back: over the SQL adapter the calls return what they return over the in-
  -- memory adapter on that state, an error that stops a loop included, except that the driver's
  -- error for a violated primary key of one of the tables stands for `duplicateJobError`, and the
  -- tables hold in the end the jobs of the well-formed state that the in-memory adapter is in.
  pub perform_all-memory :
      (moves : List Move) (db : driver.Db) (s : MemoryState)
      → AreMoves json moves
      → Relates json (tables db) s
      → let sql = perform_all (sql_adapter platform json driver) platform moves db in
        let memory = perform_all (memory_adapter platform) platform moves s in
        AllTell violation memory.0 sql.0 × Relates json (tables sql.1) memory.1
  unfolding perform_all
  perform_all-memory [] db s good related = (tt, related)
  perform_all-memory (move ∷ moves) db s (good, rest) related =
      let (same, calm, after) = perform-Fits move good db s related in
      let (others, final) =
        perform_all-memory moves (perform (sql_adapter platform json driver) platform move db).1
          (perform (memory_adapter platform) platform move s).1 rest after in
      ((same, others), final)
