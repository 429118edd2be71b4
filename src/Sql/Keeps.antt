-- ===== src/Sql/Keeps.antt =====
-- `ClaimFailed` and `InsertToQueue` of storage/sql.go leave the beginning of the transaction alone.
use xwork.Prelude.{
  ℕ, Option, none, some, List, [], ◌∷◌, refl, ap, ◌∙◌, nat_eq, string_eq, eqb, if◌then◌else◌, inl,
  inr, Bool-cases,
}
use xwork.Prelude.Result.{Action, Result, ok, err, ◌>>=◌, lift, fails, pure, already_enqueued}
use xwork.Text.{Platform}
use xwork.Job.{Uuid, Time, EnqueuedJob, FailedJob}
use xwork.Processor.Moves.{enqueued_from_failed}
use xwork.Server.{claim_and_enqueue, enqueue_claimed}
use xwork.Sql.Driver.{Value, Driver, Json}
use xwork.Sql.Scan.{value, scan_failed, scan_optional}
use xwork.Sql.Queue.{insert_to_queue}
use xwork.Sql.Finished.{claim_failed}
use xwork.Sql.Adapter.{sql_adapter}
use xwork.Sql.Engine.{Table, Stored}
use xwork.Sql.Engine.Writes.{Serves, claim_text, enqueue_text}
use xwork.Sql.Steps.{Keeps, bind-Keeps}

-- the arguments after the id, and what is made of the count of affected rows
abbrev pub queue_values : EnqueuedJob → Value → List Value
queue_values job payload =
    Value.text job.name
    ∷ Value.text job.queue
    ∷ payload
    ∷ Value.whole job.retry_count
    ∷ Value.instant job.enqueued_at
    ∷ Value.instant job.scheduled_at
    ∷ []

abbrev pub answered : (driver : Driver) → Result ℕ → Action driver.Db (Unit {0})
answered driver result =
    lift result >>= λ rows_affected. if eqb rows_affected 0 then fails already_enqueued else pure tt

module _ (json : Json) (driver : Driver) (tables saved : driver.Db → Table → List Stored)
    (serves : Serves driver tables saved) where
  pub claim_failed-Keeps : (id : Uuid) → Keeps saved (claim_failed json driver id)
  unfolding claim_failed
  claim_failed-Keeps id =
      bind-Keeps saved (driver.query_row claim_text (Value.uuid id ∷ []))
        (λ found. lift (scan_optional (scan_failed json driver.scan_error) found))
        (λ db. let (db', e, changed, kept) = serves.claims id db in ap (λ r. saved r.1) e ∙ kept)
        (λ found db. refl)

  answered-Keeps : (result : Result ℕ) → Keeps saved (answered driver result)
  answered-Keeps (err e) db = refl
  answered-Keeps (ok n) db = elim (Bool-cases (eqb n 0)) [ inl h ↦ rw h refl | inr h ↦ rw h refl ]

  pub insert_to_queue-Keeps : (job : EnqueuedJob) → Keeps saved (insert_to_queue json driver job)
  unfolding insert_to_queue
  insert_to_queue-Keeps job =
      bind-Keeps saved (lift (value json job.payload)) _ (λ db. refl)
        (λ payload.
          bind-Keeps saved (driver.exec enqueue_text (Value.uuid job.id ∷ queue_values job payload))
            (answered driver)
            (λ db.
              let (db', e, changed, kept) = serves.enqueues job.id (queue_values job payload) db in
              ap (λ r. saved r.1) e ∙ kept)
            answered-Keeps)

  enqueue_claimed-Keeps :
      (platform : Platform) (now : Time) (found : Option FailedJob)
      → Keeps saved (enqueue_claimed (sql_adapter platform json driver) now found)
  enqueue_claimed-Keeps platform now none = λ db. refl
  enqueue_claimed-Keeps platform now (some job) =
      bind-Keeps saved (insert_to_queue json driver (enqueued_from_failed now job))
        (λ u. pure (enqueued_from_failed now job))
        (insert_to_queue-Keeps (enqueued_from_failed now job)) (λ u db. refl)

  pub claim_and_enqueue-Keeps :
      (platform : Platform) (now : Time) (id : Uuid)
      → Keeps saved (
          claim_and_enqueue
            (sql_adapter platform json driver)
            (some (claim_failed json driver))
            now
            id)
  claim_and_enqueue-Keeps platform now id =
      bind-Keeps saved (claim_failed json driver id)
        (enqueue_claimed (sql_adapter platform json driver) now) (claim_failed-Keeps id)
        (enqueue_claimed-Keeps platform now)
