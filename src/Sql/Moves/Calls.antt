-- ===== src/Sql/Moves/Calls.antt =====
-- The insertions and deletions of storage/sql.go and of storage/memory.go, side by side.
use xwork.Prelude.{List, ◌≡◌, refl, subst, nat_eq, string_eq, inl, inr, Option-cases, String}
use xwork.Prelude.Result.{is_panic, Result, ok, err, external, duplicate_job}
use xwork.GoMap.{lookup}
use xwork.Payload.{IsPayload}
use xwork.Job.{Uuid, ScheduledJob, ProcessedJob, FailedJob}
use xwork.Memory.State.{MemoryState}
use xwork.Memory.Invariant.{IsValid}
use xwork.Memory.Scheduled as Scheduled
use xwork.Memory.Processing as Processing
use xwork.Memory.Finished as Finished
use xwork.Memory.Inserts.{
  insert_to_scheduled-new, insert_to_scheduled-taken, insert_to_processed-new,
  insert_to_processed-taken, insert_to_failed-new, insert_to_failed-taken,
}
use xwork.Memory.Calls.Keeps.{
  insert_to_scheduled-IsValid, insert_to_processed-IsValid, insert_to_failed-IsValid,
  delete_from_scheduled-IsValid, delete_from_processing-IsValid,
}
use xwork.Sql.Driver.{Driver, Json}
use xwork.Sql.Schedule.{insert_to_scheduled, delete_from_scheduled}
use xwork.Sql.Processing.{delete_from_processing}
use xwork.Sql.Finished.{insert_to_processed, insert_to_failed}
use xwork.Sql.Engine.{Table, Stored}
use xwork.Sql.Engine.Inserts.{Writes}
use xwork.Sql.Stored.{IsKept}
use xwork.Sql.Listing.{Holds}
use xwork.Sql.Steps.{Keeps}
use xwork.Sql.Moves.Match.{Matches, Relates}
use xwork.Sql.Moves.Part.{
  insertion-Keeps, insertion-free, insertion-taken, deletion-Keeps, deletion-Holds,
}
use xwork.Sql.Moves.Parts.{scheduled_part, processing_part, processed_part, failed_part}

module _ (json : Json) (driver : Driver) (tables saved : driver.Db → Table → List Stored)
    (violation : Table → String) (writes : Writes driver tables saved violation) where
  pub insert_to_scheduled-Keeps :
      (job : ScheduledJob) → Keeps saved (insert_to_scheduled json driver job)
  unfolding insert_to_scheduled
  insert_to_scheduled-Keeps =
      insertion-Keeps json driver tables saved violation writes (scheduled_part json)

  pub insert_to_processed-Keeps :
      (job : ProcessedJob) → Keeps saved (insert_to_processed json driver job)
  unfolding insert_to_processed
  insert_to_processed-Keeps =
      insertion-Keeps json driver tables saved violation writes (processed_part json)

  pub insert_to_failed-Keeps : (job : FailedJob) → Keeps saved (insert_to_failed json driver job)
  unfolding insert_to_failed
  insert_to_failed-Keeps =
      insertion-Keeps json driver tables saved violation writes (failed_part json)

  pub delete_from_scheduled-Keeps : (id : Uuid) → Keeps saved (delete_from_scheduled json driver id)
  unfolding delete_from_scheduled
  delete_from_scheduled-Keeps =
      deletion-Keeps json driver tables saved violation writes (scheduled_part json)

  pub delete_from_processing-Keeps :
      (id : Uuid) → Keeps saved (delete_from_processing json driver id)
  unfolding delete_from_processing
  delete_from_processing-Keeps =
      deletion-Keeps json driver tables saved violation writes (processing_part json)

  module _ (db : driver.Db) (s : MemoryState) (related : Relates json (tables db) s) where
    -- an insertion that succeeds on both, and one that is refused by both
    done :
        (p : Result (Unit {0}) × driver.Db) (q : Result (Unit {0}) × MemoryState) (db' : driver.Db)
        (t : MemoryState)
        → p ≡ (ok tt, db')
        → q ≡ (ok tt, t)
        → Holds json (tables db') t
        → IsValid q.1
        → Matches json driver tables saved violation p q
    done p q db' t e e' held v = rw (e, e') (refl, tt, (held, subst (λ r. IsValid r.1) e' v))

    refused :
        (p : Result (Unit {0}) × driver.Db) (q : Result (Unit {0}) × MemoryState) (db' : driver.Db)
        (table : Table)
        → p ≡ (err (external (violation table)), db')
        → q ≡ (err duplicate_job, s)
        → Holds json (tables db') s
        → IsValid q.1
        → Matches json driver tables saved violation p q
    unfolding is_panic
    refused p q db' table e e' held v =
        rw (e, e') ((table, refl), refl, (held, subst (λ r. IsValid r.1) e' v))

    pub insert_to_scheduled-Matches :
        (job : ScheduledJob)
        → IsPayload job.payload
        → IsKept json job.payload
        → Matches json driver tables saved violation
            (insert_to_scheduled json driver job db)
            (Scheduled.insert_to_scheduled job s)
    unfolding insert_to_scheduled
    insert_to_scheduled-Matches job good kept =
        let part = scheduled_part json in
        let v = insert_to_scheduled-IsValid s related.1 job good in
        elim (Option-cases (lookup job.id s.scheduled)) [
          | inl free ↦
              let (db', e, held) =
                insertion-free json driver tables saved violation writes part db s related.0
                  related.1 job kept free in
              done _ _ db' _ e (insert_to_scheduled-new job s good free) held v
          | inr (other, there) ↦
              let (db', e, held) =
                insertion-taken json driver tables saved violation writes part db s related.0
                  related.1 job kept other there in
              refused _ _ db' part.table e (insert_to_scheduled-taken job s (λ free. absurd cc))
                held v
        ]

    pub insert_to_processed-Matches :
        (job : ProcessedJob)
        → IsPayload job.payload
        → IsKept json job.payload
        → Matches json driver tables saved violation
            (insert_to_processed json driver job db)
            (Finished.insert_to_processed job s)
    unfolding insert_to_processed
    insert_to_processed-Matches job good kept =
        let part = processed_part json in
        let v = insert_to_processed-IsValid s related.1 job good in
        elim (Option-cases (lookup job.id s.processed)) [
          | inl free ↦
              let (db', e, held) =
                insertion-free json driver tables saved violation writes part db s related.0
                  related.1 job kept free in
              done _ _ db' _ e (insert_to_processed-new job s good free) held v
          | inr (other, there) ↦
              let (db', e, held) =
                insertion-taken json driver tables saved violation writes part db s related.0
                  related.1 job kept other there in
              refused _ _ db' part.table e (insert_to_processed-taken job s (λ free. absurd cc))
                held v
        ]

    pub insert_to_failed-Matches :
        (job : FailedJob)
        → IsPayload job.payload
        → IsKept json job.payload
        → Matches json driver tables saved violation
            (insert_to_failed json driver job db)
            (Finished.insert_to_failed job s)
    unfolding insert_to_failed
    insert_to_failed-Matches job good kept =
        let part = failed_part json in
        let v = insert_to_failed-IsValid s related.1 job good in
        elim (Option-cases (lookup job.id s.failed)) [
          | inl free ↦
              let (db', e, held) =
                insertion-free json driver tables saved violation writes part db s related.0
                  related.1 job kept free in
              done _ _ db' _ e (insert_to_failed-new job s good free) held v
          | inr (other, there) ↦
              let (db', e, held) =
                insertion-taken json driver tables saved violation writes part db s related.0
                  related.1 job kept other there in
              refused _ _ db' part.table e (insert_to_failed-taken job s (λ free. absurd cc)) held v
        ]

    pub delete_from_scheduled-Matches :
        (id : Uuid)
        → Matches json driver tables saved violation
            (delete_from_scheduled json driver id db)
            (Scheduled.delete_from_scheduled id s)
    unfolding delete_from_scheduled Scheduled.delete_from_scheduled
    delete_from_scheduled-Matches id =
        let (db', e, held) =
          deletion-Holds json driver tables saved violation writes (scheduled_part json) db s
            related.0 related.1 id in
        done _ (Scheduled.delete_from_scheduled id s) db' _ e refl (held)
          (delete_from_scheduled-IsValid s related.1 id)

    pub delete_from_processing-Matches :
        (id : Uuid)
        → Matches json driver tables saved violation
            (delete_from_processing json driver id db)
            (Processing.delete_from_processing id s)
    unfolding delete_from_processing Processing.delete_from_processing
    delete_from_processing-Matches id =
        let (db', e, held) =
          deletion-Holds json driver tables saved violation writes (processing_part json) db s
            related.0 related.1 id in
        done _ (Processing.delete_from_processing id s) db' _ e refl
          (record {
            scheduled = held.scheduled;
            enqueued = held.enqueued;
            processing = held.processing;
            processed = held.processed;
            failed = held.failed;
            scheduled_kept = held.scheduled_kept;
            enqueued_kept = held.enqueued_kept;
            processing_kept = held.processing_kept;
            processed_kept = held.processed_kept;
            failed_kept = held.failed_kept;
          })
          (delete_from_processing-IsValid s related.1 id)
