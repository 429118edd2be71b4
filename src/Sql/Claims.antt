-- ===== src/Sql/Claims.antt =====
-- `ClaimFailed` and `InsertToQueue` of storage/sql.go on tables that hold the jobs of a state.
use xwork.Prelude.{
  ℕ, none, some, List, [], ◌∷◌, map, String, ◌≡◌, refl, sym, ap, ◌∙◌, subst, nat_eq, string_eq, In,
  inl, inr, Option-cases,
}
use xwork.Prelude.Result.{ok, err, ◌>>=◌, lift, already_enqueued}
use mathlib.Core.Option as Opt
use xwork.GoMap.{lookup, set, delete, values}
use xwork.GoMap.Laws.{delete_absent}
use xwork.Job.{Uuid, EnqueuedJob, FailedJob}
use xwork.Memory.State.{MemoryState}
use xwork.Memory.Invariant.{IsValid, Enqueued}
use xwork.Memory.Stored.{lookup-Stored, In-values}
use xwork.Sql.Driver.{Value, Driver, Json}
use xwork.Sql.Scan.{value, scan_failed, scan_optional}
use xwork.Sql.Queue.{insert_to_queue}
use xwork.Sql.Finished.{claim_failed}
use xwork.Sql.Engine.{Table, Stored, columns_of}
use xwork.Sql.Engine.Writes.{
  Serves, claim_text, enqueue_text, with_rows, find_row, without_row, row_of, projected,
}
use xwork.Sql.Stored.{IsKept, payload_cell, stored_failed, stored_enqueued, scan_failed-stored}
use xwork.Sql.Listing.{Holds}
use xwork.Sql.Rows.{find_row-values, without_row-values, In-delete}
use xwork.Sql.Keeps.{queue_values, answered}
use xwork.Sql.Steps.{bind_ok}
use xwork.Sql.Moves.Parts.{enqueued_part, failed_part}

-- a stored job is among the values
pub lookup-In :
    (s : MemoryState)
    → IsValid s
    → (id : Uuid) (job : FailedJob) → lookup id s.failed ≡ some job
    → In job (values s.failed)
lookup-In s v id job there =
    let own =
      (lookup-Stored (λ (j : FailedJob). j.id) (λ j. j.payload) id job s.failed v.failed there).0 in
    (In-values (λ (j : FailedJob). j.id) (λ j. j.payload) job s.failed v.failed).1
      (subst (λ k. lookup k s.failed ≡ some job) (sym own) there)

module _ (json : Json) (driver : Driver) (tables saved : driver.Db → Table → List Stored)
    (serves : Serves driver tables saved) where
  module _ (s : MemoryState) (v : IsValid s) (db : driver.Db)
      (held : Holds json (tables db) s) where
    scan-found :
        (id : Uuid)
        → scan_optional
            (scan_failed json driver.scan_error)
            (projected (columns_of Table.xwork_failed) (find_row id (tables db Table.xwork_failed)))
          ≡ ok (lookup id s.failed)
    scan-found id =
        rw
          (
            held.failed,
            find_row-values (λ (job : FailedJob). job.id) (λ job. job.payload) (stored_failed json)
                (λ job. refl) id s.failed v.failed,
          )
          (elim (Option-cases (lookup id s.failed)) [
            | inl gone ↦ rw gone refl
            | inr (job, there) ↦ rw there (
                rw
                  (scan_failed-stored json driver.scan_error job
                    (held.failed_kept job (lookup-In s v id job there)))
                  refl)
          ])

    Holds-claimed :
        (id : Uuid)
        → Holds json
            (with_rows Table.xwork_failed
              (without_row id (tables db Table.xwork_failed))
              (tables db))
            (record s { failed = delete id s.failed })
    Holds-claimed id =
        (failed_part json).put-Holds (tables db) s _ (delete id s.failed) held
          (rw held.failed (
            without_row-values (λ (job : FailedJob). job.id) (λ job. job.payload)
              (stored_failed json) (λ job. refl) id s.failed v.failed))
          (λ job h. held.failed_kept job (In-delete id job s.failed h))

    -- a claim gives the stored job, and takes it off the table
    pub claim_failed-stored :
        (id : Uuid)
        → (db' : driver.Db) × (claim_failed json driver id db ≡ (ok (lookup id s.failed), db'))
          × Holds json (tables db') (record s { failed = delete id s.failed })
    unfolding claim_failed
    claim_failed-stored id =
        let (db', e, changed, kept) = serves.claims id db in
        (
          db',
          bind_ok (driver.query_row claim_text (Value.uuid id ∷ []))
                (λ found. lift (scan_optional (scan_failed json driver.scan_error) found)) db _ db'
                e
              ∙ ap (λ r. (r, db')) (scan-found id),
          subst (λ t. Holds json t (record s { failed = delete id s.failed })) (sym changed)
              (Holds-claimed id),
        )

  module _ (s : MemoryState) (stored : Enqueued s.enqueued) (db : driver.Db)
      (held : Holds json (tables db) s) (job : EnqueuedJob) (kept : IsKept json job.payload) where
    found_queued :
        find_row job.id (tables db Table.xwork_queue)
        ≡ Opt.map (stored_enqueued json) (lookup job.id s.enqueued)
    found_queued = rw held.enqueued (
        find_row-values (λ (j : EnqueuedJob). j.id) (λ j. j.payload) (stored_enqueued json)
          (λ j. refl) job.id s.enqueued stored)

    -- the insertion, after the payload is written and the statement sent
    sent :
        (text : String) (db' : driver.Db) (affected : ℕ)
        → json.marshal job.payload ≡ ok text
        → driver.exec enqueue_text (Value.uuid job.id ∷ queue_values job (Value.bytes text)) db
          ≡ (ok (ok affected), db')
        → insert_to_queue json driver job db ≡ answered driver (ok affected) db'
    unfolding insert_to_queue value
    sent text db' affected written e =
        bind_ok (lift (value json job.payload))
          (λ payload.
            driver.exec enqueue_text (Value.uuid job.id ∷ queue_values job payload)
            >>= answered driver)
          db (Value.bytes text) db (rw written refl)
        ∙ bind_ok
            (driver.exec enqueue_text (Value.uuid job.id ∷ queue_values job (Value.bytes text)))
            (answered driver) db _ db' e

    sent_row :
        (text : String)
        → json.marshal job.payload ≡ ok text
        → row_of
            (columns_of Table.xwork_queue)
            (Value.uuid job.id ∷ queue_values job (Value.bytes text))
          ≡ stored_enqueued json job
    sent_row text written =
        let written_cell : Value.bytes text ≡ payload_cell json job.payload = rw written refl in
        ap
          (λ payload.
            row_of (columns_of Table.xwork_queue) (Value.uuid job.id ∷ queue_values job payload))
          written_cell

    Holds-queued :
        (text : String)
        → json.marshal job.payload ≡ ok text
        → lookup job.id s.enqueued ≡ none
        → Holds json
            (with_rows Table.xwork_queue
              (row_of
                  (columns_of Table.xwork_queue)
                  (Value.uuid job.id ∷ queue_values job (Value.bytes text))
                ∷ tables db Table.xwork_queue)
              (tables db))
            (record s { enqueued = set job.id job s.enqueued })
    unfolding set
    Holds-queued text written free =
        (enqueued_part json).put-Holds (tables db) s _ ((job.id, job) ∷ delete job.id s.enqueued)
          held
          (rw (delete_absent job.id s.enqueued free, held.enqueued)
            (ap (λ row. row ∷ map (stored_enqueued json) (values s.enqueued))
              (sent_row text written)))
          (λ other h. elim h [
            | inl e ↦ subst (λ (j : EnqueuedJob). IsKept json j.payload) e kept
            | inr h ↦ held.enqueued_kept other (In-delete job.id other s.enqueued h)
          ])

    -- an insertion into the queue, of a job whose id is not there
    pub insert_to_queue-free :
        lookup job.id s.enqueued ≡ none
        → (db' : driver.Db) × (insert_to_queue json driver job db ≡ (ok tt, db'))
          × Holds json (tables db') (record s { enqueued = set job.id job s.enqueued })
    insert_to_queue-free free =
        let (text, written, read) = kept in
        let (db', e, changed, same) =
          serves.enqueues job.id (queue_values job (Value.bytes text)) db in
        let found : find_row job.id (tables db Table.xwork_queue) ≡ none =
          rw (found_queued, free) refl in
        (
          db',
          sent text db' _ written e ∙ rw found refl,
          subst (λ t. Holds json t (record s { enqueued = set job.id job s.enqueued }))
              (sym (changed ∙ rw found refl)) (Holds-queued text written free),
        )

    -- and of one whose id is there
    pub insert_to_queue-busy :
        (other : EnqueuedJob)
        → lookup job.id s.enqueued ≡ some other
        → (db' : driver.Db) × (insert_to_queue json driver job db ≡ (err already_enqueued, db'))
          × Holds json (tables db') s
    insert_to_queue-busy other busy =
        let (text, written, read) = kept in
        let (db', e, changed, same) =
          serves.enqueues job.id (queue_values job (Value.bytes text)) db in
        let found : find_row job.id (tables db Table.xwork_queue)
            ≡ some (stored_enqueued json other) =
          rw (found_queued, busy) refl in
        (
          db',
          sent text db' _ written e ∙ rw found refl,
          subst (λ t. Holds json t s) (sym (changed ∙ rw found refl))
              ((enqueued_part json).put-Holds (tables db) s (tables db Table.xwork_queue) s.enqueued
                held held.enqueued held.enqueued_kept),
        )
