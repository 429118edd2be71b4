-- ===== src/Sql/Finished.antt =====
-- The methods of storage/sql.go on processed and failed jobs.
use xwork.Prelude.{ℕ, List, [], ◌∷◌, Option}
use xwork.Prelude.Result.{Action, pure, lift, ◌>>=◌, ◌>>◌}
use xwork.Job.{Uuid, Time, ProcessedJob, FailedJob}
use xwork.Sql.Driver.{Value, Driver, Json}
use xwork.Sql.Scan.{
  value, scan_processed, scan_failed, collect, collect_page, default_limit, scan_optional,
}

module _ (json : Json) (driver : Driver) where
  open driver use {Db}

  unfoldable pub insert_to_processed : ProcessedJob → Action Db (Unit {0})
  insert_to_processed job = lift (value json job.payload) >>= λ payload.
      driver.exec
        "INSERT INTO xwork_processed (id, name, queue, payload, started_at, completed_at, enqueued_at, scheduled_at) VALUES ($1, $2, $3, $4, $5, $6, $7, $8)"
        (Value.uuid job.id
          ∷ Value.text job.name
          ∷ Value.text job.queue
          ∷ payload
          ∷ Value.instant job.started_at
          ∷ Value.instant job.completed_at
          ∷ Value.instant job.enqueued_at
          ∷ Value.instant job.scheduled_at
          ∷ [])
      >> pure tt

  unfoldable pub list_processed : ℕ → ℕ → Action Db (List ProcessedJob)
  list_processed limit offset =
      driver.query
        "SELECT id, name, queue, payload, started_at, completed_at, enqueued_at, scheduled_at\n\t\t\tFROM xwork_processed\n\t\t\tORDER BY completed_at DESC, id ASC LIMIT $1 OFFSET $2"
        (Value.whole (default_limit limit) ∷ Value.whole offset ∷ [])
      >>= λ found.
          lift (collect_page (scan_processed json driver.scan_error) (default_limit limit) found)

  unfoldable pub insert_to_failed : FailedJob → Action Db (Unit {0})
  insert_to_failed job = lift (value json job.payload) >>= λ payload.
      driver.exec
        "INSERT INTO xwork_failed (id, name, queue, payload, error, last_retry_at, next_retry_at, retry_count, scheduled_at) VALUES ($1, $2, $3, $4, $5, $6, $7, $8, $9)"
        (Value.uuid job.id
          ∷ Value.text job.name
          ∷ Value.text job.queue
          ∷ payload
          ∷ Value.text job.error
          ∷ Value.instant job.last_retry_at
          ∷ Value.instant job.next_retry_at
          ∷ Value.whole job.retry_count
          ∷ Value.instant job.scheduled_at
          ∷ [])
      >> pure tt

  unfoldable pub next_from_failed : Time → Action Db (List FailedJob)
  next_from_failed now =
      driver.query
        "SELECT id, name, queue, payload, error, last_retry_at, next_retry_at, retry_count, scheduled_at\n\t\t\tFROM xwork_failed\n\t\t\tWHERE next_retry_at <= $1"
        (Value.instant now ∷ [])
      >>= λ found. lift (collect (scan_failed json driver.scan_error) found)

  unfoldable pub delete_from_failed : Uuid → Action Db (Unit {0})
  delete_from_failed id =
      driver.exec "DELETE FROM xwork_failed WHERE id = $1" (Value.uuid id ∷ []) >> pure tt

  unfoldable pub get_failed : Uuid → Action Db (Option FailedJob)
  get_failed id =
      driver.query_row
        "SELECT id, name, queue, payload, error, last_retry_at, next_retry_at, retry_count, scheduled_at\n\t\t\tFROM xwork_failed\n\t\t\tWHERE id = $1"
        (Value.uuid id ∷ [])
      >>= λ found. lift (scan_optional (scan_failed json driver.scan_error) found)

  unfoldable pub claim_failed : Uuid → Action Db (Option FailedJob)
  claim_failed id =
      driver.query_row
        "DELETE FROM xwork_failed\n\t\t\tWHERE id = $1\n\t\t\tRETURNING id, name, queue, payload, error, last_retry_at, next_retry_at, retry_count, scheduled_at"
        (Value.uuid id ∷ [])
      >>= λ found. lift (scan_optional (scan_failed json driver.scan_error) found)

  unfoldable pub list_failed : ℕ → ℕ → Action Db (List FailedJob)
  list_failed limit offset =
      driver.query
        "SELECT id, name, queue, payload, error, last_retry_at, next_retry_at, retry_count, scheduled_at\n\t\t\tFROM xwork_failed\n\t\t\tORDER BY next_retry_at DESC LIMIT $1 OFFSET $2"
        (Value.whole limit ∷ Value.whole offset ∷ [])
      >>= λ found. lift (collect_page (scan_failed json driver.scan_error) (limit) found)
