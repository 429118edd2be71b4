-- ===== src/Sql/Processing.antt =====
-- The methods of storage/sql.go on the jobs in processing and their heartbeats.
use xwork.Prelude.{ℕ, List, [], ◌∷◌}
use xwork.Prelude.Result.{Action, pure, lift, ◌>>=◌, ◌>>◌}
use xwork.Job.{Uuid, Time, ProcessingJob}
use xwork.Sql.Driver.{Value, Driver, Json}
use xwork.Sql.Scan.{value, scan_processing, collect, collect_page, default_limit}

module _ (json : Json) (driver : Driver) where
  open driver use {Db}

  unfoldable pub insert_to_processing : ProcessingJob → Action Db (Unit {0})
  insert_to_processing job = lift (value json job.payload) >>= λ payload.
      driver.exec
        "INSERT INTO xwork_processing (id, name, queue, payload, retry_count, started_at, enqueued_at, scheduled_at, last_heartbeat_at) VALUES ($1, $2, $3, $4, $5, $6, $7, $8, $9)"
        (Value.uuid job.id
          ∷ Value.text job.name
          ∷ Value.text job.queue
          ∷ payload
          ∷ Value.whole job.retry_count
          ∷ Value.instant job.started_at
          ∷ Value.instant job.enqueued_at
          ∷ Value.instant job.scheduled_at
          ∷ Value.instant job.started_at
          ∷ [])
      >> pure tt

  unfoldable pub emit_heartbeat : Time → ProcessingJob → Action Db (Unit {0})
  emit_heartbeat now job =
      driver.exec "UPDATE xwork_processing SET last_heartbeat_at = $1 WHERE id = $2"
        (Value.instant now ∷ Value.uuid job.id ∷ [])
      >> pure tt

  unfoldable pub get_by_last_heartbeat_before : Time → Action Db (List ProcessingJob)
  get_by_last_heartbeat_before timestamp =
      driver.query
        "SELECT id, name, queue, payload, retry_count, started_at, enqueued_at, scheduled_at FROM xwork_processing WHERE last_heartbeat_at < $1"
        (Value.instant timestamp ∷ [])
      >>= λ found. lift (collect (scan_processing json driver.scan_error) found)

  unfoldable pub delete_from_processing : Uuid → Action Db (Unit {0})
  delete_from_processing id =
      driver.exec "DELETE FROM xwork_processing WHERE id = $1" (Value.uuid id ∷ []) >> pure tt

  unfoldable pub list_processing : ℕ → ℕ → Action Db (List ProcessingJob)
  list_processing limit offset =
      driver.query
        "SELECT id, name, queue, payload, retry_count, started_at, enqueued_at, scheduled_at\n\t\t\tFROM xwork_processing\n\t\t\tORDER BY enqueued_at DESC LIMIT $1 OFFSET $2"
        (Value.whole (default_limit limit) ∷ Value.whole offset ∷ [])
      >>= λ found.
          lift (collect_page (scan_processing json driver.scan_error) (default_limit limit) found)
