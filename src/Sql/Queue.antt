-- ===== src/Sql/Queue.antt =====
-- The methods of storage/sql.go on enqueued jobs.
use xwork.Prelude.{ℕ, String, List, [], ◌∷◌, Option, eqb, if◌then◌else◌}
use xwork.Prelude.Result.{Action, pure, fails, lift, ◌>>=◌, already_enqueued}
use xwork.Job.{EnqueuedJob}
use xwork.Sql.Driver.{Value, Driver, Json}
use xwork.Sql.Scan.{value, scan_enqueued, collect_page, default_limit, scan_optional}

module _ (json : Json) (driver : Driver) where
  open driver use {Db}

  unfoldable pub insert_to_queue : EnqueuedJob → Action Db (Unit {0})
  insert_to_queue job = lift (value json job.payload) >>= λ payload.
      driver.exec
        "INSERT INTO xwork_queue (id, name, queue, payload, retry_count, enqueued_at, scheduled_at) VALUES ($1, $2, $3, $4, $5, $6, $7) ON CONFLICT (id) DO NOTHING"
        (Value.uuid job.id
          ∷ Value.text job.name
          ∷ Value.text job.queue
          ∷ payload
          ∷ Value.whole job.retry_count
          ∷ Value.instant job.enqueued_at
          ∷ Value.instant job.scheduled_at
          ∷ [])
      >>= λ result. lift result >>= λ rows_affected.
          if eqb rows_affected 0 then fails already_enqueued else pure tt

  unfoldable pub get_from_queue : String → Action Db (Option EnqueuedJob)
  get_from_queue queue =
      driver.query_row
        "SELECT id, name, queue, payload, retry_count, enqueued_at, scheduled_at FROM xwork_queue WHERE queue = $1 ORDER BY enqueued_at ASC LIMIT 1"
        (Value.text queue ∷ [])
      >>= λ found. lift (scan_optional (scan_enqueued json driver.scan_error) found)

  unfoldable pub delete_from_queue : String → Action Db (Option EnqueuedJob)
  delete_from_queue queue =
      driver.query_row
        "DELETE FROM xwork_queue\n\t\t\tWHERE id = (\n\t\t\t\tSELECT id FROM xwork_queue\n\t\t\t\tWHERE queue = $1\n\t\t\t\tORDER BY enqueued_at ASC, id ASC\n\t\t\t\tLIMIT 1\n\t\t\t)\n\t\t\tRETURNING id, name, queue, payload, retry_count, enqueued_at, scheduled_at"
        (Value.text queue ∷ [])
      >>= λ found. lift (scan_optional (scan_enqueued json driver.scan_error) found)

  unfoldable pub list_enqueued : String → ℕ → ℕ → Action Db (List EnqueuedJob)
  list_enqueued queue limit offset =
      driver.query
        "SELECT id, name, queue, payload, retry_count, enqueued_at, scheduled_at\n\t\t\tFROM xwork_queue\n\t\t\tWHERE queue = $1\n\t\t\tORDER BY enqueued_at ASC LIMIT $2 OFFSET $3"
        (Value.text queue ∷ Value.whole (default_limit limit) ∷ Value.whole offset ∷ [])
      >>= λ found.
          lift (collect_page (scan_enqueued json driver.scan_error) (default_limit limit) found)
