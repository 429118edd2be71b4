-- ===== src/Sql/Schedule.antt =====
-- The methods of storage/sql.go on scheduled jobs.
use xwork.Prelude.{ℕ, List, [], ◌∷◌}
use xwork.Prelude.Result.{Action, pure, lift, ◌>>=◌, ◌>>◌}
use xwork.Job.{Uuid, Time, ScheduledJob}
use xwork.Sql.Driver.{Value, Driver, Json}
use xwork.Sql.Scan.{value, scan_scheduled, collect, collect_page, default_limit}

module _ (json : Json) (driver : Driver) where
  open driver use {Db}

  unfoldable pub insert_to_scheduled : ScheduledJob → Action Db (Unit {0})
  insert_to_scheduled job = lift (value json job.payload) >>= λ payload.
      driver.exec
        "INSERT INTO xwork_schedule (id, name, queue, payload, enqueue_at, scheduled_at) VALUES ($1, $2, $3, $4, $5, $6)"
        (Value.uuid job.id
          ∷ Value.text job.name
          ∷ Value.text job.queue
          ∷ payload
          ∷ Value.instant job.enqueue_at
          ∷ Value.instant job.scheduled_at
          ∷ [])
      >> pure tt

  unfoldable pub next_from_scheduled : Time → Action Db (List ScheduledJob)
  next_from_scheduled now =
      driver.query
        "SELECT id, name, queue, payload, enqueue_at, scheduled_at\n\t\t\tFROM xwork_schedule\n\t\t\tWHERE enqueue_at <= $1"
        (Value.instant now ∷ [])
      >>= λ found. lift (collect (scan_scheduled json driver.scan_error) found)

  unfoldable pub delete_from_scheduled : Uuid → Action Db (Unit {0})
  delete_from_scheduled id =
      driver.exec "DELETE FROM xwork_schedule WHERE id = $1" (Value.uuid id ∷ []) >> pure tt

  unfoldable pub list_scheduled : ℕ → ℕ → Action Db (List ScheduledJob)
  list_scheduled limit offset =
      driver.query
        "SELECT id, name, queue, payload, enqueue_at, scheduled_at\n\t\t\tFROM xwork_schedule\n\t\t\tORDER BY enqueue_at DESC LIMIT $1 OFFSET $2"
        (Value.whole (default_limit limit) ∷ Value.whole offset ∷ [])
      >>= λ found.
          lift (collect_page (scan_scheduled json driver.scan_error) (default_limit limit) found)
