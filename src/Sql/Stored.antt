-- ===== src/Sql/Stored.antt =====
-- The row that a job is stored as, and the job that `rows.Scan` of storage/sql.go makes of it.
use xwork.Prelude.{String, map, ◌≡◌, refl, string_eq, ◌==◌, if◌then◌else◌}
use xwork.Prelude.Result.{Result, ok, err, Error}
use xwork.Payload.{Payload}
use xwork.Job.{ScheduledJob, EnqueuedJob, ProcessingJob, ProcessedJob, FailedJob}
use xwork.Sql.Driver.{Value, Json}
use xwork.Sql.Scan.{
  scan, scan_scheduled, scan_enqueued, scan_processing, scan_processed, scan_failed,
}
use xwork.Sql.Engine.{Table, Stored, columns_of}

-- `encoding/json` gives the payload back.
abbrev pub IsKept : Json → Payload → Type 0
IsKept json payload =
    (text : String) × (json.marshal payload ≡ ok text) × (json.unmarshal text ≡ ok payload)

module _ (json : Json) where
  abbrev cell : Result String → Value
  cell (ok text) = Value.bytes text
  cell (err e) = Value.bytes ""

  abbrev pub payload_cell : Payload → Value
  payload_cell payload = cell (json.marshal payload)

  -- What `JobPayload.Value` writes, `JobPayload.Scan` reads as the payload.
  scan-payload_cell :
      (payload : Payload) → IsKept json payload → scan json (payload_cell payload) ≡ ok payload
  unfolding scan
  scan-payload_cell payload (text, written, read) = rw written read

  abbrev pub stored_scheduled : ScheduledJob → Stored
  stored_scheduled job column =
      if column == "id"
      then Value.uuid job.id
      else if column == "name"
      then Value.text job.name
      else if column == "queue"
      then Value.text job.queue
      else if column == "payload"
      then payload_cell job.payload
      else if column == "enqueue_at"
      then Value.instant job.enqueue_at
      else Value.instant job.scheduled_at

  abbrev pub stored_enqueued : EnqueuedJob → Stored
  stored_enqueued job column =
      if column == "id"
      then Value.uuid job.id
      else if column == "name"
      then Value.text job.name
      else if column == "queue"
      then Value.text job.queue
      else if column == "payload"
      then payload_cell job.payload
      else if column == "retry_count"
      then Value.whole job.retry_count
      else if column == "enqueued_at"
      then Value.instant job.enqueued_at
      else Value.instant job.scheduled_at

  abbrev pub stored_processing : ProcessingJob → Stored
  stored_processing job column =
      if column == "id"
      then Value.uuid job.id
      else if column == "name"
      then Value.text job.name
      else if column == "queue"
      then Value.text job.queue
      else if column == "payload"
      then payload_cell job.payload
      else if column == "retry_count"
      then Value.whole job.retry_count
      else if column == "started_at"
      then Value.instant job.started_at
      else if column == "enqueued_at"
      then Value.instant job.enqueued_at
      else Value.instant job.scheduled_at

  abbrev pub stored_processed : ProcessedJob → Stored
  stored_processed job column =
      if column == "id"
      then Value.uuid job.id
      else if column == "name"
      then Value.text job.name
      else if column == "queue"
      then Value.text job.queue
      else if column == "payload"
      then payload_cell job.payload
      else if column == "started_at"
      then Value.instant job.started_at
      else if column == "completed_at"
      then Value.instant job.completed_at
      else if column == "enqueued_at"
      then Value.instant job.enqueued_at
      else Value.instant job.scheduled_at

  abbrev pub stored_failed : FailedJob → Stored
  stored_failed job column =
      if column == "id"
      then Value.uuid job.id
      else if column == "name"
      then Value.text job.name
      else if column == "queue"
      then Value.text job.queue
      else if column == "payload"
      then payload_cell job.payload
      else if column == "error"
      then Value.text job.error
      else if column == "last_retry_at"
      then Value.instant job.last_retry_at
      else if column == "next_retry_at"
      then Value.instant job.next_retry_at
      else if column == "retry_count"
      then Value.whole job.retry_count
      else Value.instant job.scheduled_at

  module _ (scan_error : Error) where
    pub scan_scheduled-stored :
        (job : ScheduledJob)
        → IsKept json job.payload
        → scan_scheduled json scan_error
            (map (stored_scheduled job) (columns_of Table.xwork_schedule))
          ≡ ok job
    unfolding scan_scheduled
    scan_scheduled-stored job kept = rw (scan-payload_cell job.payload kept) refl

    pub scan_enqueued-stored :
        (job : EnqueuedJob)
        → IsKept json job.payload
        → scan_enqueued json scan_error (map (stored_enqueued job) (columns_of Table.xwork_queue))
          ≡ ok job
    unfolding scan_enqueued
    scan_enqueued-stored job kept = rw (scan-payload_cell job.payload kept) refl

    pub scan_processing-stored :
        (job : ProcessingJob)
        → IsKept json job.payload
        → scan_processing json scan_error
            (map (stored_processing job) (columns_of Table.xwork_processing))
          ≡ ok job
    unfolding scan_processing
    scan_processing-stored job kept = rw (scan-payload_cell job.payload kept) refl

    pub scan_processed-stored :
        (job : ProcessedJob)
        → IsKept json job.payload
        → scan_processed json scan_error
            (map (stored_processed job) (columns_of Table.xwork_processed))
          ≡ ok job
    unfolding scan_processed
    scan_processed-stored job kept = rw (scan-payload_cell job.payload kept) refl

    pub scan_failed-stored :
        (job : FailedJob)
        → IsKept json job.payload
        → scan_failed json scan_error (map (stored_failed job) (columns_of Table.xwork_failed))
          ≡ ok job
    unfolding scan_failed
    scan_failed-stored job kept = rw (scan-payload_cell job.payload kept) refl

    -- For a job of each of the five kinds, whose payload encoding/json gives back after writing
    -- it, the scan of the row that it is stored as, its columns in the order of the statements,
    -- gives the job.
    pub rows_round_trip :
        (scheduled : ScheduledJob) (enqueued : EnqueuedJob) (processing : ProcessingJob)
        (processed : ProcessedJob) (failed : FailedJob)
        → IsKept json scheduled.payload
        → IsKept json enqueued.payload
        → IsKept json processing.payload
        → IsKept json processed.payload
        → IsKept json failed.payload
        → (scan_scheduled json scan_error
              (map (stored_scheduled scheduled) (columns_of Table.xwork_schedule))
            ≡ ok scheduled)
          × (scan_enqueued json scan_error
                (map (stored_enqueued enqueued) (columns_of Table.xwork_queue))
              ≡ ok enqueued)
          × (scan_processing json scan_error
                (map (stored_processing processing) (columns_of Table.xwork_processing))
              ≡ ok processing)
          × (scan_processed json scan_error
                (map (stored_processed processed) (columns_of Table.xwork_processed))
              ≡ ok processed)
          × (scan_failed json scan_error
                (map (stored_failed failed) (columns_of Table.xwork_failed))
              ≡ ok failed)
    rows_round_trip a b c d f ka kb kc kd kf = (
      scan_scheduled-stored a ka,
      scan_enqueued-stored b kb,
      scan_processing-stored c kc,
      scan_processed-stored d kd,
      scan_failed-stored f kf,
    )
