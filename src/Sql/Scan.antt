-- ===== src/Sql/Scan.antt =====
-- `JobPayload.Value` and `JobPayload.Scan` of job.go, and the `Scan` calls of storage/sql.go.
use xwork.Prelude.{ℕ, ◌^◌, String, List, [], ◌∷◌, Option, none, some, ltb, eqb, if◌then◌else◌}
use xwork.Prelude.Result.{Result, ok, err, Error, external, makeslice_cap_out_of_range}
use xwork.Payload.{Payload}
use xwork.Job.{ScheduledJob, EnqueuedJob, ProcessingJob, ProcessedJob, FailedJob}
use xwork.Sql.Driver.{Value, Row, Rows, Json}

abbrev pub then_ok {ℓ κ} : {A : Type ℓ} {B : Type κ} → Result A → (A → Result B) → Result B
then_ok (ok a) f = f a
then_ok (err e) f = err e

-- `j, err := json.Marshal(p)`
abbrev bytes_of : Result String → Result Value
bytes_of (ok text) = ok (Value.bytes text)
bytes_of (err e) = err e

module _ (json : Json) where
  -- `JobPayload.Value`
  unfoldable pub value : Payload → Result Value
  value payload = bytes_of (json.marshal payload)

  -- `JobPayload.Scan`
  unfoldable pub scan : Value → Result Payload
  scan (Value.bytes source) = json.unmarshal source
  scan _ = err (external "type assertion .([]byte) failed")

  module _ (scan_error : Error) where
    -- `rows.Scan(&job.ID, ...)` for each kind of job
    unfoldable pub scan_scheduled : Row → Result ScheduledJob
    scan_scheduled
          (Value.uuid id
            ∷ Value.text name
            ∷ Value.text queue
            ∷ payload
            ∷ Value.instant enqueue_at
            ∷ Value.instant scheduled_at
            ∷ []) =
        then_ok (scan payload) λ scanned. ok (record {
          id = id;
          name = name;
          queue = queue;
          payload = scanned;
          enqueue_at = enqueue_at;
          scheduled_at = scheduled_at;
        })
    scan_scheduled _ = err scan_error

    unfoldable pub scan_enqueued : Row → Result EnqueuedJob
    scan_enqueued
          (Value.uuid id
            ∷ Value.text name
            ∷ Value.text queue
            ∷ payload
            ∷ Value.whole retry_count
            ∷ Value.instant enqueued_at
            ∷ Value.instant scheduled_at
            ∷ []) =
        then_ok (scan payload) λ scanned. ok (record {
          id = id;
          name = name;
          queue = queue;
          payload = scanned;
          retry_count = retry_count;
          enqueued_at = enqueued_at;
          scheduled_at = scheduled_at;
        })
    scan_enqueued _ = err scan_error

    unfoldable pub scan_processing : Row → Result ProcessingJob
    scan_processing
          (Value.uuid id
            ∷ Value.text name
            ∷ Value.text queue
            ∷ payload
            ∷ Value.whole retry_count
            ∷ Value.instant started_at
            ∷ Value.instant enqueued_at
            ∷ Value.instant scheduled_at
            ∷ []) =
        then_ok (scan payload) λ scanned. ok (record {
          id = id;
          name = name;
          queue = queue;
          payload = scanned;
          retry_count = retry_count;
          started_at = started_at;
          enqueued_at = enqueued_at;
          scheduled_at = scheduled_at;
        })
    scan_processing _ = err scan_error

    unfoldable pub scan_processed : Row → Result ProcessedJob
    scan_processed
          (Value.uuid id
            ∷ Value.text name
            ∷ Value.text queue
            ∷ payload
            ∷ Value.instant started_at
            ∷ Value.instant completed_at
            ∷ Value.instant enqueued_at
            ∷ Value.instant scheduled_at
            ∷ []) =
        then_ok (scan payload) λ scanned. ok (record {
          id = id;
          name = name;
          queue = queue;
          payload = scanned;
          started_at = started_at;
          completed_at = completed_at;
          enqueued_at = enqueued_at;
          scheduled_at = scheduled_at;
        })
    scan_processed _ = err scan_error

    unfoldable pub scan_failed : Row → Result FailedJob
    scan_failed
          (Value.uuid id
            ∷ Value.text name
            ∷ Value.text queue
            ∷ payload
            ∷ Value.text error
            ∷ Value.instant last_retry_at
            ∷ Value.instant next_retry_at
            ∷ Value.whole retry_count
            ∷ Value.instant scheduled_at
            ∷ []) =
        then_ok (scan payload) λ scanned. ok (record {
          id = id;
          name = name;
          queue = queue;
          payload = scanned;
          error = error;
          retry_count = retry_count;
          last_retry_at = last_retry_at;
          next_retry_at = next_retry_at;
          scheduled_at = scheduled_at;
        })
    scan_failed _ = err scan_error

-- `if limit <= 0 { limit = 100 }`
abbrev pub default_limit : ℕ → ℕ
default_limit limit = if eqb limit 0 then 100 else limit

module _ {J : Type 0} (scan_row : Row → Result J) where
  -- the loop `for rows.Next()`
  unfoldable pub scan_all : List Row → Result (List J)
  scan_all [] = ok []
  scan_all (row ∷ rows) =
      let rest = scan_all rows in then_ok (scan_row row) λ job. then_ok rest λ jobs. ok (job ∷ jobs)

  -- the end of the methods that return a list: `rows.Err()` is not asked
  abbrev pub collect : Rows → Result (List J)
  collect found = scan_all found.rows

  -- Pointers of 8 bytes in an address space of 48 bits.
  abbrev max_capacity : ℕ
  max_capacity = 2 ^ 45

  -- `make([]*J, 0, limit)` before the loop
  abbrev pub collect_page : ℕ → Rows → Result (List J)
  collect_page limit found =
      if ltb max_capacity limit then err makeslice_cap_out_of_range else collect found

  -- `row.Scan`, with `nil, nil` for `sql.ErrNoRows`
  abbrev pub scan_optional : Option Row → Result (Option J)
  scan_optional none = ok none
  scan_optional (some row) = then_ok (scan_row row) λ job. ok (some job)
