-- ===== src/Tests/Sql.antt =====
-- Witnesses of the SQL adapter (storage/sql.go).
use xwork.Prelude.{false, none, map, ◌≡◌, arith, nat_eq, string_eq}
use xwork.Prelude.Result.{ok, external}
use xwork.Text.{codes, contains_text}
use xwork.Job.{JobType, JobQuery, ProcessedJob}
use xwork.Memory.Query as Kept
use xwork.Memory.Adapter.{memory_adapter}
use xwork.Server.{retry_failed_job}
use xwork.Sql.Scan.{scan_scheduled, scan_enqueued, scan_processing, scan_processed, scan_failed}
use xwork.Sql.Like.{like, like-containing}
use xwork.Sql.Query.{containing, list_jobs}
use xwork.Sql.Finished.{claim_failed}
use xwork.Sql.Adapter.{sql_adapter, transact}
use xwork.Sql.Engine.{Table, columns_of}
use xwork.Sql.Stored.{
  stored_scheduled, stored_enqueued, stored_processing, stored_processed, stored_failed,
  rows_round_trip,
}
use xwork.Sql.Listing.{Holds}
use xwork.Sql.Refinement.{list_jobs-memory}
use xwork.Sql.Transactions.{transact-IsEnded, IsEnded}
use xwork.Sql.Keeps.{claim_failed-Keeps}
use xwork.Sql.Retry.{retry_failed_job-memory}
use xwork.Sql.Queue.{delete_from_queue}
use xwork.Sql.Taken.{IsTaken, delete_from_queue-IsTaken}
use xwork.Tests.{ascii, mail, resize, report, cleanup, busy, busy-IsValid}
use xwork.Tests.Database.{
  nulls, nil-IsKept, Database, lists, rows_now, rows_saved, busy_database, busy-Holds,
}
use xwork.Tests.Answers.{lists-AnswersLists, lists-TakesOldest, lists-Serves}

abbrev reports : JobQuery
reports = record { query = "Rep"; queue = ""; all_queues = false; limit = 10; offset = 0 }

list_jobs-memory_example :
    list_jobs ascii nulls lists JobType.failed reports busy_database
    ≡ ((Kept.list_jobs ascii JobType.failed reports busy).0, busy_database)
list_jobs-memory_example =
    list_jobs-memory ascii nulls lists rows_now lists-AnswersLists busy_database busy busy-IsValid
      (omega arith, omega arith, omega arith, omega arith, omega arith) busy-Holds JobType.failed
      reports (omega arith)

like-containing_example :
    like (containing (codes "50%_")) (codes "at 50%_off")
    ≡ contains_text (codes "at 50%_off") (codes "50%_")
like-containing_example = like-containing (codes "50%_") (codes "at 50%_off")

transact-IsEnded_example :
    (inside : Database) × (inside.now ≡ busy_database.now)
    × IsEnded rows_now busy_database
        (claim_failed nulls lists 3 inside)
        (transact lists (claim_failed nulls lists 3) busy_database)
transact-IsEnded_example =
    transact-IsEnded lists rows_now rows_saved lists-Serves (claim_failed nulls lists 3)
      (claim_failed-Keeps nulls lists rows_now rows_saved lists-Serves 3) busy_database

retry_failed_job-memory_example :
    ((retry_failed_job (sql_adapter ascii nulls lists) 60 3 busy_database).0
      ≡ (retry_failed_job (memory_adapter ascii) 60 3 busy).0)
    × Holds nulls
        (retry_failed_job (sql_adapter ascii nulls lists) 60 3 busy_database).1.now
        (retry_failed_job (memory_adapter ascii) 60 3 busy).1
retry_failed_job-memory_example =
    retry_failed_job-memory ascii nulls lists rows_now rows_saved lists-Serves 60 busy busy-IsValid
      3 busy_database busy-Holds

abbrev sent_twice : ProcessedJob
sent_twice = record {
  id = 5;
  name = "mail";
  queue = "default";
  payload = none;
  started_at = 20;
  completed_at = 25;
  enqueued_at = 10;
  scheduled_at = 5;
}

rows_round_trip_example :
    (scan_scheduled nulls
        (external "scan")
        (map (stored_scheduled nulls cleanup) (columns_of Table.xwork_schedule))
      ≡ ok cleanup)
    × (scan_enqueued nulls
          (external "scan")
          (map (stored_enqueued nulls mail) (columns_of Table.xwork_queue))
        ≡ ok mail)
    × (scan_processing nulls
          (external "scan")
          (map (stored_processing nulls resize) (columns_of Table.xwork_processing))
        ≡ ok resize)
    × (scan_processed nulls
          (external "scan")
          (map (stored_processed nulls sent_twice) (columns_of Table.xwork_processed))
        ≡ ok sent_twice)
    × (scan_failed nulls
          (external "scan")
          (map (stored_failed nulls report) (columns_of Table.xwork_failed))
        ≡ ok report)
rows_round_trip_example =
    rows_round_trip nulls (external "scan") cleanup mail resize sent_twice report nil-IsKept
      nil-IsKept nil-IsKept nil-IsKept nil-IsKept

delete_from_queue-IsTaken_example :
    IsTaken nulls rows_now "default" busy (delete_from_queue nulls lists "default" busy_database)
delete_from_queue-IsTaken_example =
    delete_from_queue-IsTaken nulls lists rows_now "default" busy busy_database
      (busy-Holds, busy-IsValid) lists-TakesOldest
