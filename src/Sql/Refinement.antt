-- ===== src/Sql/Refinement.antt =====
-- `ListJobs` of storage/sql.go gives what `ListJobs` of storage/memory.go gives on the same jobs.
use xwork.Prelude.{ℕ, List, ◌+◌, ◌<◌, ◌^◌, ◌≡◌, refl, ap, ◌∙◌, arith, nat_eq, string_eq}
use xwork.Text.{Platform}
use xwork.Job.{JobType, JobQuery, Jobs}
use xwork.Memory.State.{
  MemoryState, clone_scheduled_job, clone_enqueued_job, clone_processing_job, clone_processed_job,
  clone_failed_job,
}
use xwork.Memory.Invariant.{
  IsValid, clone_scheduled_job_lem, clone_enqueued_job_lem, clone_processing_job_lem,
  clone_processed_job_lem, clone_failed_job_lem,
}
use xwork.Memory.Paging.{normalize_job_query_limit}
use xwork.Memory.Paging.Laws.{normalize_job_query_limit_bounds}
use xwork.Memory.Query as Kept
use xwork.Memory.Query.{with_default_queue, list_jobs_of}
use xwork.Memory.Query.Laws.{IsSmall, offset_kept}
use xwork.Sql.Driver.{Driver, Json}
use xwork.Sql.Scan.{scan_scheduled, scan_enqueued, scan_processing, scan_processed, scan_failed}
use xwork.Sql.Query.{list_from, source, list_jobs, collected}
use xwork.Sql.Engine.{Table, Stored}
use xwork.Sql.Stored.{
  stored_scheduled, stored_enqueued, stored_processing, stored_processed, stored_failed,
  scan_scheduled-stored, scan_enqueued-stored, scan_processing-stored, scan_processed-stored,
  scan_failed-stored,
}
use xwork.Sql.Listing.{AnswersLists, Holds, list_from_lem, table_lem}

module _ (platform : Platform) (json : Json) (driver : Driver)
    (tables : driver.Db → Table → List Stored) (answers : AnswersLists platform driver tables)
    (db : driver.Db) (s : MemoryState) (v : IsValid s) (small : IsSmall s)
    (held : Holds json (tables db) s) where
  list_from-memory :
      (t : JobType) (query : JobQuery) (limit : ℕ)
      → query.offset + limit < 2 ^ 63
      → list_from platform json driver t query limit (source t) db
        ≡ ((list_jobs_of platform t query limit s).0, db)
  unfolding list_jobs_of collected
  list_from-memory JobType.scheduled query limit fits =
      list_from_lem platform json driver tables answers query limit db JobType.scheduled
        Table.xwork_schedule
      ∙ ap (λ r. (Kept.page_of platform Jobs.scheduled r, db))
          (table_lem platform json driver tables answers query limit db Table.xwork_schedule
            Jobs.scheduled (stored_scheduled json) (scan_scheduled json driver.scan_error)
            (λ job. job.id) (λ job. job.name) (λ job. job.queue) (λ job. job.payload) (λ job. refl)
            (λ job. refl) (λ job. refl) s.scheduled v.scheduled
            (λ job h. scan_scheduled-stored json driver.scan_error job (held.scheduled_kept job h))
            clone_scheduled_job clone_scheduled_job_lem small.0 fits held.scheduled)
  list_from-memory JobType.enqueued query limit fits =
      list_from_lem platform json driver tables answers query limit db JobType.enqueued
        Table.xwork_queue
      ∙ ap (λ r. (Kept.page_of platform Jobs.enqueued r, db))
          (table_lem platform json driver tables answers query limit db Table.xwork_queue
            Jobs.enqueued (stored_enqueued json) (scan_enqueued json driver.scan_error)
            (λ job. job.id) (λ job. job.name) (λ job. job.queue) (λ job. job.payload) (λ job. refl)
            (λ job. refl) (λ job. refl) s.enqueued v.enqueued
            (λ job h. scan_enqueued-stored json driver.scan_error job (held.enqueued_kept job h))
            clone_enqueued_job clone_enqueued_job_lem small.1 fits held.enqueued)
  list_from-memory JobType.processing query limit fits =
      list_from_lem platform json driver tables answers query limit db JobType.processing
        Table.xwork_processing
      ∙ ap (λ r. (Kept.page_of platform Jobs.processing r, db))
          (table_lem platform json driver tables answers query limit db Table.xwork_processing
            Jobs.processing (stored_processing json) (scan_processing json driver.scan_error)
            (λ job. job.id) (λ job. job.name) (λ job. job.queue) (λ job. job.payload) (λ job. refl)
            (λ job. refl) (λ job. refl) s.processing v.processing
            (λ job h.
              scan_processing-stored json driver.scan_error job (held.processing_kept job h))
            clone_processing_job clone_processing_job_lem small.2 fits held.processing)
  list_from-memory JobType.processed query limit fits =
      list_from_lem platform json driver tables answers query limit db JobType.processed
        Table.xwork_processed
      ∙ ap (λ r. (Kept.page_of platform Jobs.processed r, db))
          (table_lem platform json driver tables answers query limit db Table.xwork_processed
            Jobs.processed (stored_processed json) (scan_processed json driver.scan_error)
            (λ job. job.id) (λ job. job.name) (λ job. job.queue) (λ job. job.payload) (λ job. refl)
            (λ job. refl) (λ job. refl) s.processed v.processed
            (λ job h. scan_processed-stored json driver.scan_error job (held.processed_kept job h))
            clone_processed_job clone_processed_job_lem small.3 fits held.processed)
  list_from-memory JobType.failed query limit fits =
      list_from_lem platform json driver tables answers query limit db JobType.failed
        Table.xwork_failed
      ∙ ap (λ r. (Kept.page_of platform Jobs.failed r, db))
          (table_lem platform json driver tables answers query limit db Table.xwork_failed
            Jobs.failed (stored_failed json) (scan_failed json driver.scan_error) (λ job. job.id)
            (λ job. job.name) (λ job. job.queue) (λ job. job.payload) (λ job. refl) (λ job. refl)
            (λ job. refl) s.failed v.failed
            (λ job h. scan_failed-stored json driver.scan_error job (held.failed_kept job h))
            clone_failed_job clone_failed_job_lem small.4 fits held.failed)
  list_from-memory (JobType.other raw) query limit fits = refl

  -- For a database that answers the statements of `listJobs` as SQL says, and whose tables hold
  -- the jobs of a well-formed state with fewer than 2^63 jobs in each table, and for an offset at
  -- least 100 below 2^63, `ListJobs` of the SQL adapter changes nothing and gives the result of
  -- `ListJobs` of the in-memory adapter on that state, for every type and query.
  pub list_jobs-memory :
      (t : JobType) (query : JobQuery)
      → query.offset + 100 < 2 ^ 63
      → list_jobs platform json driver t query db ≡ ((Kept.list_jobs platform t query s).0, db)
  unfolding list_jobs Kept.list_jobs
  list_jobs-memory t query fits =
      list_from-memory t (with_default_queue t query) (normalize_job_query_limit query.limit)
        (omega (arith, normalize_job_query_limit_bounds query.limit, offset_kept t query))
