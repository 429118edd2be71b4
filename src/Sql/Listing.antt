-- ===== src/Sql/Listing.antt =====
-- `ListJobs` of storage/sql.go and of storage/memory.go side by side.
use xwork.Prelude.{
  ℕ, String, ◌+◌, ◌<◌, ◌^◌, Bool, none, some, List, map, ◌≡◌, refl, sym, ◌∙◌, arith, nat_eq, not,
  ◌==◌, string_eq, keep, In, length,
}
use xwork.Prelude.Result.{Result, ok, lift}
use xwork.Prelude.Sort.{sort_slice}
use xwork.GoMap.{Map, values}
use xwork.Payload.{Payload, IsPayload}
use xwork.Text.{Platform, codes, trim_space, lower_text}
use xwork.Job.{
  Uuid, ScheduledJob, EnqueuedJob, ProcessingJob, ProcessedJob, FailedJob, JobType, JobQuery, Jobs,
}
use xwork.Memory.State.{MemoryState}
use xwork.Memory.Stored.{Stored, map-clone-keep}
use xwork.Memory.Paging.{paginate_with_more}
use xwork.Memory.Paging.Laws.{paginate_with_more_lem}
use xwork.Memory.Query.{matches_job_query}
use xwork.Memory.Query.Matching.{length-keep, length-sort_slice, length-values}
use xwork.Sql.Driver.{Value, Row, Driver, Json}
use xwork.Sql.Query.{list_text, list_from, collected, filter_of, collect_job_rows}
use xwork.Sql.Engine.{
  Table, Stored as Row_of, Select, list_select, text_of, run_select, before, columns_of,
}
use xwork.Sql.Engine.Texts.{source_of}
use xwork.Sql.Engine.Filters.{
  filter, arguments, statement, has_text, list_text-filter, limit_argument, offset_argument,
  all_hold-filter,
}
use xwork.Sql.Stored.{
  IsKept, stored_scheduled, stored_enqueued, stored_processing, stored_processed, stored_failed,
}
use xwork.Sql.Steps.{bind_ok}
use xwork.Sql.Page.{collect_job_rows_lem}

-- The database behind the driver answers the statements of `listJobs` as SQL says, on the rows of
-- its tables, and reading changes nothing.
abbrev pub AnswersLists : Platform → (driver : Driver) → (driver.Db → Table → List Row_of) → Type 0
AnswersLists platform driver tables =
    (table : Table) (by_queue by_text : Bool) (args : List Value) (db : driver.Db)
    → driver.query (text_of (list_select table by_queue by_text)) args db ≡ (
      ok (record {
        rows = run_select platform (list_select table by_queue by_text) args (tables db table);
        failure = none;
      }),
      db,
    )

-- The tables of a database hold the jobs of a state, in any order the maps of the state are
-- written in, with payloads that encoding/json gives back.
pub record Holds (json : Json) (rows : Table → List Row_of) (s : MemoryState) : Type 0 where
  pub scheduled : rows Table.xwork_schedule ≡ map (stored_scheduled json) (values s.scheduled)
  pub enqueued : rows Table.xwork_queue ≡ map (stored_enqueued json) (values s.enqueued)
  pub processing : rows Table.xwork_processing ≡ map (stored_processing json) (values s.processing)
  pub processed : rows Table.xwork_processed ≡ map (stored_processed json) (values s.processed)
  pub failed : rows Table.xwork_failed ≡ map (stored_failed json) (values s.failed)
  pub scheduled_kept : (job : ScheduledJob) → In job (values s.scheduled) → IsKept json job.payload
  pub enqueued_kept : (job : EnqueuedJob) → In job (values s.enqueued) → IsKept json job.payload
  pub processing_kept :
      (job : ProcessingJob) → In job (values s.processing) → IsKept json job.payload
  pub processed_kept : (job : ProcessedJob) → In job (values s.processed) → IsKept json job.payload
  pub failed_kept : (job : FailedJob) → In job (values s.failed) → IsKept json job.payload

module _ (platform : Platform) (json : Json) (driver : Driver)
    (tables : driver.Db → Table → List Row_of) (answers : AnswersLists platform driver tables)
    (query : JobQuery) (limit : ℕ) (db : driver.Db) where
  abbrev needle : List ℕ
  needle = lower_text platform (trim_space platform (codes query.query))

  abbrev select : Table → Select
  select table = statement table needle query.queue

  abbrev args : List Value
  args = arguments needle query.queue (limit + 1) query.offset

  query_lem :
      (table : Table)
      → driver.query (list_text (source_of table) (filter needle query.queue)) args db ≡ (
        ok (record {
          rows = run_select platform (select table) args (tables db table);
          failure = none;
        }),
        db,
      )
  query_lem table =
      rw (list_text-filter table needle query.queue)
        (answers table (not (query.queue == "")) (has_text needle) args db)

  pub list_from_lem :
      (t : JobType) (table : Table)
      → list_from platform json driver t query limit (some (source_of table)) db ≡ (
        collected platform json driver t limit (record {
          rows = run_select platform (select table) args (tables db table);
          failure = none;
        }),
        db,
      )
  unfolding filter_of
  list_from_lem t table =
      bind_ok (driver.query (list_text (source_of table) (filter needle query.queue)) args)
        (λ rows. lift (collected platform json driver t limit rows)) db _ db (query_lem table)

  -- one table, with what is needed of its jobs
  module _ {J : Type 0} (table : Table) (jobs : List J → Jobs) (row : J → Row_of)
      (scan_row : Row → Result J) (id : J → Uuid) (name queue : J → String) (payload : J → Payload)
      (has_id : (job : J) → row job "id" ≡ Value.uuid (id job))
      (has_name : (job : J) → row job "name" ≡ Value.text (name job))
      (has_queue : (job : J) → row job "queue" ≡ Value.text (queue job)) (stored : Map Uuid J)
      (valid : Stored id payload stored)
      (reads : (job : J)
        → In job (values stored)
        → scan_row (map (row job) (columns_of table)) ≡ ok job)
      (clone : J → J) (clone_lem : (job : J) → IsPayload (payload job) → clone job ≡ job)
      (small : length stored < 2 ^ 63) (fits : query.offset + limit < 2 ^ 63) where
    abbrev matches : J → Bool
    matches job = matches_job_query platform query (id job) (name job) (queue job)

    abbrev less : J → J → Bool
    less a b = before platform (select table).latest_first (select table).time (row a) (row b)

    abbrev found : List J
    found = sort_slice less (keep matches (values stored))

    pub table_lem :
        tables db table ≡ map row (values stored)
        → collect_job_rows
            (record {
              rows = run_select platform (select table) args (tables db table);
              failure = none;
            })
            limit
            scan_row
          ≡ paginate_with_more
              (sort_slice less (map clone (keep matches (values stored))))
              limit
              query.offset
    table_lem held =
        rw (held, map-clone-keep id payload clone clone_lem matches stored valid)
          (collect_job_rows_lem platform row scan_row (select table) args matches (values stored)
              (λ job.
                all_hold-filter platform query table (limit + 1) query.offset (row job) (id job)
                  (name job) (queue job) (has_id job) (has_name job) (has_queue job) needle refl)
              reads limit query.offset
              (limit_argument table (limit + 1) query.offset needle query.queue)
              (offset_argument table (limit + 1) query.offset needle query.queue)
            ∙ sym (
                paginate_with_more_lem found limit query.offset
                  (omega (
                    arith,
                    length-sort_slice less (keep matches (values stored)),
                    length-keep matches (values stored),
                    length-values stored,
                  ))
                  fits))
