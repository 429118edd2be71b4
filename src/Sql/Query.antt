-- ===== src/Sql/Query.antt =====
-- `listJobs`, `collectJobRows` and `count` of storage/sql.go.
use Prim.Native.String.{◌++◌ as ◌<>◌}
use xwork.Prelude.{
  ℕ, ◌+◌, Bool, true, false, not, ◌&&◌, Option, none, some, List, [], ◌∷◌, ◌++◌, String, string_eq,
  ◌==◌, ltb, eqb, if◌then◌else◌, length, take,
}
use xwork.Prelude.Result.{
  Action, Error, Result, ok, err, fails, lift, ◌>>=◌, unknown_job_type, external,
}
use xwork.Text.{Platform, codes, trim_space, lower_text}
use xwork.Job.{JobType, JobQuery, Jobs, default_queue}
use xwork.Memory.Paging.{normalize_job_query_limit}
use xwork.Sql.Driver.{Value, Row, Rows, Driver, Json}
use xwork.Sql.Scan.{
  then_ok, scan_all, scan_scheduled, scan_enqueued, scan_processing, scan_processed, scan_failed,
}

-- `table`, `columns` and `orderBy`
pub record Source : Type 0 where
  pub table : String
  pub columns : String
  pub order_by : String

abbrev pub source : JobType → Option Source
source JobType.scheduled = some (record {
  table = "xwork_schedule";
  columns = "id, name, queue, payload, enqueue_at, scheduled_at";
  order_by = "enqueue_at DESC, id ASC";
})
source JobType.enqueued = some (record {
  table = "xwork_queue";
  columns = "id, name, queue, payload, retry_count, enqueued_at, scheduled_at";
  order_by = "enqueued_at ASC, id ASC";
})
source JobType.processing = some (record {
  table = "xwork_processing";
  columns = "id, name, queue, payload, retry_count, started_at, enqueued_at, scheduled_at";
  order_by = "enqueued_at DESC, id ASC";
})
source JobType.processed = some (record {
  table = "xwork_processed";
  columns = "id, name, queue, payload, started_at, completed_at, enqueued_at, scheduled_at";
  order_by = "completed_at DESC, id ASC";
})
source JobType.failed = some (record {
  table = "xwork_failed";
  columns =
      "id, name, queue, payload, error, last_retry_at, next_retry_at, retry_count, scheduled_at";
  order_by = "next_retry_at DESC, id ASC";
})
source (JobType.other raw) = none

-- `fmt.Sprintf("$%d", n)`, for the number of at most four arguments
abbrev pub placeholder : ℕ → String
placeholder n = if eqb n 1 then "$1" else if eqb n 2 then "$2" else if eqb n 3 then "$3" else "$4"

-- `strings.NewReplacer`: a backslash in front of `\`, `%` and `_`
abbrev pub is_wildcard : ℕ → Bool
is_wildcard c = if eqb c 92 then true else if eqb c 37 then true else eqb c 95

unfoldable pub escape_like : List ℕ → List ℕ
escape_like [] = []
escape_like (c ∷ cs) =
    let rest = escape_like cs in if is_wildcard c then 92 ∷ c ∷ rest else c ∷ rest

-- `"%"+query+"%"`
abbrev pub containing : List ℕ → List ℕ
containing query = 37 ∷ escape_like query ++ 37 ∷ []

-- `args` and `conditions`
pub record Filter : Type 0 where
  pub args : List Value
  pub conditions : List String

abbrev pub with_queue : String → Filter → Filter
with_queue queue f =
    if queue == ""
    then f
    else let args = f.args ++ Value.text queue ∷ [] in
      record {
        args = args;
        conditions = f.conditions ++ ("queue = " <> placeholder (length args)) ∷ [];
      }

abbrev pub like_condition : String → String
like_condition n =
    "(LOWER(name) LIKE " <> n <> " ESCAPE '\\' OR LOWER(CAST(id AS TEXT)) LIKE " <> n
    <> " ESCAPE '\\')"

abbrev pub with_query : List ℕ → Filter → Filter
with_query [] f = f
with_query (c ∷ cs) f =
    let args = f.args ++ Value.points (containing (c ∷ cs)) ∷ [] in
    record {
      args = args;
      conditions = f.conditions ++ like_condition (placeholder (length args)) ∷ [];
    }

-- `strings.Join(conditions, " AND ")` after " WHERE ", or nothing
abbrev pub and_all : String → List String → String
and_all first [] = first
and_all first (next ∷ rest) = first <> " AND " <> and_all next rest

abbrev pub where_clause : List String → String
where_clause [] = ""
where_clause (first ∷ rest) = " WHERE " <> and_all first rest

-- the text of the query, given how many arguments its conditions have
abbrev pub list_text : Source → Filter → String
list_text s f =
    "SELECT "
    <> s.columns
    <> " FROM "
    <> s.table
    <> where_clause f.conditions
    <> " ORDER BY "
    <> s.order_by
    <> " LIMIT "
    <> placeholder (length f.args + 1)
    <> " OFFSET "
    <> placeholder (length f.args + 1 + 1)

unfoldable pub filter_of : Platform → JobQuery → Filter
filter_of platform query =
    with_query (lower_text platform (trim_space platform (codes query.query)))
      (with_queue query.queue (record { args = []; conditions = [] }))

-- `hasMore`, and the page without the job that was asked for beyond it
abbrev pub cut_page : {J : Type 0} → ℕ → List J → List J × Bool
cut_page limit jobs = if ltb limit (length jobs) then (take limit jobs, true) else (jobs, false)

abbrev pub unless_failed : {A : Type 0} → Option (Error) → A → Result A
unless_failed none a = ok a
unless_failed (some e) a = err e

unfoldable pub collect_job_rows :
    {J : Type 0} → Rows → ℕ → (Row → Result J) → Result (List J × Bool)
collect_job_rows found limit scan =
    then_ok (scan_all scan found.rows) λ jobs. unless_failed found.failure (cut_page limit jobs)

abbrev page_of : {J : Type 0} → (List J → Jobs) → Result (List J × Bool) → Result (Jobs × Bool)
page_of jobs (ok (page, has_more)) = ok (jobs page, has_more)
page_of jobs (err e) = err e

-- the queue that `listJobs` puts in where none is asked for
abbrev pub with_job_queue : JobType → JobQuery → JobQuery
with_job_queue JobType.enqueued query =
    if query.queue == "" && not query.all_queues
    then record query { queue = default_queue }
    else query
with_job_queue _ query = query

module _ (platform : Platform) (json : Json) (driver : Driver) where
  open driver use {Db, scan_error}

  -- the second `switch`
  unfoldable pub collected : JobType → ℕ → Rows → Result (Jobs × Bool)
  collected JobType.scheduled limit found =
      page_of Jobs.scheduled (collect_job_rows found limit (scan_scheduled json scan_error))
  collected JobType.enqueued limit found =
      page_of Jobs.enqueued (collect_job_rows found limit (scan_enqueued json scan_error))
  collected JobType.processing limit found =
      page_of Jobs.processing (collect_job_rows found limit (scan_processing json scan_error))
  collected JobType.processed limit found =
      page_of Jobs.processed (collect_job_rows found limit (scan_processed json scan_error))
  collected JobType.failed limit found =
      page_of Jobs.failed (collect_job_rows found limit (scan_failed json scan_error))
  collected (JobType.other raw) limit found = err unknown_job_type

  abbrev pub list_from : JobType → JobQuery → ℕ → Option Source → Action Db (Jobs × Bool)
  list_from t query limit none = fails unknown_job_type
  list_from t query limit (some s) =
      let f = filter_of platform query in
      driver.query (list_text s f)
        (f.args ++ Value.whole (limit + 1) ∷ Value.whole query.offset ∷ [])
      >>= λ found. lift (collected t limit found)

  unfoldable pub list_jobs : JobType → JobQuery → Action Db (Jobs × Bool)
  list_jobs t query =
      list_from t (with_job_queue t query) (normalize_job_query_limit query.limit) (source t)

-- `row.Scan(&count)`
abbrev scan_count : Error → Option Row → Result ℕ
scan_count scan_error (some (Value.whole n ∷ [])) = ok n
scan_count scan_error (some _) = err scan_error
scan_count scan_error none = err (external "sql: no rows in result set")

module _ (driver : Driver) where
  open driver use {Db, scan_error}

  abbrev count_from : Option Source → Action Db ℕ
  count_from none = fails unknown_job_type
  count_from (some s) = driver.query_row ("SELECT COUNT(*) FROM " <> s.table) [] >>= λ found.
      lift (scan_count scan_error found)

  unfoldable pub count : JobType → Action Db ℕ
  count t = count_from (source t)
