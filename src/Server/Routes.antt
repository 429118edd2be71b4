-- ===== src/Server/Routes.antt =====
-- The handlers of `ServeMux` in server.go, up to the encoding of their answers as JSON.
use xwork.Prelude.{
  ℕ, Bool, true, false, ◌&&◌, ◌||◌, not, Option, none, some, String, string_eq, ◌==◌, if◌then◌else◌,
}
use xwork.Prelude.Result.{
  Action, Result, ok, err, Error, error_text, is_panic, joined, failed_job_not_found,
  failed_job_claim_unsupported,
}
use xwork.Text.{Platform}
use xwork.Job.{Uuid, Time, EnqueuedJob, JobType, JobQuery, Jobs, default_queue}
use xwork.Storage.{StorageAdapter}
use xwork.Server.{list_legacy_jobs, retry_failed_job}
use xwork.Server.Request.{
  Request, Web, is_same_origin_browser_request, has_json_content_type, has_valid_json_object_body,
}
use xwork.Server.Query.{valid_job_type, parse_job_query}

pub data Body : Type 0 where
  failure : String → Body
  capabilities : Bool → Bool → Bool → Body
  counted : ℕ → Body
  -- with `hasMore`
  listed : Jobs → Bool → Body
  retried : EnqueuedJob → Body
  -- no answer: the handler has panicked, and net/http closes the connection
  aborted : Body

pub record Response : Type 0 where
  pub code : ℕ
  pub body : Body

-- `p.writeJsonError` and `p.writeJsonData`
abbrev pub refuse : ℕ → String → Response
refuse code text = record { code = code; body = Body.failure text }

abbrev pub answer : Body → Response
answer body = record { code = 200; body = body }

abbrev pub failed_with : Error → String → Response
failed_with e text =
    if is_panic e then record { code = 0; body = Body.aborted } else refuse 500 text

abbrev pub present {ℓ} : {A : Type ℓ} → Option A → Bool
present none = false
present (some _) = true

-- `errors.Is`
unfoldable pub is_not_found : Error → Bool
is_not_found failed_job_not_found = true
is_not_found (joined a b) = is_not_found a || is_not_found b
is_not_found _ = false

unfoldable pub is_claim_unsupported : Error → Bool
is_claim_unsupported failed_job_claim_unsupported = true
is_claim_unsupported (joined a b) = is_claim_unsupported a || is_claim_unsupported b
is_claim_unsupported _ = false

abbrev pub is_enqueued : JobType → Bool
is_enqueued JobType.enqueued = true
is_enqueued _ = false

-- the queue that `listJobs` puts in where none is asked for
abbrev pub with_listed_queue : JobType → JobQuery → JobQuery
with_listed_queue JobType.enqueued query =
    if query.queue == "" && not query.all_queues
    then record query { queue = default_queue }
    else query
with_listed_queue _ query = query

module _ (web : Web) (platform : Platform) (storage : StorageAdapter) where
  open storage use {Store}

  unfoldable pub get_capabilities : Bool → Response
  get_capabilities web_actions =
      let retry_failed = web_actions && present storage.claim_failed? in
      answer (Body.capabilities (not retry_failed) (present storage.list_jobs?) retry_failed)

  abbrev pub counted_response : Result ℕ × Store → Response × Store
  counted_response (ok count, s) = (answer (Body.counted count), s)
  counted_response (err e, s) = (failed_with e "failed to count jobs", s)

  abbrev pub count_type : Result JobType → Store → Response × Store
  count_type (err e) s = (refuse 400 (error_text e), s)
  count_type (ok t) s = counted_response (storage.count t s)

  unfoldable pub get_count : Request → Store → Response × Store
  get_count r = count_type (valid_job_type (r.path_value "jobType"))

  abbrev pub listed_response : Result (Jobs × Bool) × Store → Response × Store
  listed_response (ok (jobs, has_more), s) = (answer (Body.listed jobs has_more), s)
  listed_response (err e, s) = (failed_with e "failed to list jobs", s)

  abbrev pub list_legacy : JobType → JobQuery → Store → Response × Store
  list_legacy t query s =
      if not (query.query == "")
      then (refuse 400 "job search is not supported by this storage adapter", s)
      else if not (query.queue == "") && not (is_enqueued t)
      then (refuse 400 "queue filtering is not supported by this storage adapter", s)
      else listed_response (list_legacy_jobs storage t query s)

  abbrev pub list_by :
      Option (JobType → JobQuery → Action Store (Jobs × Bool))
      → JobType
      → JobQuery
      → Store
      → Response × Store
  list_by (some list_jobs) t query s = listed_response (list_jobs t query s)
  list_by none t query s = list_legacy t query s

  abbrev pub list_query : JobType → Result JobQuery → Store → Response × Store
  list_query t (err e) s = (refuse 400 (error_text e), s)
  list_query t (ok query) s = list_by storage.list_jobs? t (with_listed_queue t query) s

  abbrev pub list_type : Result JobType → Request → Store → Response × Store
  list_type (err e) r s = (refuse 400 (error_text e), s)
  list_type (ok t) r s = list_query t (parse_job_query platform r) s

  -- the handler of the list and `listJobs`
  unfoldable pub get_jobs : Request → Store → Response × Store
  get_jobs r = list_type (valid_job_type (r.path_value "jobType")) r

  abbrev pub retry_error : Error → Response
  retry_error e =
      if is_not_found e
      then refuse 404 "failed job not found"
      else if is_claim_unsupported e
      then refuse 403 "failed job retry is not supported"
      else failed_with e "failed to retry job"

  abbrev pub retried_response : Result EnqueuedJob × Store → Response × Store
  retried_response (ok job, s) = (answer (Body.retried job), s)
  retried_response (err e, s) = (retry_error e, s)

  abbrev pub retry_id : Time → Option Uuid → Store → Response × Store
  retry_id now none s = (refuse 400 "invalid job id", s)
  retry_id now (some id) s = retried_response (retry_failed_job storage now id s)

  unfoldable pub post_retry : Bool → Time → Request → Store → Response × Store
  post_retry web_actions now r s =
      if not (is_same_origin_browser_request web platform r)
      then (refuse 403 "cross-origin requests are not allowed", s)
      else if not (has_json_content_type web r)
      then (refuse 400 "content type must be application/json", s)
      else if not (has_valid_json_object_body web r)
      then (refuse 400 "request body must be a JSON object", s)
      else if not web_actions
      then (refuse 403 "web actions are disabled", s)
      else if not (present storage.claim_failed?)
      then (refuse 403 "failed job retry is not supported", s)
      else retry_id now (web.uuid_from_string (r.path_value "id")) s
