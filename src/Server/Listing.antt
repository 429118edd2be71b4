-- ===== src/Server/Listing.antt =====
-- The list of the web UI over the in-memory adapter, from the request to the answer.
use xwork.Prelude.{
  ℕ, ◌≤◌, ◌<◌, ◌^◌, Bool, not, ◌&&◌, ◌==◌, string_eq, if◌then◌else◌, String, ◌≡◌, refl, ◌≢◌, arith,
  ap, subst, ◌∙◌,
}
use xwork.Prelude.Result.{Result, ok, err, error_text}
use xwork.Text.{Platform}
use xwork.Job.{JobType, JobQuery, Jobs}
use xwork.Memory.State.{MemoryState}
use xwork.Memory.Invariant.{IsValid}
use xwork.Memory.Query.{with_default_queue, list_jobs}
use xwork.Memory.Query.Laws.{IsAnswer, IsSmall, list_jobs_lem, offset_kept}
use xwork.Memory.Paging.{normalize_job_query_limit}
use xwork.Memory.Adapter.{memory_adapter}
use xwork.Server.Request.{Request, Web}
use xwork.Server.Query.{valid_job_type, parse_job_query}
use xwork.Server.Bounds.{parse_job_query_bounds, valid_job_type-known}
use xwork.Server.Reading.{IsReading, parse_job_query-IsReading, IsJobType, valid_job_type-IsJobType}
use xwork.Server.Routes.{Response, Body, refuse, answer, get_jobs, list_query, list_type}

-- What is asked for: of queued jobs, those of the queue "default" where neither a queue is given nor
-- all are wanted.
abbrev asked_query : JobType → JobQuery → JobQuery
asked_query JobType.enqueued query =
    if query.queue == "" && not query.all_queues then record query { queue = "default" } else query
asked_query _ query = query

-- The answer to a list request, by what its type and its query are read as: a refusal with the
-- reason, or the jobs of an answer of `ListJobs`.
abbrev pub IsListing :
    Platform → Result JobType → Result JobQuery → MemoryState → Response × MemoryState → Type 0
IsListing platform (err e) query s r = r ≡ (refuse 400 (error_text e), s)
IsListing platform (ok t) (err e) s r = r ≡ (refuse 400 (error_text e), s)
IsListing platform (ok t) (ok query) s r =
    (1 ≤ query.limit)
    × (query.limit ≤ 100)
    × (jobs : Jobs) × (has_more : Bool) × (r ≡ (answer (Body.listed jobs has_more), s))
    × IsAnswer platform t (asked_query t query) query.limit s (ok (jobs, has_more), s)

same_default_queue :
    (t : JobType) (q : JobQuery)
    → with_default_queue t (with_default_queue t q) ≡ with_default_queue t q
same_default_queue JobType.scheduled q = refl
same_default_queue JobType.enqueued q = ground arith
same_default_queue JobType.processing q = refl
same_default_queue JobType.processed q = refl
same_default_queue JobType.failed q = refl
same_default_queue (JobType.other raw) q = refl

limit_same : (t : JobType) (q : JobQuery) → (with_default_queue t q).limit ≡ q.limit
limit_same JobType.scheduled q = refl
limit_same JobType.enqueued q = ground arith
limit_same JobType.processing q = refl
limit_same JobType.processed q = refl
limit_same JobType.failed q = refl
limit_same (JobType.other raw) q = refl

normal_limit : (n : ℕ) → 1 ≤ n → n ≤ 100 → normalize_job_query_limit n ≡ n
unfolding normalize_job_query_limit
normal_limit n low high = ground arith

-- An answer to a known type is a page.
IsAnswer-ok :
    (platform : Platform) (t : JobType) (q : JobQuery) (limit : ℕ) (s : MemoryState)
    (r : Result (Jobs × Bool) × MemoryState)
    → ((raw : String) → t ≢ JobType.other raw)
    → IsAnswer platform t q limit s r
    → (jobs : Jobs) × (has_more : Bool) × (r ≡ (ok (jobs, has_more), s))
IsAnswer-ok platform JobType.scheduled q limit s r known (all, e, _, _) = (_, _, e)
IsAnswer-ok platform JobType.enqueued q limit s r known (all, e, _, _) = (_, _, e)
IsAnswer-ok platform JobType.processing q limit s r known (all, e, _, _) = (_, _, e)
IsAnswer-ok platform JobType.processed q limit s r known (all, e, _, _) = (_, _, e)
IsAnswer-ok platform JobType.failed q limit s r known (all, e, _, _) = (_, _, e)
IsAnswer-ok platform (JobType.other raw) q limit s r known e = absurd (known raw refl)

module _ (web : Web) (platform : Platform) (r : Request) (s : MemoryState) (v : IsValid s)
    (small : IsSmall s) where
  list_jobs-IsAnswer :
      (t : JobType) (q : JobQuery)
      → (1 ≤ q.limit) × (q.limit ≤ 100) × (q.offset < 2 ^ 32)
      → IsAnswer platform t
          (with_default_queue t q)
          q.limit
          s
          (list_jobs platform t (with_default_queue t q) s)
  list_jobs-IsAnswer t q (low, high, far) =
      let answered =
        list_jobs_lem platform t (with_default_queue t q) s v small
          (omega (arith, offset_kept t q)) in
      subst
        (λ n.
          IsAnswer platform t (with_default_queue t q) n s
            (list_jobs platform t (with_default_queue t q) s))
        (ap normalize_job_query_limit (limit_same t q) ∙ normal_limit q.limit low high)
        (subst
          (λ u.
            IsAnswer platform t u (normalize_job_query_limit (with_default_queue t q).limit) s
              (list_jobs platform t (with_default_queue t q) s))
          (same_default_queue t q) answered)

  list_query-IsListing :
      (t : JobType) (query : Result JobQuery)
      → ((raw : String) → t ≢ JobType.other raw)
      → ((q : JobQuery) → query ≡ ok q → (1 ≤ q.limit) × (q.limit ≤ 100) × (q.offset < 2 ^ 32))
      → IsListing platform
          (ok t)
          query
          s
          (list_query web platform (memory_adapter platform) t query s)
  list_query-IsListing t (err e) known b = refl
  list_query-IsListing t (ok q) known b =
      let found = list_jobs-IsAnswer t q (b q refl) in
      let (jobs, has_more, e) =
        IsAnswer-ok platform t (with_default_queue t q) q.limit s _ known found in
      (
        (b q refl).0,
        (b q refl).1,
        jobs,
        has_more,
        rw e refl,
        subst (λ x. IsAnswer platform t (with_default_queue t q) q.limit s x) e found,
      )

  list_type-IsListing :
      (t : Result JobType)
      → ((u : JobType) (raw : String) → t ≡ ok u → u ≢ JobType.other raw)
      → IsListing platform t
          (parse_job_query platform r)
          s
          (list_type web platform (memory_adapter platform) t r s)
  list_type-IsListing (err e) known = refl
  list_type-IsListing (ok t) known =
      list_query-IsListing t (parse_job_query platform r) (λ raw. known t raw refl)
        (λ q. parse_job_query_bounds platform r q)

  -- On a well-formed store of the in-memory adapter with fewer than 2^63 jobs in each table: the
  -- query of a list request is read from its parameters, each as it is given or by default, and
  -- refused for the first that cannot be used; its type is the one of the name given, or refused
  -- where it is none of the five. Where the type or the query is refused, the request is refused
  -- with that reason and the code 400; where neither is, the limit is from 1 to 100, and it is
  -- answered with jobs and has_more as `ListJobs` promises them for the type and the query, the
  -- queue "default" put in for queued jobs of no given queue. The store is not changed.
  pub get_jobs-IsListing :
      IsReading platform r (parse_job_query platform r)
      × IsJobType (r.path_value "jobType") (valid_job_type (r.path_value "jobType"))
      × IsListing platform
          (valid_job_type (r.path_value "jobType"))
          (parse_job_query platform r)
          s
          (get_jobs web platform (memory_adapter platform) r s)
  unfolding get_jobs
  get_jobs-IsListing = (
    parse_job_query-IsReading platform r,
    valid_job_type-IsJobType (r.path_value "jobType"),
    list_type-IsListing (valid_job_type (r.path_value "jobType"))
        (λ t raw. valid_job_type-known (r.path_value "jobType") raw t),
  )
