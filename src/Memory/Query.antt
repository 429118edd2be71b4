-- ===== src/Memory/Query.antt =====
-- `ListJobs`, `Count` and `matchesJobQuery` of storage/memory.go.
pub mod Matching
pub mod Laws
use xwork.Prelude.{
  ℕ, Bool, true, false, ◌&&◌, ◌||◌, not, List, [], ◌∷◌, map, String, ltb, eqb, if◌then◌else◌, ◌==◌,
  string_eq, keep, length,
}
use xwork.Prelude.Result.{Action, Result, ok, err, unknown_job_type}
use xwork.Prelude.Sort.{sort_slice}
use xwork.GoMap.{values}
use xwork.Text.{Platform, codes, uuid_less, trim_space, lower_text, contains_text}
use xwork.Job.{
  Uuid, ScheduledJob, EnqueuedJob, ProcessingJob, FailedJob, JobType, JobQuery, Jobs, default_queue,
}
use xwork.Memory.State.{
  MemoryState, clone_scheduled_job, clone_enqueued_job, clone_processing_job, clone_processed_job,
  clone_failed_job,
}
use xwork.Memory.Paging.{normalize_job_query_limit, paginate_with_more}
use xwork.Memory.Finished.{completed_at_after}

abbrev is_empty : List ℕ → Bool
is_empty [] = true
is_empty (_ ∷ _) = false

abbrev pub with_default_queue : JobType → JobQuery → JobQuery
with_default_queue JobType.enqueued query =
    if query.queue == "" && not query.all_queues
    then record query { queue = default_queue }
    else query
with_default_queue _ query = query

module _ (platform : Platform) where
  unfoldable pub matches_job_query : JobQuery → Uuid → String → String → Bool
  matches_job_query query id name queue =
      let needle = lower_text platform (trim_space platform (codes query.query)) in
      if not (query.queue == "") && not (queue == query.queue)
      then false
      else is_empty needle
        || contains_text (lower_text platform (codes name)) needle
        || contains_text (lower_text platform (codes (platform.uuid_string id))) needle

  -- the `less` functions of `ListJobs`
  abbrev pub scheduled_less : ScheduledJob → ScheduledJob → Bool
  scheduled_less a b =
      if eqb a.enqueue_at b.enqueue_at
      then uuid_less platform a.id b.id
      else ltb b.enqueue_at a.enqueue_at

  abbrev pub enqueued_less : EnqueuedJob → EnqueuedJob → Bool
  enqueued_less a b =
      if eqb a.enqueued_at b.enqueued_at
      then uuid_less platform a.id b.id
      else ltb a.enqueued_at b.enqueued_at

  abbrev pub processing_less : ProcessingJob → ProcessingJob → Bool
  processing_less a b =
      if eqb a.enqueued_at b.enqueued_at
      then uuid_less platform a.id b.id
      else ltb b.enqueued_at a.enqueued_at

  abbrev pub failed_less : FailedJob → FailedJob → Bool
  failed_less a b =
      if eqb a.next_retry_at b.next_retry_at
      then uuid_less platform a.id b.id
      else ltb b.next_retry_at a.next_retry_at

  -- `page, hasMore := paginateWithMore(...)` and `return page, hasMore, nil`
  abbrev pub page_of :
      {J : Type 0} → (List J → Jobs) → Result (List J × Bool) → Result (Jobs × Bool)
  page_of jobs (ok (page, has_more)) = ok (jobs page, has_more)
  page_of jobs (err e) = err e

  -- The `switch`, after the limit and the default queue are settled.
  unfoldable pub list_jobs_of : JobType → JobQuery → ℕ → Action MemoryState (Jobs × Bool)
  list_jobs_of JobType.scheduled query limit s =
      let matching =
        keep (λ job. matches_job_query query job.id job.name job.queue) (values s.scheduled) in
      let jobs = sort_slice scheduled_less (map clone_scheduled_job matching) in
      (page_of Jobs.scheduled (paginate_with_more jobs limit query.offset), s)
  list_jobs_of JobType.enqueued query limit s =
      let matching =
        keep (λ job. matches_job_query query job.id job.name job.queue) (values s.enqueued) in
      let jobs = sort_slice enqueued_less (map clone_enqueued_job matching) in
      (page_of Jobs.enqueued (paginate_with_more jobs limit query.offset), s)
  list_jobs_of JobType.processing query limit s =
      let matching =
        keep (λ job. matches_job_query query job.id job.name job.queue) (values s.processing) in
      let jobs = sort_slice processing_less (map clone_processing_job matching) in
      (page_of Jobs.processing (paginate_with_more jobs limit query.offset), s)
  list_jobs_of JobType.processed query limit s =
      let matching =
        keep (λ job. matches_job_query query job.id job.name job.queue) (values s.processed) in
      let jobs = sort_slice (completed_at_after platform) (map clone_processed_job matching) in
      (page_of Jobs.processed (paginate_with_more jobs limit query.offset), s)
  list_jobs_of JobType.failed query limit s =
      let matching =
        keep (λ job. matches_job_query query job.id job.name job.queue) (values s.failed) in
      let jobs = sort_slice failed_less (map clone_failed_job matching) in
      (page_of Jobs.failed (paginate_with_more jobs limit query.offset), s)
  list_jobs_of (JobType.other raw) query limit s = (err unknown_job_type, s)

  unfoldable pub list_jobs : JobType → JobQuery → Action MemoryState (Jobs × Bool)
  list_jobs job_type query =
      list_jobs_of job_type (with_default_queue job_type query)
        (normalize_job_query_limit query.limit)

unfoldable pub count : JobType → Action MemoryState ℕ
count JobType.scheduled s = (ok (length s.scheduled), s)
count JobType.enqueued s = (ok (length s.enqueued), s)
count JobType.processing s = (ok (length s.processing), s)
count JobType.processed s = (ok (length s.processed), s)
count JobType.failed s = (ok (length s.failed), s)
count (JobType.other raw) s = (err unknown_job_type, s)
