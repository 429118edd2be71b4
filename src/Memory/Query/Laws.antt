-- ===== src/Memory/Query/Laws.antt =====
-- What `ListJobs` of storage/memory.go answers to a query of the web UI.
use xwork.Prelude.{ℕ, ◌+◌, ◌<◌, ◌^◌, Bool, List, ◌≡◌, refl, arith, nat_eq, length}
use xwork.Prelude.Result.{Result, err, unknown_job_type}
use xwork.Text.{Platform, codes}
use xwork.Job.{
  Uuid, ScheduledJob, EnqueuedJob, ProcessingJob, ProcessedJob, FailedJob, JobType, JobQuery, Jobs,
}
use xwork.Memory.State.{
  MemoryState, clone_scheduled_job, clone_enqueued_job, clone_processing_job, clone_processed_job,
  clone_failed_job,
}
use xwork.Memory.Paging.{normalize_job_query_limit}
use xwork.Memory.Paging.Laws.{normalize_job_query_limit_bounds}
use xwork.Memory.Finished.{completed_at_after}
use xwork.Memory.Query.{
  matches_job_query, page_of, with_default_queue, scheduled_less, enqueued_less, processing_less,
  failed_less, list_jobs_of, list_jobs,
}
use xwork.Memory.Invariant.{
  IsValid, clone_scheduled_job_lem, clone_enqueued_job_lem, clone_processing_job_lem,
  clone_processed_job_lem, clone_failed_job_lem,
}
use xwork.Memory.Query.Matching.{
  IsPage, matching, matching-IsPage, latest_first-IsOrder, earliest_first-IsOrder,
}

-- What `ListJobs` answers, by the type in the query.
abbrev pub IsAnswer :
    Platform → JobType → JobQuery → ℕ → MemoryState → Result (Jobs × Bool) × MemoryState → Type 0
IsAnswer platform JobType.scheduled query limit s r =
    IsPage Jobs.scheduled (scheduled_less platform) (λ job. job.id)
      (λ job. matches_job_query platform query job.id job.name job.queue) s.scheduled limit
      query.offset s r
IsAnswer platform JobType.enqueued query limit s r =
    IsPage Jobs.enqueued (enqueued_less platform) (λ job. job.id)
      (λ job. matches_job_query platform query job.id job.name job.queue) s.enqueued limit
      query.offset s r
IsAnswer platform JobType.processing query limit s r =
    IsPage Jobs.processing (processing_less platform) (λ job. job.id)
      (λ job. matches_job_query platform query job.id job.name job.queue) s.processing limit
      query.offset s r
IsAnswer platform JobType.processed query limit s r =
    IsPage Jobs.processed (completed_at_after platform) (λ job. job.id)
      (λ job. matches_job_query platform query job.id job.name job.queue) s.processed limit
      query.offset s r
IsAnswer platform JobType.failed query limit s r =
    IsPage Jobs.failed (failed_less platform) (λ job. job.id)
      (λ job. matches_job_query platform query job.id job.name job.queue) s.failed limit
      query.offset s r
IsAnswer platform (JobType.other raw) query limit s r = r ≡ (err unknown_job_type, s)

-- No table has 2^63 jobs.
abbrev pub IsSmall : MemoryState → Type 0
IsSmall s =
    (length s.scheduled < 2 ^ 63)
    × (length s.enqueued < 2 ^ 63)
    × (length s.processing < 2 ^ 63)
    × (length s.processed < 2 ^ 63)
    × (length s.failed < 2 ^ 63)

module _ (platform : Platform) (query : JobQuery) (limit : ℕ) (s : MemoryState) (v : IsValid s)
    (small : IsSmall s) (fits : query.offset + limit < 2 ^ 63) where
  text_of_id : Uuid → List ℕ
  text_of_id id = codes (platform.uuid_string id)

  list_jobs_of-IsAnswer :
      (t : JobType) → IsAnswer platform t query limit s (list_jobs_of platform t query limit s)
  unfolding list_jobs_of matching text_of_id
  list_jobs_of-IsAnswer JobType.scheduled =
      matching-IsPage (scheduled_less platform)
        (latest_first-IsOrder (λ (job : ScheduledJob). job.enqueue_at) (λ job. text_of_id job.id))
        (λ job. job.id) (λ job. job.payload) clone_scheduled_job clone_scheduled_job_lem
        (λ job. matches_job_query platform query job.id job.name job.queue) s.scheduled v.scheduled
        Jobs.scheduled (page_of platform Jobs.scheduled) (λ xs more. refl) limit query.offset s
        small.0 fits
  list_jobs_of-IsAnswer JobType.enqueued =
      matching-IsPage (enqueued_less platform)
        (earliest_first-IsOrder (λ (job : EnqueuedJob). job.enqueued_at) (λ job. text_of_id job.id))
        (λ job. job.id) (λ job. job.payload) clone_enqueued_job clone_enqueued_job_lem
        (λ job. matches_job_query platform query job.id job.name job.queue) s.enqueued v.enqueued
        Jobs.enqueued (page_of platform Jobs.enqueued) (λ xs more. refl) limit query.offset s
        small.1 fits
  list_jobs_of-IsAnswer JobType.processing =
      matching-IsPage (processing_less platform)
        (latest_first-IsOrder (λ (job : ProcessingJob). job.enqueued_at) (λ job. text_of_id job.id))
        (λ job. job.id) (λ job. job.payload) clone_processing_job clone_processing_job_lem
        (λ job. matches_job_query platform query job.id job.name job.queue) s.processing
        v.processing Jobs.processing (page_of platform Jobs.processing) (λ xs more. refl) limit
        query.offset s small.2 fits
  list_jobs_of-IsAnswer JobType.processed =
      matching-IsPage (completed_at_after platform)
        (latest_first-IsOrder (λ (job : ProcessedJob). job.completed_at) (λ job. text_of_id job.id))
        (λ job. job.id) (λ job. job.payload) clone_processed_job clone_processed_job_lem
        (λ job. matches_job_query platform query job.id job.name job.queue) s.processed v.processed
        Jobs.processed (page_of platform Jobs.processed) (λ xs more. refl) limit query.offset s
        small.3 fits
  list_jobs_of-IsAnswer JobType.failed =
      matching-IsPage (failed_less platform)
        (latest_first-IsOrder (λ (job : FailedJob). job.next_retry_at) (λ job. text_of_id job.id))
        (λ job. job.id) (λ job. job.payload) clone_failed_job clone_failed_job_lem
        (λ job. matches_job_query platform query job.id job.name job.queue) s.failed v.failed
        Jobs.failed (page_of platform Jobs.failed) (λ xs more. refl) limit query.offset s small.4
        fits
  list_jobs_of-IsAnswer (JobType.other raw) = refl

pub offset_kept :
    (t : JobType) (query : JobQuery) → (with_default_queue t query).offset ≡ query.offset
offset_kept JobType.enqueued query = ground arith
offset_kept JobType.scheduled query = refl
offset_kept JobType.processing query = refl
offset_kept JobType.processed query = refl
offset_kept JobType.failed query = refl
offset_kept (JobType.other raw) query = refl

module _ (platform : Platform) where
  -- On a well-formed store with fewer than 2^63 jobs in each table, and for an offset at least
  -- 100 below 2^63, `ListJobs` changes nothing, and answers as `IsAnswer` says: there is a sorted
  -- list of the jobs of the table that match the query, each stored one that matches and no
  -- other, the answer is the page of it at the offset, of the limit's size brought between 1 and
  -- 100, and has_more tells whether the list goes on behind the page; for an unknown type it is
  -- an error.
  pub list_jobs_lem :
      (t : JobType) (query : JobQuery) (s : MemoryState)
      → IsValid s
      → IsSmall s
      → query.offset + 100 < 2 ^ 63
      → IsAnswer platform t
          (with_default_queue t query)
          (normalize_job_query_limit query.limit)
          s
          (list_jobs platform t query s)
  unfolding list_jobs
  list_jobs_lem t query s v small fits =
      list_jobs_of-IsAnswer platform (with_default_queue t query)
        (normalize_job_query_limit query.limit) s v small
        (omega (arith, normalize_job_query_limit_bounds query.limit, offset_kept t query)) t
