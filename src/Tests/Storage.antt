-- ===== src/Tests/Storage.antt =====
-- Tests and witnesses of the in-memory adapter (storage/memory.go).
use xwork.Prelude.{
  ℕ, ◌+◌, ◌<◌, ◌≤◌, ◌^◌, true, some, List, [], ◌∷◌, ◌≡◌, ◌↔◌, arith, nat_eq, In, take, drop,
}
use xwork.Prelude.Result.{ok, err, slice_bounds_out_of_range}
use xwork.GoMap.{lookup}
use xwork.Job.{ScheduledJob, ProcessingJob, FailedJob}
use xwork.Memory.State.{transact}
use xwork.Memory.Invariant.{IsValid, IsTransacted, transact-IsTransacted}
use xwork.Memory.Queue.{insert_to_queue, delete_from_queue}
use xwork.Memory.Queue.Oldest.{Claims, delete_from_queue-Claims}
use xwork.Memory.Scheduled.{next_from_scheduled}
use xwork.Memory.Processing.{get_by_last_heartbeat_before}
use xwork.Memory.Finished.{next_from_failed}
use xwork.Memory.Unique.{Unique}
use xwork.Memory.Due.{due_lists, IsStale, IsRising}
use xwork.Memory.Paging.{paginate, paginate_with_more, normalize_job_query_limit}
use xwork.Memory.Paging.Laws.{
  paginate_panics_iff, paginate_with_more_lem, pages_complete, walk,
  normalize_job_query_limit_bounds,
}
use xwork.Memory.Calls.{Call, run}
use xwork.Memory.Calls.Keeps.{run-IsValid}
use xwork.Job.{JobQuery, JobType}
use xwork.Memory.Query.{with_default_queue, list_jobs}
use xwork.Memory.Query.Laws.{IsAnswer, list_jobs_lem}
use xwork.Tests.{ascii, busy, busy-IsValid, mail, resize}

abbrev three : List ℕ
three = 1 ∷ 2 ∷ 3 ∷ []

run-IsValid_example : IsValid (
    run
      ((Call.delete_from_queue "default" ∷ Call.insert_to_processing resize ∷ [])
        ∷ (Call.claim_failed 3 ∷ Call.insert_to_queue mail ∷ [])
        ∷ [])
      busy)
run-IsValid_example =
    run-IsValid
      ((Call.delete_from_queue "default" ∷ Call.insert_to_processing resize ∷ [])
        ∷ (Call.claim_failed 3 ∷ Call.insert_to_queue mail ∷ [])
        ∷ [])
      busy busy-IsValid ((tt, (tt, tt)), ((tt, (tt, tt)), tt))

transact-IsTransacted_example :
    IsTransacted busy (insert_to_queue mail busy) (transact (insert_to_queue mail) busy)
transact-IsTransacted_example = transact-IsTransacted (insert_to_queue mail) busy busy-IsValid

delete_from_queue-Claims_example : Claims "default" busy (delete_from_queue "default" busy)
delete_from_queue-Claims_example = delete_from_queue-Claims "default" busy busy-IsValid

due_lists_example :
    ((jobs : List FailedJob) × (next_from_failed 41 busy ≡ (ok jobs, busy))
      × IsRising (λ (job : FailedJob). job.next_retry_at) jobs
      × ((job : FailedJob)
          → In job jobs ↔ ((lookup job.id busy.failed ≡ some job) × (job.next_retry_at ≤ 41))))
    × ((jobs : List ScheduledJob) × (next_from_scheduled 41 busy ≡ (ok jobs, busy))
        × IsRising (λ (job : ScheduledJob). job.enqueue_at) jobs
        × ((job : ScheduledJob)
            → In job jobs ↔ ((lookup job.id busy.scheduled ≡ some job) × (job.enqueue_at ≤ 41)))
        × Unique (λ (job : ScheduledJob). job.id) jobs)
    × ((jobs : List ProcessingJob) × (get_by_last_heartbeat_before 41 busy ≡ (ok jobs, busy))
        × ((job : ProcessingJob)
            → In job jobs ↔ (
                (lookup job.id busy.processing ≡ some job)
                × IsStale 41 (lookup job.id busy.processing_heartbeat)))
        × Unique (λ (job : ProcessingJob). job.id) jobs)
due_lists_example = due_lists 41 busy busy-IsValid

paginate_panics_iff_example :
    (paginate three (2 ^ 63) 1 ≡ err slice_bounds_out_of_range) ↔ ((1 < 3) × (2 ^ 63 ≤ 1 + 2 ^ 63))
paginate_panics_iff_example =
    paginate_panics_iff three (2 ^ 63) 1 (omega arith) (omega arith) (omega arith)

paginate_with_more_example : paginate_with_more three 2 0 ≡ ok (1 ∷ 2 ∷ [], true)
unfolding take drop
paginate_with_more_example = paginate_with_more_lem three 2 0 (omega arith) (omega arith)

normalize_job_query_limit_bounds_example :
    (1 ≤ normalize_job_query_limit 500) × (normalize_job_query_limit 500 ≤ 100)
normalize_job_query_limit_bounds_example = normalize_job_query_limit_bounds 500

pages_complete_example : walk 4 three (normalize_job_query_limit 2) 0 ≡ some (ok three)
pages_complete_example = pages_complete three 2 (omega arith)

abbrev any_query : JobQuery
any_query = record { query = ""; queue = ""; all_queues = true; limit = 10; offset = 0 }

list_jobs_lem_example :
    IsAnswer ascii JobType.failed
      (with_default_queue JobType.failed any_query)
      (normalize_job_query_limit 10)
      busy
      (list_jobs ascii JobType.failed any_query busy)
list_jobs_lem_example =
    list_jobs_lem ascii JobType.failed any_query busy busy-IsValid
      (omega arith, omega arith, omega arith, omega arith, omega arith) (omega arith)
