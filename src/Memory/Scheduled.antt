-- ===== src/Memory/Scheduled.antt =====
-- The methods of storage/memory.go on scheduled jobs.
use xwork.Prelude.{ℕ, Bool, not, List, map, ltb, if◌then◌else◌, keep, nat_eq}
use xwork.Prelude.Result.{Action, ok, err, duplicate_job}
use xwork.Prelude.Sort.{sort_slice}
use xwork.GoMap.{contains, set, delete, values}
use xwork.Job.{Uuid, Time, ScheduledJob}
use xwork.Memory.State.{MemoryState, clone_scheduled_job}
use xwork.Memory.Paging.{paginate}

unfoldable pub insert_to_scheduled : ScheduledJob → Action MemoryState (Unit {0})
insert_to_scheduled job s =
    if contains job.id s.scheduled
    then (err duplicate_job, s)
    else (ok tt, record s { scheduled = set job.id (clone_scheduled_job job) s.scheduled })

-- `jobs[i].EnqueueAt.Before(jobs[j].EnqueueAt)`
abbrev pub enqueue_at_before : ScheduledJob → ScheduledJob → Bool
enqueue_at_before a b = ltb a.enqueue_at b.enqueue_at

abbrev pub enqueue_at_after : ScheduledJob → ScheduledJob → Bool
enqueue_at_after a b = ltb b.enqueue_at a.enqueue_at

-- `!job.EnqueueAt.After(now)`
abbrev pub is_ready : Time → ScheduledJob → Bool
is_ready now job = not (ltb now job.enqueue_at)

unfoldable pub next_from_scheduled : Time → Action MemoryState (List ScheduledJob)
next_from_scheduled now s =
    let jobs = map clone_scheduled_job (keep (is_ready now) (values s.scheduled)) in
    (ok (sort_slice enqueue_at_before jobs), s)

unfoldable pub delete_from_scheduled : Uuid → Action MemoryState (Unit {0})
delete_from_scheduled id s = (ok tt, record s { scheduled = delete id s.scheduled })

unfoldable pub list_scheduled : ℕ → ℕ → Action MemoryState (List ScheduledJob)
list_scheduled limit offset s =
    let jobs = map clone_scheduled_job (values s.scheduled) in
    (paginate (sort_slice enqueue_at_after jobs) limit offset, s)
