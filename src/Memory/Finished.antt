-- ===== src/Memory/Finished.antt =====
-- The methods of storage/memory.go on processed and failed jobs.
use xwork.Prelude.{
  ℕ, Bool, not, List, map, Option, none, some, ltb, eqb, if◌then◌else◌, keep, nat_eq,
}
use mathlib.Core.Option as Opt
use xwork.Prelude.Result.{Action, ok, err, duplicate_job}
use xwork.Prelude.Sort.{sort_slice}
use xwork.GoMap.{lookup, contains, set, delete, values}
use xwork.Text.{Platform, uuid_less}
use xwork.Job.{Uuid, Time, ProcessedJob, FailedJob}
use xwork.Memory.State.{MemoryState, clone_processed_job, clone_failed_job}
use xwork.Memory.Paging.{paginate}

unfoldable pub insert_to_processed : ProcessedJob → Action MemoryState (Unit {0})
insert_to_processed job s =
    if contains job.id s.processed
    then (err duplicate_job, s)
    else (ok tt, record s { processed = set job.id (clone_processed_job job) s.processed })

-- the `less` of `ListProcessed`: later first, equal times by id
abbrev pub completed_at_after : Platform → ProcessedJob → ProcessedJob → Bool
completed_at_after platform a b =
    if eqb a.completed_at b.completed_at
    then uuid_less platform a.id b.id
    else ltb b.completed_at a.completed_at

unfoldable pub list_processed : Platform → ℕ → ℕ → Action MemoryState (List ProcessedJob)
list_processed platform limit offset s =
    let jobs = map clone_processed_job (values s.processed) in
    (paginate (sort_slice (completed_at_after platform) jobs) limit offset, s)

unfoldable pub insert_to_failed : FailedJob → Action MemoryState (Unit {0})
insert_to_failed job s =
    if contains job.id s.failed
    then (err duplicate_job, s)
    else (ok tt, record s { failed = set job.id (clone_failed_job job) s.failed })

abbrev pub next_retry_at_before : FailedJob → FailedJob → Bool
next_retry_at_before a b = ltb a.next_retry_at b.next_retry_at

abbrev pub next_retry_at_after : FailedJob → FailedJob → Bool
next_retry_at_after a b = ltb b.next_retry_at a.next_retry_at

-- `!job.NextRetryAt.After(now)`
abbrev pub is_due : Time → FailedJob → Bool
is_due now job = not (ltb now job.next_retry_at)

unfoldable pub next_from_failed : Time → Action MemoryState (List FailedJob)
next_from_failed now s =
    let jobs = map clone_failed_job (keep (is_due now) (values s.failed)) in
    (ok (sort_slice next_retry_at_before jobs), s)

unfoldable pub delete_from_failed : Uuid → Action MemoryState (Unit {0})
delete_from_failed id s = (ok tt, record s { failed = delete id s.failed })

unfoldable pub get_failed : Uuid → Action MemoryState (Option FailedJob)
get_failed id s = (ok (Opt.map clone_failed_job (lookup id s.failed)), s)

unfoldable pub claim_failed : Uuid → Action MemoryState (Option FailedJob)
claim_failed id s = elim (lookup id s.failed) [
  | none ↦ (ok none, s)
  | some stored ↦ (ok (some (clone_failed_job stored)), record s { failed = delete id s.failed })
]

unfoldable pub list_failed : ℕ → ℕ → Action MemoryState (List FailedJob)
list_failed limit offset s =
    let jobs = map clone_failed_job (values s.failed) in
    (paginate (sort_slice next_retry_at_after jobs) limit offset, s)
