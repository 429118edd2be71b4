-- ===== src/Memory/Queue.antt =====
-- The methods of storage/memory.go on enqueued jobs.
pub mod Oldest
use xwork.Prelude.{
  ℕ, Bool, not, List, [], ◌∷◌, map, Option, none, some, String, ltb, if◌then◌else◌, ◌==◌, keep,
  nat_eq, string_eq,
}
use xwork.Prelude.Result.{Action, ok, err, already_enqueued}
use xwork.Prelude.Sort.{sort_slice}
use xwork.GoMap.{lookup, contains, set, delete, values}
use xwork.Job.{Uuid, Time, EnqueuedJob}
use xwork.Memory.State.{MemoryState, clone_enqueued_job}
use xwork.Memory.Paging.{paginate}

unfoldable pub insert_to_queue : EnqueuedJob → Action MemoryState (Unit {0})
insert_to_queue job s =
    if contains job.id s.enqueued
    then (err already_enqueued, s)
    else (ok tt, record s { enqueued = set job.id (clone_enqueued_job job) s.enqueued })

-- `next == nil || job.EnqueuedAt.Before(next.EnqueuedAt)`, and what is taken then
unfoldable pub older :
    (EnqueuedJob → EnqueuedJob) → Option EnqueuedJob → EnqueuedJob → Option EnqueuedJob
older f none job = some (f job)
older f (some next) job = if ltb job.enqueued_at next.enqueued_at then some (f job) else some next

-- The loop over `s.enqueued` of `GetFromQueue` and `DeleteFromQueue`, from the best job so far;
-- `f` is what the loop does to a job when it takes it.
unfoldable pub oldest :
    (EnqueuedJob → EnqueuedJob)
    → String
    → Option EnqueuedJob
    → List EnqueuedJob
    → Option EnqueuedJob
oldest f queue next [] = next
oldest f queue next (job ∷ jobs) =
    oldest f queue (if job.queue == queue then older f next job else next) jobs

unfoldable pub get_from_queue : String → Action MemoryState (Option EnqueuedJob)
get_from_queue queue s = (ok (oldest clone_enqueued_job queue none (values s.enqueued)), s)

unfoldable pub take_claimed : Option EnqueuedJob → Action MemoryState (Option EnqueuedJob)
take_claimed none s = (ok none, s)
take_claimed (some claimed) s =
    (ok (some (clone_enqueued_job claimed)), record s { enqueued = delete claimed.id s.enqueued })

unfoldable pub delete_from_queue : String → Action MemoryState (Option EnqueuedJob)
delete_from_queue queue s = take_claimed (oldest (λ job. job) queue none (values s.enqueued)) s

abbrev pub enqueued_at_before : EnqueuedJob → EnqueuedJob → Bool
enqueued_at_before a b = ltb a.enqueued_at b.enqueued_at

unfoldable pub list_enqueued : String → ℕ → ℕ → Action MemoryState (List EnqueuedJob)
list_enqueued queue limit offset s =
    let jobs = map clone_enqueued_job (keep (λ job. job.queue == queue) (values s.enqueued)) in
    (paginate (sort_slice enqueued_at_before jobs) limit offset, s)
