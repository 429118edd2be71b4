-- ===== src/Memory/Due.antt =====
-- What the pollers of the processor are given: the jobs that are due, and all of them.
use xwork.Prelude.{
  ◌≤◌, ◌<◌, Option, Option-cases, none, some, List, [], ◌∷◌, ◌≡◌, refl, ◌↔◌, inl, inr, arith,
  nat_eq, keep, In, In-keep, All, Bool, false,
}
use xwork.Prelude.Result.{ok}
use xwork.Prelude.Sort.{sort_slice}
use xwork.Prelude.Sort.Laws.{IsOrder, IsSorted, sort_slice-IsSorted, In-sort_slice}
use xwork.GoMap.{Map, lookup, values, Distinct}
use xwork.Job.{Uuid, Time, ScheduledJob, ProcessingJob, FailedJob}
use xwork.Memory.State.{MemoryState, clone_scheduled_job, clone_failed_job}
use xwork.Memory.Scheduled.{next_from_scheduled, enqueue_at_before, is_ready}
use xwork.Memory.Processing.{stale, get_by_last_heartbeat_before}
use xwork.Memory.Finished.{next_from_failed, next_retry_at_before, is_due}
use xwork.Memory.Unique.{Unique, Unique-keep, Unique-sort_slice, Unique-values, Unique-stale}
use xwork.Memory.Stored.{map-clone-keep, In-values, lookup-Stored}
use xwork.Memory.Invariant.{
  IsValid, Processing, clone_scheduled_job_lem, clone_processing_job_lem, clone_failed_job_lem,
}

enqueue_at_before-IsOrder : IsOrder enqueue_at_before
enqueue_at_before-IsOrder = record {
  asym = λ a b h. ground arith;
  trans_not = λ a b c h k. ground arith;
}

next_retry_at_before-IsOrder : IsOrder next_retry_at_before
next_retry_at_before-IsOrder = record {
  asym = λ a b h. ground arith;
  trans_not = λ a b c h k. ground arith;
}

-- The times of the jobs never go back: the earliest first.
abbrev pub IsRising : {J : Type 0} → (J → Time) → List J → Type 0
IsRising time [] = Unit
IsRising time (job ∷ jobs) = All (λ later. time job ≤ time later) jobs × IsRising time jobs

module _ {J : Type 0} (less : J → J → Bool) (time : J → Time)
    (compares : (a b : J) → less b a ≡ false → time a ≤ time b) where
  All-later : (x : J) (xs : List J) → All (λ y. less y x ≡ false) xs → All (λ y. time x ≤ time y) xs
  All-later x [] h = tt
  All-later x (y ∷ ys) h = (compares x y h.0, All-later x ys h.1)

  IsSorted-IsRising : (xs : List J) → IsSorted less xs → IsRising time xs
  IsSorted-IsRising [] h = tt
  IsSorted-IsRising (x ∷ xs) h = (All-later x xs h.0, IsSorted-IsRising xs h.1)

module _ (now : Time) (s : MemoryState) (v : IsValid s) where
  failed_due : List FailedJob
  failed_due = sort_slice next_retry_at_before (keep (is_due now) (values s.failed))

  In-failed_due :
      (job : FailedJob)
      → In job failed_due ↔ ((lookup job.id s.failed ≡ some job) × (job.next_retry_at ≤ now))
  unfolding failed_due
  In-failed_due job =
      let sorted = In-sort_slice next_retry_at_before job (keep (is_due now) (values s.failed)) in
      let kept = In-keep (is_due now) job (values s.failed) in
      let stored = In-values (λ (j : FailedJob). j.id) (λ j. j.payload) job s.failed v.failed in
      (
        λ h. let k = kept.0 (sorted.0 h) in (stored.0 k.0, ground arith),
        λ h. sorted.1 (kept.1 (stored.1 h.0, ground arith)),
      )

  -- On a well-formed store, `NextFromFailed` changes nothing and returns the failed jobs whose
  -- retry time has come, each of them and no other, the earliest first.
  pub next_from_failed_lem :
      (jobs : List FailedJob) × (next_from_failed now s ≡ (ok jobs, s))
      × IsRising (λ (job : FailedJob). job.next_retry_at) jobs
      × ((job : FailedJob)
          → In job jobs ↔ ((lookup job.id s.failed ≡ some job) × (job.next_retry_at ≤ now)))
  unfolding next_from_failed failed_due
  next_from_failed_lem = (
    failed_due,
    rw (
        map-clone-keep (λ (j : FailedJob). j.id) (λ j. j.payload) clone_failed_job
          clone_failed_job_lem (is_due now) s.failed v.failed),
    IsSorted-IsRising next_retry_at_before (λ j. j.next_retry_at) (λ a b h. ground arith) failed_due
        (sort_slice-IsSorted next_retry_at_before next_retry_at_before-IsOrder _),
    λ job. In-failed_due job,
  )

  scheduled_due : List ScheduledJob
  scheduled_due = sort_slice enqueue_at_before (keep (is_ready now) (values s.scheduled))

  In-scheduled_due :
      (job : ScheduledJob)
      → In job scheduled_due ↔ ((lookup job.id s.scheduled ≡ some job) × (job.enqueue_at ≤ now))
  unfolding scheduled_due
  In-scheduled_due job =
      let sorted = In-sort_slice enqueue_at_before job (keep (is_ready now) (values s.scheduled)) in
      let kept = In-keep (is_ready now) job (values s.scheduled) in
      let stored =
        In-values (λ (j : ScheduledJob). j.id) (λ j. j.payload) job s.scheduled v.scheduled in
      (
        λ h. let k = kept.0 (sorted.0 h) in (stored.0 k.0, ground arith),
        λ h. sorted.1 (kept.1 (stored.1 h.0, ground arith)),
      )

  -- On a well-formed store, `NextFromScheduled` changes nothing and returns the scheduled jobs
  -- whose time has come, each of them once and no other, the earliest first.
  pub next_from_scheduled_lem :
      (jobs : List ScheduledJob) × (next_from_scheduled now s ≡ (ok jobs, s))
      × IsRising (λ (job : ScheduledJob). job.enqueue_at) jobs
      × ((job : ScheduledJob)
          → In job jobs ↔ ((lookup job.id s.scheduled ≡ some job) × (job.enqueue_at ≤ now)))
      × Unique (λ (job : ScheduledJob). job.id) jobs
  unfolding next_from_scheduled scheduled_due
  next_from_scheduled_lem = (
    scheduled_due,
    rw (
        map-clone-keep (λ (j : ScheduledJob). j.id) (λ j. j.payload) clone_scheduled_job
          clone_scheduled_job_lem (is_ready now) s.scheduled v.scheduled),
    IsSorted-IsRising enqueue_at_before (λ j. j.enqueue_at) (λ a b h. ground arith) scheduled_due
        (sort_slice-IsSorted enqueue_at_before enqueue_at_before-IsOrder _),
    λ job. In-scheduled_due job,
    Unique-sort_slice (λ (j : ScheduledJob). j.id) enqueue_at_before _
        (Unique-keep (λ (j : ScheduledJob). j.id) (is_ready now) (values s.scheduled)
          (Unique-values (λ (j : ScheduledJob). j.id) (λ j. j.payload) s.scheduled v.scheduled)),
  )

-- There is a heartbeat, and it is older than `timestamp`.
abbrev pub IsStale : Time → Option Time → Type 0
IsStale timestamp none = ⊥
IsStale timestamp (some heartbeat) = heartbeat < timestamp

-- the loop of `GetByLastHeartbeatBefore`
In-stale :
    (timestamp : Time) (processing : Map Uuid ProcessingJob) (heartbeat : Map Uuid Time)
    → Processing processing
    → Distinct heartbeat
    → (job : ProcessingJob)
    → In job (stale timestamp processing heartbeat)
      ↔ ((lookup job.id processing ≡ some job) × IsStale timestamp (lookup job.id heartbeat))
unfolding stale lookup
In-stale timestamp processing [] d e job = (λ h. absurd h, λ h. absurd h.1)
In-stale timestamp processing ((id, beat) ∷ rest) d e job =
    elim (Option-cases (lookup id processing)) [
      | inl gone ↦ rw gone (
        λ h. ground (arith, In-stale timestamp processing rest d e.1 job),
        λ h. ground (arith, In-stale timestamp processing rest d e.1 job, gone),
      )
      | inr (found, there) ↦
          let fit =
            lookup-Stored (λ (j : ProcessingJob). j.id) (λ j. j.payload) id found processing d
              there in
          rw (there, clone_processing_job_lem found fit.1)
            (
              λ h. ground (arith, In-stale timestamp processing rest d e.1 job, fit.0, there),
              λ h. ground (arith, In-stale timestamp processing rest d e.1 job, fit.0, there),
            )
    ]

-- On a well-formed store, `GetByLastHeartbeatBefore` changes nothing and returns the jobs in
-- processing that have a heartbeat older than `timestamp`, each of them once and no other.
pub get_by_last_heartbeat_before_lem :
    (timestamp : Time) (s : MemoryState)
    → IsValid s
    → (jobs : List ProcessingJob) × (get_by_last_heartbeat_before timestamp s ≡ (ok jobs, s))
      × ((job : ProcessingJob)
          → In job jobs ↔ (
              (lookup job.id s.processing ≡ some job)
              × IsStale timestamp (lookup job.id s.processing_heartbeat)))
      × Unique (λ (job : ProcessingJob). job.id) jobs
unfolding get_by_last_heartbeat_before
get_by_last_heartbeat_before_lem timestamp s v = (
  stale timestamp s.processing s.processing_heartbeat,
  refl,
  In-stale timestamp s.processing s.processing_heartbeat v.processing v.heartbeat,
  Unique-stale timestamp s.processing s.processing_heartbeat v.processing v.heartbeat,
)

-- On a well-formed store, three methods change nothing and return the due jobs: `NextFromFailed`
-- the failed jobs whose retry time has come, each of them and no other, the earliest first;
-- `NextFromScheduled` the scheduled jobs whose time has come, each of them once and no other, the
-- earliest first; `GetByLastHeartbeatBefore` the jobs in processing that have a heartbeat older
-- than the time given, each of them once and no other.
pub due_lists :
    (now : Time) (s : MemoryState)
    → IsValid s
    → ((jobs : List FailedJob) × (next_from_failed now s ≡ (ok jobs, s))
        × IsRising (λ (job : FailedJob). job.next_retry_at) jobs
        × ((job : FailedJob)
            → In job jobs ↔ ((lookup job.id s.failed ≡ some job) × (job.next_retry_at ≤ now))))
      × ((jobs : List ScheduledJob) × (next_from_scheduled now s ≡ (ok jobs, s))
          × IsRising (λ (job : ScheduledJob). job.enqueue_at) jobs
          × ((job : ScheduledJob)
              → In job jobs ↔ ((lookup job.id s.scheduled ≡ some job) × (job.enqueue_at ≤ now)))
          × Unique (λ (job : ScheduledJob). job.id) jobs)
      × ((jobs : List ProcessingJob) × (get_by_last_heartbeat_before now s ≡ (ok jobs, s))
          × ((job : ProcessingJob)
              → In job jobs ↔ (
                  (lookup job.id s.processing ≡ some job)
                  × IsStale now (lookup job.id s.processing_heartbeat)))
          × Unique (λ (job : ProcessingJob). job.id) jobs)
due_lists now s v = (
  next_from_failed_lem now s v,
  next_from_scheduled_lem now s v,
  get_by_last_heartbeat_before_lem now s v,
)
