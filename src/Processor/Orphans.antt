-- ===== src/Processor/Orphans.antt =====
-- A tick of `checkForOrphanedJobs` of process.go over the in-memory adapter.
pub mod Failing
use xwork.Prelude.{
  ℕ, suc, ◌-◌, ◌*◌, ◌<◌, Bool, true, false, Option, none, some, List, [], ◌∷◌, ◌≡◌, refl, ◌≢◌, inl,
  inr, sym, arith, nat_eq, ◌==◌, if◌then◌else◌, In, subst, ◌∙◌, Bool-cases, Option-cases, leb, ltb,
  ◌↔◌,
}
use xwork.Prelude.Result.{ok, orphan_job}
use xwork.GoMap.{lookup}
use xwork.GoMap.Laws.{lookup-delete, lookup-set}
use xwork.Text.{Platform}
use xwork.Job.{Uuid, Time, ProcessingJob}
use xwork.Memory.State.{MemoryState}
use xwork.Memory.Stored.{lookup-Stored}
use xwork.Memory.Unique.{Unique, All-In}
use xwork.Memory.Due.{get_by_last_heartbeat_before_lem, IsStale}
use xwork.Memory.Adapter.{memory_adapter}
use xwork.Processor.Backoff.{default_max_retry_count, heartbeat_ticker_timeout}
use xwork.Processor.Moves.{fail, error_json, failed_from_processing}
use xwork.Processor.Passes.{fail_all, check_for_orphaned_jobs}
use xwork.Processor.Effects.{fail-new, fail-discard}
use xwork.Processor.Settle.{attempt_failed}
use xwork.Processor.Events.{Event, occur, IsExclusive}
use xwork.Processor.Events.Places.{unfailed}
use xwork.Processor.Events.Valid.{occur-IsExclusive, in_processing-IsPayload}
use xwork.Processor.Orphans.Failing.{Passed, fail_all-Passed}

-- the time that the last heartbeat must have reached
abbrev pub last_heartbeat : Time → Time
last_heartbeat now = now - heartbeat_ticker_timeout * 3

abbrev is_stale : Time → Option Time → Bool
is_stale cutoff none = false
is_stale cutoff (some heartbeat) = ltb heartbeat cutoff

-- A job that may be tried again is failed; any other may be gone.
abbrev IsFailedOrDropped : ProcessingJob → MemoryState → Type 0
IsFailedOrDropped job t =
    if ltb job.retry_count default_max_retry_count then lookup job.id t.failed ≢ none else Unit {0}

-- What a tick at `now` leaves of an id, by the job in processing under it and its heartbeat: a job
-- whose heartbeat is too old is in processing no more, any other is in processing as it was.
abbrev pub IsCheckedAfter : Time → Uuid → Option ProcessingJob → Option Time → MemoryState → Type 0
IsCheckedAfter now id none heartbeat t = lookup id t.processing ≡ none
IsCheckedAfter now id (some job) heartbeat t =
    if is_stale (last_heartbeat now) heartbeat
    then (lookup id t.processing ≡ none) × IsFailedOrDropped job t
    else lookup id t.processing ≡ some job

module _ (platform : Platform) where
  tick :
      (now : Time) (clock : ℕ → Time) (s : MemoryState)
      → IsExclusive s
      → (jobs : List ProcessingJob) × (t : MemoryState) × (check_for_orphaned_jobs
            (memory_adapter platform)
            platform
            now
            clock
            s
          ≡ (true, t))
        × Passed jobs s t
        × ((job : ProcessingJob)
            → In job jobs ↔ (
                (lookup job.id s.processing ≡ some job)
                × IsStale (last_heartbeat now) (lookup job.id s.processing_heartbeat)))
  unfolding check_for_orphaned_jobs
  tick now clock s x =
      let (jobs, found, members, unique) =
        get_by_last_heartbeat_before_lem (last_heartbeat now) s x.valid in
      let (t, done, p) =
        fail_all-Passed platform clock 0 jobs s x unique (λ j i. ((members j).0 i).0) in
      (jobs, t, ground (arith, found, done), p, members)

  IsStale-is_stale :
      (cutoff : Time) (o : Option Time) → IsStale cutoff o ↔ (is_stale cutoff o ≡ true)
  IsStale-is_stale cutoff none = (λ h. absurd h, λ h. cc)
  IsStale-is_stale cutoff (some heartbeat) = (λ h. ground arith, λ h. ground arith)

  failed_or_dropped :
      (jobs : List ProcessingJob) (s t : MemoryState) (job : ProcessingJob)
      → Passed jobs s t
      → In job jobs
      → IsFailedOrDropped job t
  failed_or_dropped jobs s t job p i =
      elim (Bool-cases (ltb job.retry_count default_max_retry_count)) [
        | inl left ↦ rw left (p.failed job i (ground (arith, left)))
        | inr spent ↦ rw spent tt
      ]

  tick-IsCheckedAfter :
      (now : Time) (s t : MemoryState) (jobs : List ProcessingJob) (id : Uuid)
      → IsExclusive s
      → Passed jobs s t
      → ((job : ProcessingJob)
          → In job jobs ↔ (
              (lookup job.id s.processing ≡ some job)
              × IsStale (last_heartbeat now) (lookup job.id s.processing_heartbeat)))
      → IsCheckedAfter now id (lookup id s.processing) (lookup id s.processing_heartbeat) t
  tick-IsCheckedAfter now s t jobs id x p members = elim (Option-cases (lookup id s.processing)) [
    | inl none_there ↦ rw none_there (p.gone id none_there)
    | inr (job, there) ↦
        let same : job.id ≡ id =
          (lookup-Stored (λ (j : ProcessingJob). j.id) (λ j. j.payload) id job s.processing
            x.valid.processing there).0 in
        rw there
          (elim (Bool-cases (is_stale (last_heartbeat now) (lookup id s.processing_heartbeat))) [
            | inl old ↦
                let i : In job jobs = (members job).1 (
                  subst
                    (λ k.
                      (lookup k s.processing ≡ some job)
                      × IsStale (last_heartbeat now) (lookup k s.processing_heartbeat))
                    (sym same) (there, (IsStale-is_stale (last_heartbeat now) _).1 old)) in
                rw old (
                  subst (λ k. lookup k t.processing ≡ none) same (p.taken job i),
                  failed_or_dropped jobs s t job p i,
                )
            | inr young ↦
                rw young (p.untouched id (λ j i e. not_old j e young ((members j).0 i).1) ∙ there)
          ])
  ]
    where
      not_old :
          (j : ProcessingJob)
          → j.id ≡ id
          → is_stale (last_heartbeat now) (lookup id s.processing_heartbeat) ≡ false
          → IsStale (last_heartbeat now) (lookup j.id s.processing_heartbeat)
          → ⊥
      not_old j e young old =
          let stale_id =
            (IsStale-is_stale (last_heartbeat now) (lookup id s.processing_heartbeat)).0
              (subst (λ k. IsStale (last_heartbeat now) (lookup k s.processing_heartbeat)) e old) in
          cc

  -- On a store where every id has at most one entry, the orphan check at `now` goes on after its
  -- tick, and does to each id what `IsCheckedAfter` says: a job in processing whose heartbeat is
  -- older than three heartbeat periods is in processing no more, and is failed if it has retries
  -- left; any other job in processing is there as it was; and no job is added to processing.
  pub check_for_orphaned_jobs_lem :
      (now : Time) (clock : ℕ → Time) (s : MemoryState) (id : Uuid)
      → IsExclusive s
      → let (running, t) = check_for_orphaned_jobs (memory_adapter platform) platform now clock s in
        (running ≡ true)
        × IsCheckedAfter now id (lookup id s.processing) (lookup id s.processing_heartbeat) t
  check_for_orphaned_jobs_lem now clock s id x =
      let (jobs, t, done, p, members) = tick now clock s x in
      rw done (refl, tick-IsCheckedAfter now s t jobs id x p members)
