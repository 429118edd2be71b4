-- ===== src/Processor/Orphans/Failing.antt =====
-- The loop of `checkForOrphanedJobs` of process.go over the orphans of one tick.
use xwork.Prelude.{
  ℕ, suc, ◌<◌, true, none, some, List, [], ◌∷◌, ◌≡◌, refl, ◌≢◌, inl, inr, arith, nat_eq, ◌==◌,
  if◌then◌else◌, In, subst, ◌∙◌, Bool-cases, leb,
}
use xwork.Prelude.Result.{ok, orphan_job}
use xwork.GoMap.{lookup}
use xwork.GoMap.Laws.{lookup-delete, lookup-set}
use xwork.Text.{Platform}
use xwork.Job.{Uuid, Time, ProcessingJob}
use xwork.Memory.State.{MemoryState}
use xwork.Memory.Unique.{Unique, All-In}
use xwork.Memory.Adapter.{memory_adapter}
use xwork.Processor.Backoff.{default_max_retry_count}
use xwork.Processor.Moves.{fail, error_json, failed_from_processing}
use xwork.Processor.Passes.{fail_all}
use xwork.Processor.Effects.{released, failed_once_more, fail-new, fail-discard}
use xwork.Processor.Events.{Event, occur, IsExclusive}
use xwork.Processor.Events.Places.{unfailed}
use xwork.Processor.Events.Valid.{occur-IsExclusive, in_processing-IsPayload}

-- What a tick that found `jobs` at `s` has done.
pub record Passed (jobs : List ProcessingJob) (s t : MemoryState) : Type 0 where
  pub gone : (id : Uuid) → lookup id s.processing ≡ none → lookup id t.processing ≡ none
  pub still_failed : (id : Uuid) → lookup id s.failed ≢ none → lookup id t.failed ≢ none
  pub untouched :
      (id : Uuid)
      → ((job : ProcessingJob) → In job jobs → job.id ≢ id)
      → lookup id t.processing ≡ lookup id s.processing
  pub taken : (job : ProcessingJob) → In job jobs → lookup job.id t.processing ≡ none
  pub failed :
      (job : ProcessingJob)
      → In job jobs
      → job.retry_count < default_max_retry_count
      → lookup job.id t.failed ≢ none

module _ (platform : Platform) where
  abbrev orphaned : Time → ProcessingJob → MemoryState → MemoryState
  orphaned now job s =
      if leb default_max_retry_count job.retry_count
      then released job.id s
      else failed_once_more now (error_json platform orphan_job []) job s

  fail_lem :
      (now : Time) (job : ProcessingJob) (s : MemoryState)
      → IsExclusive s
      → lookup job.id s.processing ≡ some job
      → fail (memory_adapter platform) platform now job orphan_job s ≡ (ok tt, orphaned now job s)
  fail_lem now job s x held = elim (Bool-cases (leb default_max_retry_count job.retry_count)) [
    | inl spent ↦
        rw (spent, fail-discard platform now s x.valid job orphan_job [] (ground (arith, spent)))
          refl
    | inr left ↦
        rw
          (
            left,
            fail-new platform now s x.valid job orphan_job []
                (in_processing-IsPayload platform s x.valid job held) (ground (arith, left))
                (unfailed platform s x job.id job held),
          )
          refl
  ]

  orphaned-IsExclusive :
      (now : Time) (job : ProcessingJob) (s : MemoryState)
      → IsExclusive s
      → lookup job.id s.processing ≡ some job
      → IsExclusive (orphaned now job s)
  unfolding occur
  orphaned-IsExclusive now job s x held =
      subst (λ r. IsExclusive r.1) (fail_lem now job s x held)
        (occur-IsExclusive platform (Event.orphans now job) s x held)

  orphaned-processing :
      (now : Time) (job : ProcessingJob) (s : MemoryState) (id : Uuid)
      → lookup id (orphaned now job s).processing
        ≡ (if job.id == id then none else lookup id s.processing)
  orphaned-processing now job s id = ground (arith, lookup-delete id job.id s.processing)

  orphaned-still_failed :
      (now : Time) (job : ProcessingJob) (s : MemoryState) (id : Uuid)
      → lookup id s.failed ≢ none
      → lookup id (orphaned now job s).failed ≢ none
  orphaned-still_failed now job s id h = ground (
    arith,
    h,
    lookup-set id job.id (failed_from_processing now (error_json platform orphan_job []) job)
        s.failed,
  )

  orphaned-failed :
      (now : Time) (job : ProcessingJob) (s : MemoryState)
      → job.retry_count < default_max_retry_count
      → lookup job.id (orphaned now job s).failed ≢ none
  orphaned-failed now job s left = ground (
    arith,
    left,
    lookup-set job.id job.id (failed_from_processing now (error_json platform orphan_job []) job)
        s.failed,
  )

  orphaned-Passed :
      (now : Time) (job : ProcessingJob) (jobs : List ProcessingJob) (s t : MemoryState)
      → Passed jobs (orphaned now job s) t
      → Passed (job ∷ jobs) s t
  orphaned-Passed now job jobs s t p = record {
    gone = λ id h. p.gone id (ground (arith, h, orphaned-processing now job s id));
    still_failed = λ id h. p.still_failed id (orphaned-still_failed now job s id h);
    untouched = λ id h.
        p.untouched id (λ j i. h j (inr i))
        ∙ ground (arith, h job (inl refl), orphaned-processing now job s id);
    taken = λ j i. taken_by j i;
    failed = λ j i left. failed_by j i left;
  }
    where
      taken_by : (j : ProcessingJob) → In j (job ∷ jobs) → lookup j.id t.processing ≡ none
      taken_by j (inl e) = p.gone j.id (ground (arith, e, orphaned-processing now job s j.id))
      taken_by j (inr i) = p.taken j i

      failed_by :
          (j : ProcessingJob)
          → In j (job ∷ jobs)
          → j.retry_count < default_max_retry_count
          → lookup j.id t.failed ≢ none
      failed_by j (inl e) left = p.still_failed j.id (
          subst
            (λ (k : ProcessingJob).
              k.retry_count < default_max_retry_count
              → lookup k.id (orphaned now job s).failed ≢ none)
            e (orphaned-failed now job s) left)
      failed_by j (inr i) left = p.failed j i left

  pub fail_all-Passed :
      (clock : ℕ → Time) (n : ℕ) (jobs : List ProcessingJob) (s : MemoryState)
      → IsExclusive s
      → Unique (λ (job : ProcessingJob). job.id) jobs
      → ((job : ProcessingJob) → In job jobs → lookup job.id s.processing ≡ some job)
      → (t : MemoryState) × (fail_all (memory_adapter platform) platform clock n jobs s ≡ (true, t))
        × Passed jobs s t
  unfolding fail_all
  fail_all-Passed clock n [] s x u h = (
    s,
    refl,
    record {
      gone = λ id e. e;
      still_failed = λ id e. e;
      untouched = λ id e. refl;
      taken = λ j i. absurd i;
      failed = λ j i. absurd i;
    },
  )
  fail_all-Passed clock n (job ∷ jobs) s x u h =
      let held = h job (inl refl) in
      let (t, done, p) =
        fail_all-Passed clock (suc n) jobs (orphaned (clock n) job s)
          (orphaned-IsExclusive (clock n) job s x held) u.1
          (λ j i. ground (
            arith,
            h j (inr i),
            All-In (λ (k : ProcessingJob). k.id ≢ job.id) jobs u.0 j i,
            orphaned-processing (clock n) job s j.id,
          )) in
      (
        t,
        ground (arith, fail_lem (clock n) job s x held, done),
        orphaned-Passed (clock n) job jobs s t p,
      )
