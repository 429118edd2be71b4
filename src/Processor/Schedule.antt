-- ===== src/Processor/Schedule.antt =====
-- A pass of `enqueueReadyScheduledJobs` of process.go over the in-memory adapter.
use xwork.Prelude.{
  ℕ, suc, ◌≤◌, ◌<◌, Option, none, some, List, [], ◌∷◌, ◌≡◌, refl, ◌≢◌, inl, inr, sym, arith, nat_eq,
  if◌then◌else◌, In, subst, ◌∙◌, Bool-cases, Option-cases, leb, ◌↔◌,
}
use xwork.Prelude.Result.{ok}
use xwork.GoMap.{lookup, set, delete}
use xwork.GoMap.Laws.{lookup-delete, lookup-set}
use xwork.Text.{Platform}
use xwork.Job.{Uuid, Time, ScheduledJob}
use xwork.Memory.State.{MemoryState}
use xwork.Memory.Stored.{lookup-Stored}
use xwork.Memory.Unique.{Unique, All-In}
use xwork.Memory.Due.{next_from_scheduled_lem}
use xwork.Memory.Adapter.{memory_adapter}
use xwork.Processor.Moves.{enqueue_scheduled, enqueued_from_scheduled}
use xwork.Processor.Passes.{enqueue_all, enqueue_ready_scheduled_jobs}
use xwork.Processor.Effects.{enqueue_scheduled-new}
use xwork.Processor.Events.{Event, occur, IsExclusive}
use xwork.Processor.Events.Valid.{occur-IsExclusive}

-- the state after a scheduled job is enqueued
abbrev pub enqueued_now : Time → ScheduledJob → MemoryState → MemoryState
enqueued_now now job s = record s {
  scheduled = delete job.id s.scheduled;
  enqueued = set job.id (enqueued_from_scheduled now job) s.enqueued;
}

-- What a pass at `now` leaves of an id, by what was scheduled under it: a job whose time had come is
-- scheduled no more and its id is queued, any other is scheduled as it was.
abbrev pub IsScheduleAfter : Time → Uuid → Option ScheduledJob → MemoryState → Type 0
IsScheduleAfter now id none t = lookup id t.scheduled ≡ none
IsScheduleAfter now id (some job) t =
    if leb job.enqueue_at now
    then (lookup id t.scheduled ≡ none) × (lookup id t.enqueued ≢ none)
    else lookup id t.scheduled ≡ some job

module _ (platform : Platform) where
  enqueue_scheduled_lem :
      (now : Time) (job : ScheduledJob) (s : MemoryState)
      → IsExclusive s
      → lookup job.id s.scheduled ≡ some job
      → enqueue_scheduled (memory_adapter platform) now job s ≡ (ok tt, enqueued_now now job s)
  enqueue_scheduled_lem now job s x held =
      let fit =
        lookup-Stored (λ (j : ScheduledJob). j.id) (λ j. j.payload) job.id job s.scheduled
          x.valid.scheduled held in
      enqueue_scheduled-new platform now s x.valid job fit.1 (ground (arith, x.once job.id, held))

  enqueued_now-IsExclusive :
      (now : Time) (job : ScheduledJob) (s : MemoryState)
      → IsExclusive s
      → lookup job.id s.scheduled ≡ some job
      → IsExclusive (enqueued_now now job s)
  unfolding occur
  enqueued_now-IsExclusive now job s x held =
      subst (λ r. IsExclusive r.1) (enqueue_scheduled_lem now job s x held)
        (occur-IsExclusive platform (Event.enqueues_scheduled now job) s x held)

  -- What a pass over `jobs` that began at `s` has done.
  record Passed (jobs : List ScheduledJob) (s t : MemoryState) : Type 0 where
    gone : (id : Uuid) → lookup id s.scheduled ≡ none → lookup id t.scheduled ≡ none
    still_queued : (id : Uuid) → lookup id s.enqueued ≢ none → lookup id t.enqueued ≢ none
    untouched :
        (id : Uuid)
        → ((job : ScheduledJob) → In job jobs → job.id ≢ id)
        → lookup id t.scheduled ≡ lookup id s.scheduled
    taken : (job : ScheduledJob) → In job jobs → lookup job.id t.scheduled ≡ none
    queued : (job : ScheduledJob) → In job jobs → lookup job.id t.enqueued ≢ none

  enqueued_now-Passed :
      (now : Time) (job : ScheduledJob) (jobs : List ScheduledJob) (s t : MemoryState)
      → Passed jobs (enqueued_now now job s) t
      → Passed (job ∷ jobs) s t
  enqueued_now-Passed now job jobs s t p = record {
    gone = λ id h. p.gone id (ground (arith, h, lookup-delete id job.id s.scheduled));
    still_queued = λ id h.
        p.still_queued id
          (ground (arith, h, lookup-set id job.id (enqueued_from_scheduled now job) s.enqueued));
    untouched = λ id h.
        p.untouched id (λ j i. h j (inr i))
        ∙ ground (arith, h job (inl refl), lookup-delete id job.id s.scheduled);
    taken = λ j i. taken_by j i;
    queued = λ j i. queued_by j i;
  }
    where
      taken_by : (j : ScheduledJob) → In j (job ∷ jobs) → lookup j.id t.scheduled ≡ none
      taken_by j (inl e) = p.gone j.id (ground (arith, e, lookup-delete j.id job.id s.scheduled))
      taken_by j (inr i) = p.taken j i

      queued_by : (j : ScheduledJob) → In j (job ∷ jobs) → lookup j.id t.enqueued ≢ none
      queued_by j (inl e) =
          p.still_queued j.id
            (ground (arith, e, lookup-set j.id job.id (enqueued_from_scheduled now job) s.enqueued))
      queued_by j (inr i) = p.queued j i

  enqueue_all-Passed :
      (clock : ℕ → Time) (n : ℕ) (jobs : List ScheduledJob) (s : MemoryState)
      → IsExclusive s
      → Unique (λ (job : ScheduledJob). job.id) jobs
      → ((job : ScheduledJob) → In job jobs → lookup job.id s.scheduled ≡ some job)
      → (t : MemoryState) × (enqueue_all (memory_adapter platform) clock n jobs s ≡ (ok tt, t))
        × Passed jobs s t
  unfolding enqueue_all
  enqueue_all-Passed clock n [] s x u h = (
    s,
    refl,
    record {
      gone = λ id e. e;
      still_queued = λ id e. e;
      untouched = λ id e. refl;
      taken = λ j i. absurd i;
      queued = λ j i. absurd i;
    },
  )
  enqueue_all-Passed clock n (job ∷ jobs) s x u h =
      let held = h job (inl refl) in
      let (t, done, p) =
        enqueue_all-Passed clock (suc n) jobs (enqueued_now (clock n) job s)
          (enqueued_now-IsExclusive (clock n) job s x held) u.1
          (λ j i. ground (
            arith,
            h j (inr i),
            All-In (λ (k : ScheduledJob). k.id ≢ job.id) jobs u.0 j i,
            lookup-delete j.id job.id s.scheduled,
          )) in
      (
        t,
        ground (arith, enqueue_scheduled_lem (clock n) job s x held, done),
        enqueued_now-Passed (clock n) job jobs s t p,
      )

  pass :
      (now : Time) (clock : ℕ → Time) (s : MemoryState)
      → IsExclusive s
      → (jobs : List ScheduledJob) × (t : MemoryState) × (enqueue_ready_scheduled_jobs
            (memory_adapter platform)
            now
            clock
            s
          ≡ (ok tt, t))
        × Passed jobs s t
        × ((job : ScheduledJob)
            → In job jobs ↔ ((lookup job.id s.scheduled ≡ some job) × (job.enqueue_at ≤ now)))
  unfolding enqueue_ready_scheduled_jobs
  pass now clock s x =
      let (jobs, found, _, members, unique) = next_from_scheduled_lem now s x.valid in
      let (t, done, p) = enqueue_all-Passed clock 0 jobs s x unique (λ j i. ((members j).0 i).0) in
      (jobs, t, ground (arith, found, done), p, members)

  Passed-IsScheduleAfter :
      (now : Time) (s t : MemoryState) (jobs : List ScheduledJob) (id : Uuid)
      → IsExclusive s
      → Passed jobs s t
      → ((job : ScheduledJob)
          → In job jobs ↔ ((lookup job.id s.scheduled ≡ some job) × (job.enqueue_at ≤ now)))
      → IsScheduleAfter now id (lookup id s.scheduled) t
  Passed-IsScheduleAfter now s t jobs id x p members = elim (Option-cases (lookup id s.scheduled)) [
    | inl none_there ↦ rw none_there (p.gone id none_there)
    | inr (job, there) ↦
        let same : job.id ≡ id =
          (lookup-Stored (λ (j : ScheduledJob). j.id) (λ j. j.payload) id job s.scheduled
            x.valid.scheduled there).0 in
        rw there (elim (Bool-cases (leb job.enqueue_at now)) [
          | inl due ↦
              let i : In job jobs = (members job).1 (
                subst (λ k. lookup k s.scheduled ≡ some job) (sym same) there,
                ground (arith, due),
              ) in
              rw due (
                subst (λ k. (lookup k t.scheduled ≡ none) × (lookup k t.enqueued ≢ none)) same
                  (p.taken job i, p.queued job i))
          | inr early ↦ rw early (
              p.untouched id
                (λ j i e. not_due j job there (ground (arith, early)) e ((members j).0 i))
              ∙ there)
        ])
  ]
    where
      not_due :
          (j job : ScheduledJob)
          → lookup id s.scheduled ≡ some job
          → now < job.enqueue_at
          → j.id ≡ id
          → (lookup j.id s.scheduled ≡ some j) × (j.enqueue_at ≤ now)
          → ⊥
      not_due j job there early same (found, due) =
          let moved : lookup id s.scheduled ≡ some j =
            subst (λ k. lookup k s.scheduled ≡ some j) same found in
          let e : j ≡ job = cc in ground (arith, e)

  -- On a store where every id has at most one entry, a pass over the schedule at `now` ends with
  -- success, and does to each id what `IsScheduleAfter` says: where a job is scheduled whose time
  -- has come, it is scheduled no more and the id is queued; any other scheduled job is scheduled
  -- as it was; and no job is added to the schedule.
  pub enqueue_ready_scheduled_jobs_lem :
      (now : Time) (clock : ℕ → Time) (s : MemoryState) (id : Uuid)
      → IsExclusive s
      → let (r, t) = enqueue_ready_scheduled_jobs (memory_adapter platform) now clock s in
        (r ≡ ok tt) × IsScheduleAfter now id (lookup id s.scheduled) t
  enqueue_ready_scheduled_jobs_lem now clock s id x =
      let (jobs, t, done, p, members) = pass now clock s x in
      rw done (refl, Passed-IsScheduleAfter now s t jobs id x p members)
