-- ===== src/Processor/Retry.antt =====
-- `retry` and the pass `enqueueReadyFailedJobs` of process.go over the in-memory adapter.
use xwork.Prelude.{
  leb, ◌↔◌, Option, ℕ, suc, ◌≤◌, true, false, none, some, List, [], ◌∷◌, ◌≡◌, refl, ◌≢◌, ◌⊎◌, inl,
  inr, sym, arith, nat_eq, ◌==◌, if◌then◌else◌, In, Option-cases, Bool-cases, subst, ◌∙◌, ◌<◌,
}
use xwork.Prelude.Result.{ok}
use xwork.GoMap.{lookup, set, delete, contains}
use xwork.GoMap.Laws.{lookup-delete, lookup-set}
use xwork.Text.{Platform}
use xwork.Job.{Uuid, Time, FailedJob}
use xwork.Memory.State.{MemoryState}
use xwork.Memory.Invariant.{IsValid}
use xwork.Memory.Due.{next_from_failed_lem}
use xwork.Memory.Stored.{lookup-Stored}
use xwork.Memory.Adapter.{memory_adapter}
use xwork.Processor.Moves.{retry, enqueued_from_failed}
use xwork.Processor.Passes.{retry_all, enqueue_ready_failed_jobs}
use xwork.Processor.Effects.{retry-new, retry-taken, retry-gone}
use xwork.Processor.Events.Valid.{retry-IsValid}

-- the state after a retry of the job with this id
abbrev pub retried : Time → Uuid → MemoryState → MemoryState
retried now id s = elim (lookup id s.failed) [
  | none ↦ s
  | some stored ↦
      if contains id s.enqueued then record s { failed = delete id s.failed } else record s {
        failed = delete id s.failed;
        enqueued =
            set id
              (record {
                id = stored.id;
                name = stored.name;
                queue = stored.queue;
                payload = stored.payload;
                retry_count = stored.retry_count;
                enqueued_at = now;
                scheduled_at = stored.scheduled_at;
              })
              s.enqueued;
      }
]

-- What a pass at `now` leaves of an id, by what was stored as failed under it: a job whose retry time
-- had come is not failed any more and its id is queued, any other is stored as it was.
abbrev pub IsFailedAfter : Time → Uuid → Option FailedJob → MemoryState → Type 0
IsFailedAfter now id none t = lookup id t.failed ≡ none
IsFailedAfter now id (some job) t =
    if leb job.next_retry_at now
    then (lookup id t.failed ≡ none) × (lookup id t.enqueued ≢ none)
    else lookup id t.failed ≡ some job

module _ (platform : Platform) where
  -- On a well-formed store, `retry` succeeds and gives the state `retried`: where a job is stored
  -- as failed under the id, it is taken away, and put in its queue with its name, payload,
  -- schedule time and retry count unless the id is queued already; where none is, nothing
  -- changes.
  pub retry_lem :
      (now : Time) (job : FailedJob) (s : MemoryState)
      → IsValid s
      → retry (memory_adapter platform) now job s ≡ (ok tt, retried now job.id s)
  retry_lem now job s v = elim (Option-cases (lookup job.id s.failed)) [
    | inl gone ↦ rw (retry-gone platform now s v job gone) (ground (arith, gone))
    | inr (stored, there) ↦ elim (Option-cases (lookup job.id s.enqueued)) [
      | inl free ↦
          rw (retry-new platform now s v job stored there free) (ground (arith, there, free))
      | inr (queued, busy) ↦
          rw (retry-taken platform now s v job stored there (λ gone. cc))
            (ground (arith, there, busy))
    ]
  ]

  -- What a pass over `jobs` that began at `s` has done to one id.
  record Passed (jobs : List FailedJob) (s t : MemoryState) (id : Uuid) : Type 0 where
    untouched :
        ((job : FailedJob) → In job jobs → job.id ≢ id) → lookup id t.failed ≡ lookup id s.failed
    gone : lookup id s.failed ≡ none → lookup id t.failed ≡ none
    still_queued : lookup id s.enqueued ≢ none → lookup id t.enqueued ≢ none
    claimed : (job : FailedJob) → In job jobs → job.id ≡ id → lookup id t.failed ≡ none
    queued :
        (job : FailedJob)
        → In job jobs
        → job.id ≡ id
        → lookup id s.failed ≢ none
        → lookup id t.enqueued ≢ none

  retried-failed :
      (now : Time) (k id : Uuid) (s : MemoryState)
      → lookup id (retried now k s).failed ≡ (if k == id then none else lookup id s.failed)
  retried-failed now k id s = elim (Option-cases (lookup k s.failed)) [
    | inl gone ↦ ground (arith, gone)
    | inr (stored, there) ↦ ground (arith, there, lookup-delete id k s.failed)
  ]

  retried-still_queued :
      (now : Time) (k id : Uuid) (s : MemoryState)
      → lookup id s.enqueued ≢ none
      → lookup id (retried now k s).enqueued ≢ none
  retried-still_queued now k id s h = elim (Option-cases (lookup k s.failed)) [
    | inl gone ↦ ground (arith, gone, h)
    | inr (stored, there) ↦
        ground (arith, there, h, lookup-set id k (enqueued_from_failed now stored) s.enqueued)
  ]

  retried-queued :
      (now : Time) (k : Uuid) (s : MemoryState)
      → lookup k s.failed ≢ none
      → lookup k (retried now k s).enqueued ≢ none
  retried-queued now k s h = elim (Option-cases (lookup k s.failed)) [
    | inl gone ↦ absurd (h gone)
    | inr (stored, there) ↦
        ground (arith, there, lookup-set k k (enqueued_from_failed now stored) s.enqueued)
  ]

  retried-Passed :
      (now : Time) (job : FailedJob) (jobs : List FailedJob) (s t : MemoryState) (id : Uuid)
      → Passed jobs (retried now job.id s) t id
      → Passed (job ∷ jobs) s t id
  retried-Passed now job jobs s t id p = record {
    untouched = λ h.
        p.untouched (λ j i. h j (inr i))
        ∙ retried-failed now job.id id s
        ∙ ground (arith, h job (inl refl));
    gone = λ none_before. p.gone (ground (arith, retried-failed now job.id id s, none_before));
    still_queued = λ h. p.still_queued (retried-still_queued now job.id id s h);
    claimed = λ j i same. claimed_by j i same;
    queued = λ j i same h. queued_by j i same h (Bool-cases (job.id == id));
  }
    where
      claimed_by : (j : FailedJob) → In j (job ∷ jobs) → j.id ≡ id → lookup id t.failed ≡ none
      claimed_by j (inl e) same = p.gone (ground (arith, e, same, retried-failed now job.id id s))
      claimed_by j (inr i) same = p.claimed j i same

      at_once : job.id ≡ id → lookup id s.failed ≢ none → lookup id t.enqueued ≢ none
      at_once same h = p.still_queued (
          subst (λ k. lookup k s.failed ≢ none → lookup k (retried now job.id s).enqueued ≢ none)
            same (retried-queued now job.id s) h)

      queued_by :
          (j : FailedJob)
          → In j (job ∷ jobs)
          → j.id ≡ id
          → lookup id s.failed ≢ none
          → ((job.id == id) ≡ true) ⊎ ((job.id == id) ≡ false)
          → lookup id t.enqueued ≢ none
      queued_by j i same h (inl here) = at_once (ground (arith, here)) h
      queued_by j (inl e) same h (inr elsewhere) = absurd (ground (arith, e, same, elsewhere))
      queued_by j (inr i) same h (inr elsewhere) =
          p.queued j i same (ground (arith, h, elsewhere, retried-failed now job.id id s))

  retry_all-Passed :
      (clock : ℕ → Time) (n : ℕ) (jobs : List FailedJob) (s : MemoryState)
      → IsValid s
      → (t : MemoryState) × (retry_all (memory_adapter platform) clock n jobs s ≡ (ok tt, t))
        × ((id : Uuid) → Passed jobs s t id)
  unfolding retry_all
  retry_all-Passed clock n [] s v = (
    s,
    refl,
    λ id. record {
      untouched = λ h. refl;
      gone = λ h. h;
      still_queued = λ h. h;
      claimed = λ j i e. absurd i;
      queued = λ j i e h. absurd i;
    },
  )
  retry_all-Passed clock n (job ∷ jobs) s v =
      let w : IsValid (retried (clock n) job.id s) =
        subst (λ r. IsValid r.1) (retry_lem (clock n) job s v)
          (retry-IsValid platform s v (clock n) job) in
      let (t, done, p) = retry_all-Passed clock (suc n) jobs (retried (clock n) job.id s) w in
      (
        t,
        ground (arith, retry_lem (clock n) job s v, done),
        λ id. retried-Passed (clock n) job jobs s t id (p id),
      )

  pass :
      (now : Time) (clock : ℕ → Time) (s : MemoryState)
      → IsValid s
      → (jobs : List FailedJob) × (t : MemoryState) × (enqueue_ready_failed_jobs
            (memory_adapter platform)
            now
            clock
            s
          ≡ (ok tt, t))
        × ((id : Uuid) → Passed jobs s t id)
        × ((job : FailedJob)
            → In job jobs ↔ ((lookup job.id s.failed ≡ some job) × (job.next_retry_at ≤ now)))
  unfolding enqueue_ready_failed_jobs
  pass now clock s x =
      let (jobs, found, _, members) = next_from_failed_lem now s x in
      let (t, done, p) = retry_all-Passed clock 0 jobs s x in
      (jobs, t, ground (arith, found, done), p, members)

  Passed-IsFailedAfter :
      (now : Time) (s t : MemoryState) (jobs : List FailedJob) (id : Uuid)
      → IsValid s
      → ((id : Uuid) → Passed jobs s t id)
      → ((job : FailedJob)
          → In job jobs ↔ ((lookup job.id s.failed ≡ some job) × (job.next_retry_at ≤ now)))
      → IsFailedAfter now id (lookup id s.failed) t
  Passed-IsFailedAfter now s t jobs id x p members = elim (Option-cases (lookup id s.failed)) [
    | inl none_there ↦ rw none_there ((p id).gone none_there)
    | inr (job, there) ↦
        let same : job.id ≡ id =
          (lookup-Stored (λ (j : FailedJob). j.id) (λ j. j.payload) id job s.failed x.failed
            there).0 in
        rw there (elim (Bool-cases (leb job.next_retry_at now)) [
          | inl due ↦
              let i : In job jobs =
                (members job).1 (
                  subst (λ k. lookup k s.failed ≡ some job) (sym same) there,
                  ground (arith, due),
                ) in
              rw due ((p id).claimed job i same, (p id).queued job i same (λ gone. cc))
          | inr early ↦ rw early (
              (p id).untouched
                (λ j i e. not_due j job there (ground (arith, early)) e ((members j).0 i))
              ∙ there)
        ])
  ]
    where
      not_due :
          (j job : FailedJob)
          → lookup id s.failed ≡ some job
          → now < job.next_retry_at
          → j.id ≡ id
          → (lookup j.id s.failed ≡ some j) × (j.next_retry_at ≤ now)
          → ⊥
      not_due j job there early same (found, due) =
          let moved : lookup id s.failed ≡ some j =
            subst (λ k. lookup k s.failed ≡ some j) same found in
          let e : j ≡ job = cc in ground (arith, e)

  -- On a well-formed store, a pass over the failed jobs at `now` ends with success, and does to
  -- each id what `IsFailedAfter` says: where a failed job is stored whose retry time has come, it
  -- is failed no more and the id is queued; any other failed job is stored as it was; and no
  -- failed job is added.
  pub enqueue_ready_failed_jobs_lem :
      (now : Time) (clock : ℕ → Time) (s : MemoryState) (id : Uuid)
      → IsValid s
      → let (r, t) = enqueue_ready_failed_jobs (memory_adapter platform) now clock s in
        (r ≡ ok tt) × IsFailedAfter now id (lookup id s.failed) t
  enqueue_ready_failed_jobs_lem now clock s id x =
      let (jobs, t, done, p, members) = pass now clock s x in
      rw done (refl, Passed-IsFailedAfter now s t jobs id x p members)
