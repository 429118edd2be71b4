-- ===== src/Memory/Queue/Oldest.antt =====
-- Which job `DeleteFromQueue` of storage/memory.go takes.
use xwork.Prelude.{
  ◌≤◌, true, Option, none, some, List, [], ◌∷◌, ◌≡◌, refl, ◌≢◌, ◌⊎◌, inl, inr, subst, arith, nat_eq,
  string_eq, ◌==◌, if◌then◌else◌, String, Bool-cases,
}
use text.Mathlib.TextEquality.{eq_iff}
use xwork.Prelude.Result.{Result, ok, err}
use xwork.GoMap.{Map, lookup, delete, values}
use xwork.Job.{Uuid, Time, EnqueuedJob}
use xwork.Memory.State.{MemoryState}
use xwork.Memory.Queue.{older, oldest, take_claimed, delete_from_queue}
use xwork.Memory.Stored.{lookup-Stored}
use xwork.Memory.Invariant.{IsValid, Enqueued, clone_enqueued_job_lem}

-- There is a job, and it was enqueued at `t` or before.
abbrev NotLater : Option EnqueuedJob → Time → Type 0
NotLater none t = ⊥
NotLater (some job) t = job.enqueued_at ≤ t

abbrev plain : EnqueuedJob → EnqueuedJob
plain job = job

oldest-NotLater :
    (q : String) (t : Time) (best : Option EnqueuedJob) (jobs : List EnqueuedJob)
    → NotLater best t
    → NotLater (oldest plain q best jobs) t
unfolding oldest older
oldest-NotLater q t best [] h = h
oldest-NotLater q t none (job ∷ jobs) h = absurd h
oldest-NotLater q t (some b) (job ∷ jobs) h =
    oldest-NotLater q t (if job.queue == q then older plain (some b) job else some b) jobs
      (ground arith)

older-NotLater :
    (q : String) (best : Option EnqueuedJob) (v job : EnqueuedJob)
    → v ≡ job
    → (job.queue == q) ≡ true
    → NotLater (if v.queue == q then older plain best v else best) job.enqueued_at
unfolding older
older-NotLater q none v job e h = rw (e, h) (omega arith)
older-NotLater q (some b) v job e h = rw (e, h) (ground arith)

-- No job of the queue is older than the one found.
oldest-le :
    (q : String) (best : Option EnqueuedJob) (m : Map Uuid EnqueuedJob) (k : Uuid)
    (job : EnqueuedJob)
    → lookup k m ≡ some job
    → (job.queue == q) ≡ true
    → NotLater (oldest plain q best (values m)) job.enqueued_at
unfolding oldest older lookup
oldest-le q best [] k job e h = cc
oldest-le q best ((j, v) ∷ m) k job e h = elim (Bool-cases (j == k)) [
  | inl hit ↦
      oldest-NotLater q job.enqueued_at (if v.queue == q then older plain best v else best)
        (values m) (older-NotLater q best v job (ground (arith, hit)) h)
  | inr miss ↦
      oldest-le q (if v.queue == q then older plain best v else best) m k job (ground (arith, miss))
        h
]

older-Stored :
    (q : String) (best : Option EnqueuedJob) (k : Uuid) (v : EnqueuedJob) (m : Map Uuid EnqueuedJob)
    (b : EnqueuedJob)
    → Enqueued ((k, v) ∷ m)
    → (if v.queue == q then older plain best v else best) ≡ some b
    → (best ≡ some b) ⊎ (((b.queue == q) ≡ true) × (lookup b.id ((k, v) ∷ m) ≡ some b))
unfolding older lookup
older-Stored q none k v m b d e = ground arith
older-Stored q (some c) k v m b d e = ground arith

-- What is found is the job before the loop, or a job of the queue that is stored.
oldest-Stored :
    (q : String) (best : Option EnqueuedJob) (m : Map Uuid EnqueuedJob) (b : EnqueuedJob)
    → Enqueued m
    → oldest plain q best (values m) ≡ some b
    → (best ≡ some b) ⊎ (((b.queue == q) ≡ true) × (lookup b.id m ≡ some b))
unfolding oldest older lookup
oldest-Stored q best [] b d e = inl e
oldest-Stored q best ((k, v) ∷ m) b d e =
    elim (oldest-Stored q (if v.queue == q then older plain best v else best) m b d.3 e) [
      | inl now ↦ older-Stored q best k v m b d now
      | inr (h, found) ↦ inr (h, ground (arith, found))
    ]

-- What one call of `DeleteFromQueue` on `s` has done, by its result: nothing, if the queue has no
-- job; or it took a job of that queue which is stored and than which none of the queue is older.
abbrev pub Claims : String → MemoryState → Result (Option EnqueuedJob) × MemoryState → Type 0
Claims q s (ok none, t) =
    (t ≡ s) × ((id : Uuid) (job : EnqueuedJob) → lookup id s.enqueued ≡ some job → job.queue ≢ q)
Claims q s (ok (some b), t) =
    (lookup b.id s.enqueued ≡ some b)
    × (b.queue ≡ q)
    × ((id : Uuid) (job : EnqueuedJob)
        → lookup id s.enqueued ≡ some job
        → job.queue ≡ q
        → b.enqueued_at ≤ job.enqueued_at)
    × (t ≡ record s { enqueued = delete b.id s.enqueued })
Claims q s (err e, t) = ⊥

claimed_oldest :
    (q : String) (s : MemoryState) (r : Option EnqueuedJob)
    → IsValid s
    → oldest plain q none (values s.enqueued) ≡ r
    → Claims q s (take_claimed r s)
unfolding take_claimed
claimed_oldest q s none v e = (refl, λ id job found h. none_left id job found h)
  where
    none_left : (id : Uuid) (job : EnqueuedJob) → lookup id s.enqueued ≡ some job → job.queue ≢ q
    none_left id job found h =
        subst (λ o. NotLater o job.enqueued_at) e
          (oldest-le q none s.enqueued id job found ((eq_iff job.queue q).1 h))
claimed_oldest q s (some b) v e = elim (oldest-Stored q none s.enqueued b v.enqueued e) [
  | inl h ↦ absurd (cc)
  | inr (h, found) ↦
      let fit =
        lookup-Stored (λ (j : EnqueuedJob). j.id) (λ j. j.payload) b.id b s.enqueued v.enqueued
          found in
      rw (clone_enqueued_job_lem b fit.1) (found, (eq_iff b.queue q).0 h, older_than_all, refl)
]
  where
    older_than_all :
        (id : Uuid) (job : EnqueuedJob)
        → lookup id s.enqueued ≡ some job
        → job.queue ≡ q
        → b.enqueued_at ≤ job.enqueued_at
    older_than_all id job there h =
        subst (λ o. NotLater o job.enqueued_at) e
          (oldest-le q none s.enqueued id job there ((eq_iff job.queue q).1 h))

-- On a well-formed store, `DeleteFromQueue` either changes nothing and the queue has no job, or it
-- returns a stored job of that queue than which no job of the queue is older, and takes that one
-- from the queue and changes nothing else.
pub delete_from_queue-Claims :
    (q : String) (s : MemoryState) → IsValid s → Claims q s (delete_from_queue q s)
unfolding delete_from_queue
delete_from_queue-Claims q s v = claimed_oldest q s (oldest plain q none (values s.enqueued)) v refl
