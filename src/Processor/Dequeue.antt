-- ===== src/Processor/Dequeue.antt =====
-- `dequeue` of process.go over the in-memory adapter.
use xwork.Prelude.{
  ◌≤◌, Option, none, some, String, ◌≡◌, refl, ◌≢◌, inl, inr, sym, arith, nat_eq, string_eq,
  Option-cases, subst,
}
use xwork.Prelude.Result.{Result, ok, err, duplicate_job, ◌>>=◌}
use xwork.GoMap.{lookup, set, delete}
use xwork.Payload.{IsPayload}
use xwork.Text.{Platform}
use xwork.Job.{Uuid, Time, EnqueuedJob, ProcessingJob}
use xwork.Memory.State.{MemoryState, commit}
use xwork.Memory.Queue.{delete_from_queue}
use xwork.Memory.Queue.Oldest.{Claims, delete_from_queue-Claims}
use xwork.Memory.Inserts.{insert_to_processing-new, insert_to_processing-taken}
use xwork.Memory.Stored.{lookup-Stored}
use xwork.Memory.Invariant.{IsValid, transact_lem}
use xwork.Memory.Adapter.{memory_adapter}
use xwork.Processor.Moves.{dequeue, start_claimed, processing_from_enqueued}

-- `b` is a job of the queue, and none of the queue is older.
pub record IsOldest (q : String) (s : MemoryState) (b : EnqueuedJob) : Type 0 where
  pub stored : lookup b.id s.enqueued ≡ some b
  pub in_queue : b.queue ≡ q
  pub first :
      (id : Uuid) (job : EnqueuedJob)
      → lookup id s.enqueued ≡ some job
      → job.queue ≡ q
      → b.enqueued_at ≤ job.enqueued_at

-- the state after `b` has gone from the queue to processing, with its first heartbeat
abbrev pub started : Time → EnqueuedJob → MemoryState → MemoryState
started now b s = record s {
  enqueued = delete b.id s.enqueued;
  processing = set b.id (processing_from_enqueued now b) s.processing;
  processing_heartbeat = set b.id now s.processing_heartbeat;
}

-- What one call of `dequeue` has done, by its result.
abbrev pub Dequeues :
    Time → String → MemoryState → Result (Option ProcessingJob) × MemoryState → Type 0
Dequeues now q s (ok none, t) =
    (t ≡ s) × ((id : Uuid) (job : EnqueuedJob) → lookup id s.enqueued ≡ some job → job.queue ≢ q)
Dequeues now q s (ok (some job), t) =
    (b : EnqueuedJob) × IsOldest q s b
    × (lookup b.id s.processing ≡ none)
    × (job ≡ processing_from_enqueued now b)
    × (t ≡ started now b s)
Dequeues now q s (err e, t) =
    (e ≡ duplicate_job)
    × (t ≡ s)
    × ((b : EnqueuedJob) × IsOldest q s b × (lookup b.id s.processing ≢ none))

module _ (platform : Platform) (now : Time) (q : String) (s : MemoryState) (v : IsValid s) where
  start_free :
      (b : EnqueuedJob)
      → IsPayload b.payload
      → lookup b.id s.processing ≡ none
      → commit s (
          start_claimed
            (memory_adapter platform)
            now
            (some b)
            (record s { enqueued = delete b.id s.enqueued }))
        ≡ (ok (some (processing_from_enqueued now b)), started now b s)
  start_free b p free = ground (
    arith,
    insert_to_processing-new (processing_from_enqueued now b)
        (record s { enqueued = delete b.id s.enqueued }) p free,
  )

  start_busy :
      (b : EnqueuedJob)
      → lookup b.id s.processing ≢ none
      → commit s (
          start_claimed
            (memory_adapter platform)
            now
            (some b)
            (record s { enqueued = delete b.id s.enqueued }))
        ≡ (err duplicate_job, s)
  start_busy b busy = ground (
    arith,
    insert_to_processing-taken (processing_from_enqueued now b)
        (record s { enqueued = delete b.id s.enqueued }) busy,
  )

  start_oldest :
      (b : EnqueuedJob)
      → IsOldest q s b
      → IsPayload b.payload
      → Dequeues now q s (
          commit s (
            start_claimed
              (memory_adapter platform)
              now
              (some b)
              (record s { enqueued = delete b.id s.enqueued })))
  start_oldest b o p = elim (Option-cases (lookup b.id s.processing)) [
    | inl free ↦ subst (Dequeues now q s) (sym (start_free b p free)) (b, o, free, refl, refl)
    | inr (held, busy) ↦
        subst (Dequeues now q s) (sym (start_busy b (λ gone. cc))) (refl, refl, (b, o, λ gone. cc))
  ]

  start_any :
      (r : Result (Option EnqueuedJob) × MemoryState)
      → Claims q s r
      → Dequeues now q s (
          commit s (elim r.0 [
            | ok b ↦ start_claimed (memory_adapter platform) now b r.1
            | err e ↦ (err e, r.1)
          ]))
  start_any (ok none, t) c = (c.0, c.1)
  start_any (ok (some b), t) c = rw c.3 (
      start_oldest b (record { stored = c.0; in_queue = c.1; first = c.2 })
        (lookup-Stored (λ (j : EnqueuedJob). j.id) (λ j. j.payload) b.id b s.enqueued v.enqueued
          c.0).1)
  start_any (err e, t) c = absurd c

  -- In a well-formed store, `dequeue` does one of three things. It returns no job, with nothing
  -- changed, and the queue has none; or it moves a job of the queue than which none is older to
  -- processing, with its first heartbeat, and returns that; or it fails with nothing changed, and
  -- the oldest job's id is in processing already.
  pub dequeue-Dequeues : Dequeues now q s (dequeue (memory_adapter platform) now q s)
  unfolding dequeue
  dequeue-Dequeues =
      rw (transact_lem (delete_from_queue q >>= start_claimed (memory_adapter platform) now) s v)
        (start_any (delete_from_queue q s) (delete_from_queue-Claims q s v))
