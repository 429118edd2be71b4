-- ===== src/Processor/Events/Valid.antt =====
-- The events of the processor and the invariants of the in-memory store.
use xwork.Prelude.{
  ℕ, ◌+◌, ◌≤◌, Option, none, some, List, [], String, ◌≡◌, inl, inr, subst, ap, arith, nat_eq, ltb,
  Option-cases, Bool-cases,
}
use xwork.Prelude.Result.{Result, Action, ok, err, Error, orphan_job, ◌>>=◌, ◌>>◌}
use xwork.GoMap.{lookup, set, delete}
use xwork.Payload.{IsPayload}
use xwork.Text.{Platform}
use xwork.Job.{Uuid, Time, ScheduledJob, EnqueuedJob, ProcessingJob, FailedJob}
use xwork.Memory.State.{MemoryState}
use xwork.Memory.Stored.{lookup-Stored, set-Stored, delete-Stored}
use xwork.Memory.Calls.Keeps
use xwork.Memory.Scheduled.{delete_from_scheduled}
use xwork.Memory.Queue.{insert_to_queue}
use xwork.Memory.Processing.{delete_from_processing}
use xwork.Memory.Finished.{insert_to_processed}
use xwork.Processor.Backoff.{default_max_retry_count}
use xwork.Memory.Invariant.{IsValid, Enqueued, Failed}
use xwork.Memory.Inserts.{insert_to_processing-new}
use xwork.Memory.Adapter.{memory_adapter}
use xwork.Processor.Moves.{
  enqueue, dequeue, complete, fail_with_stack, retry, record_failure, enqueue_scheduled, error_json,
  enqueued_from_scheduled, processing_from_enqueued, enqueued_from_failed, failed_from_processing,
  processed_from_processing,
}
use xwork.Processor.Dequeue.{Dequeues, dequeue-Dequeues, started}
use xwork.Processor.Effects.{retry-new, retry-taken, retry-gone}
use xwork.Processor.Work.{Outcome, returned_nil, returned, panicked, completed, settle}
use xwork.Processor.Events.{places, Event, occur, Enabled, IsExclusive, made, dropped}
use xwork.Processor.Events.Places.{occur-Balance}

bind-IsValid :
    {A B : Type 0} (r : Result A × MemoryState) (f : A → Action MemoryState B) (s : MemoryState)
    → IsValid r.1
    → ((a : A) (t : MemoryState) → IsValid t → IsValid (f a t).1)
    → IsValid (((λ _. r) >>= f) s).1
bind-IsValid (ok a, t) f s h k = k a t h
bind-IsValid (err e, t) f s h k = h

queued-IsValid :
    (t : MemoryState)
    → IsValid t
    → (job : EnqueuedJob) (id : Uuid) → job.id ≡ id
    → IsPayload job.payload
    → IsValid (record t { enqueued = set id job t.enqueued })
queued-IsValid t w job id e p =
    let kept : Enqueued (set id job t.enqueued) =
      set-Stored (λ j. j.id) (λ j. j.payload) id job t.enqueued e p w.enqueued in
    ground (arith, kept)

module _ (platform : Platform) (s : MemoryState) (v : IsValid s) where
  pub in_processing-IsPayload :
      (job : ProcessingJob) → lookup job.id s.processing ≡ some job → IsPayload job.payload
  in_processing-IsPayload job held =
      (lookup-Stored (λ (j : ProcessingJob). j.id) (λ j. j.payload) job.id job s.processing
        v.processing held).1

  complete-IsValid :
      (now : Time) (job : ProcessingJob)
      → IsPayload job.payload
      → IsValid (complete (memory_adapter platform) now job s).1
  unfolding complete
  complete-IsValid now job p =
      Keeps.transact-IsValid s v
        (insert_to_processed (processed_from_processing now job) >> delete_from_processing job.id)
        (bind-IsValid (insert_to_processed (processed_from_processing now job) s)
          (λ _. delete_from_processing job.id) s
          (Keeps.insert_to_processed-IsValid s v (processed_from_processing now job) p)
          (λ a t w. Keeps.delete_from_processing-IsValid t w job.id))

  record_failure-IsValid :
      (now : Time) (error : String) (job : ProcessingJob) (t : MemoryState)
      → IsPayload job.payload
      → IsValid t
      → IsValid (record_failure (memory_adapter platform) now error job t).1
  record_failure-IsValid now error job t p w =
      elim (Bool-cases (ltb default_max_retry_count (job.retry_count + 1))) [
        | inl spent ↦ rw spent w
        | inr left ↦
            rw left (Keeps.insert_to_failed-IsValid t w (failed_from_processing now error job) p)
      ]

  fail-IsValid :
      (now : Time) (job : ProcessingJob) (e : Error) (stack : List ℕ)
      → IsPayload job.payload
      → IsValid (fail_with_stack (memory_adapter platform) platform now job e stack s).1
  unfolding fail_with_stack
  fail-IsValid now job e stack p =
      let error = error_json platform e stack in
      let record_it = record_failure (memory_adapter platform) now error job in
      Keeps.transact-IsValid s v (delete_from_processing job.id >> record_it) (
        bind-IsValid (delete_from_processing job.id s) (λ _. record_it) s
          (Keeps.delete_from_processing-IsValid s v job.id)
          (λ a t w. record_failure-IsValid now error job t p w))

-- after a failed `complete` the job is failed
completed-IsValid :
    (platform : Platform) (now : Time) (job : ProcessingJob)
    → IsPayload job.payload
    → (r : Result (Unit {0}) × MemoryState) → IsValid r.1
    → IsValid (completed (memory_adapter platform) platform now job r)
completed-IsValid platform now job p (ok u, t) w = w
completed-IsValid platform now job p (err e, t) w = fail-IsValid platform t w now job e [] p

module _ (platform : Platform) (s : MemoryState) (v : IsValid s) where
  enqueue-IsValid :
      (checked now : Time) (job : ScheduledJob)
      → IsPayload job.payload
      → IsValid (enqueue (memory_adapter platform) checked now job s).1
  unfolding enqueue
  enqueue-IsValid checked now job p = elim (Bool-cases (ltb job.enqueue_at checked)) [
    | inl at_once ↦
        rw at_once (Keeps.insert_to_queue-IsValid s v (enqueued_from_scheduled now job) p)
    | inr later ↦ rw later (Keeps.insert_to_scheduled-IsValid s v job p)
  ]

  enqueue_scheduled-IsValid :
      (now : Time) (job : ScheduledJob)
      → IsPayload job.payload
      → IsValid (enqueue_scheduled (memory_adapter platform) now job s).1
  unfolding enqueue_scheduled
  enqueue_scheduled-IsValid now job p =
      let push = insert_to_queue (enqueued_from_scheduled now job) in
      Keeps.transact-IsValid s v (delete_from_scheduled job.id >> push) (
        bind-IsValid (delete_from_scheduled job.id s) (λ _. push) s
          (Keeps.delete_from_scheduled-IsValid s v job.id)
          (λ a t w. Keeps.insert_to_queue-IsValid t w (enqueued_from_scheduled now job) p))

  unfailed-IsValid : (id : Uuid) → IsValid (record s { failed = delete id s.failed })
  unfailed-IsValid id =
      let kept : Failed (delete id s.failed) =
        delete-Stored (λ j. j.id) (λ j. j.payload) id s.failed v.failed in
      ground (arith, kept)

  pub retry-IsValid :
      (now : Time) (job : FailedJob) → IsValid (retry (memory_adapter platform) now job s).1
  retry-IsValid now job = elim (Option-cases (lookup job.id s.failed)) [
    | inl gone ↦ rw (retry-gone platform now s v job gone) v
    | inr (stored, there) ↦
        let fit =
          lookup-Stored (λ (j : FailedJob). j.id) (λ j. j.payload) job.id stored s.failed v.failed
            there in
        let claimed = record s { failed = delete job.id s.failed } in
        let w : IsValid claimed = unfailed-IsValid job.id in
        elim (Option-cases (lookup job.id s.enqueued)) [
          | inl free ↦
              rw (retry-new platform now s v job stored there free)
                (queued-IsValid claimed w (enqueued_from_failed now stored) job.id fit.0 fit.1)
          | inr (queued, busy) ↦ rw (retry-taken platform now s v job stored there (λ gone. cc)) w
        ]
  ]

  started-IsValid :
      (now : Time) (b : EnqueuedJob)
      → IsPayload b.payload
      → lookup b.id s.processing ≡ none
      → IsValid (started now b s)
  started-IsValid now b p free =
      let kept : Enqueued (delete b.id s.enqueued) =
        delete-Stored (λ j. j.id) (λ j. j.payload) b.id s.enqueued v.enqueued in
      let taken = record s { enqueued = delete b.id s.enqueued } in
      let w : IsValid taken = ground (arith, kept) in
      subst IsValid
        (ap (λ r. r.1) (insert_to_processing-new (processing_from_enqueued now b) taken p free))
        (Keeps.insert_to_processing-IsValid taken w (processing_from_enqueued now b) p)

  dequeued-IsValid :
      (now : Time) (q : String) (r : Result (Option ProcessingJob) × MemoryState)
      → Dequeues now q s r
      → IsValid r.1
  dequeued-IsValid now q (ok none, t) (same, _) = rw same v
  dequeued-IsValid now q (ok (some job), t) (b, o, free, _, same) = rw same (
      started-IsValid now b
        (lookup-Stored (λ (j : EnqueuedJob). j.id) (λ j. j.payload) b.id b s.enqueued v.enqueued
          o.stored).1
        free)
  dequeued-IsValid now q (err e, t) (_, same, _) = rw same v

  settle-IsValid :
      (done now : Time) (job : ProcessingJob) (outcome : Outcome)
      → IsPayload job.payload
      → IsValid (settle (memory_adapter platform) platform done now job outcome s)
  unfolding settle
  settle-IsValid done now job returned_nil p =
      completed-IsValid platform now job p (complete (memory_adapter platform) done job s)
        (complete-IsValid platform s v done job p)
  settle-IsValid done now job (returned e) p = fail-IsValid platform s v now job e [] p
  settle-IsValid done now job (panicked text stack) p = fail-IsValid platform s v now job _ stack p

  -- Every event keeps the invariant of the in-memory store.
  pub occur-IsValid : (e : Event) → Enabled platform e s → IsValid (occur platform e s)
  unfolding occur
  occur-IsValid (Event.enqueues checked now job) h = enqueue-IsValid checked now job h.1
  occur-IsValid (Event.enqueues_scheduled now job) h =
      enqueue_scheduled-IsValid now job
        (lookup-Stored (λ (j : ScheduledJob). j.id) (λ j. j.payload) job.id job s.scheduled
          v.scheduled h).1
  occur-IsValid (Event.retries now job) h = retry-IsValid now job
  occur-IsValid (Event.dequeues now queue) h =
      dequeued-IsValid now queue (dequeue (memory_adapter platform) now queue s)
        (dequeue-Dequeues platform now queue s v)
  occur-IsValid (Event.settles done now job outcome) h =
      settle-IsValid done now job outcome (in_processing-IsPayload platform s v job h)
  occur-IsValid (Event.orphans now job) h =
      fail-IsValid platform s v now job orphan_job [] (in_processing-IsPayload platform s v job h)
  occur-IsValid (Event.beats now job) h = Keeps.emit_heartbeat-IsValid s v now job

module _ (platform : Platform) where
  -- An event leaves every id in one place at most, if it was so before and a new job's id is new.
  pub occur-IsExclusive :
      (e : Event) (s : MemoryState)
      → IsExclusive s
      → Enabled platform e s
      → IsExclusive (occur platform e s)
  occur-IsExclusive e s x h = record {
    valid = occur-IsValid platform s x.valid e h;
    once = λ id. once_after e id h (occur-Balance platform s x id e h);
  }
    where
      once_after :
          (e : Event) (id : Uuid)
          → Enabled platform e s
          → places id (occur platform e s) + dropped e id ≡ places id s + made e id
          → places id (occur platform e s) ≤ 1
      once_after (Event.enqueues checked now job) id h b = ground (arith, x.once id, h, b)
      once_after (Event.enqueues_scheduled now job) id h b = ground (arith, x.once id, b)
      once_after (Event.retries now job) id h b = ground (arith, x.once id, b)
      once_after (Event.dequeues now queue) id h b = ground (arith, x.once id, b)
      once_after (Event.settles done now job outcome) id h b = ground (arith, x.once id, b)
      once_after (Event.orphans now job) id h b = ground (arith, x.once id, b)
      once_after (Event.beats now job) id h b = ground (arith, x.once id, b)
