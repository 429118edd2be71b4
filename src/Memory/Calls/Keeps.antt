-- ===== src/Memory/Calls/Keeps.antt =====
-- The calls of `*Memory` (storage/memory.go), their transactions, and the invariant of the store.
use xwork.Prelude.{Option, none, some, List, [], ◌∷◌, ◌≡◌, refl, arith, nat_eq, String}
use xwork.Prelude.Result.{Action}
use xwork.GoMap.{Map, set, delete, values, Distinct}
use xwork.GoMap.Laws.{lookup-delete, lookup-set, delete-Distinct, set-Distinct}
use xwork.Payload.{Payload, IsPayload}
use xwork.Job.{Uuid, Time, ScheduledJob, EnqueuedJob, ProcessingJob, ProcessedJob, FailedJob}
use xwork.Memory.State.{
  MemoryState, clone_scheduled_job, clone_enqueued_job, clone_processing_job, clone_processed_job,
  clone_failed_job, transact,
}
use xwork.Memory.Scheduled.{insert_to_scheduled, delete_from_scheduled}
use xwork.Memory.Queue.{insert_to_queue, delete_from_queue, take_claimed, oldest}
use xwork.Memory.Processing.{insert_to_processing, emit_heartbeat, delete_from_processing}
use xwork.Memory.Finished.{insert_to_processed, insert_to_failed, delete_from_failed, claim_failed}
use xwork.Memory.Stored.{Stored, delete-Stored, set-Stored}
use xwork.Memory.Invariant.{
  IsValid, Scheduled, Enqueued, Processing, Processed, Failed, HasHeartbeats, transact_lem,
  clone_scheduled_job_lem, clone_enqueued_job_lem, clone_processing_job_lem,
  clone_processed_job_lem, clone_failed_job_lem,
}
use xwork.Memory.Calls.{Call, perform, IsCall, perform_all, AreCalls, run, AreTransactions}

-- inserting a job with a payload and deleting keep a table as it should be
insert-Stored :
    {V : Type 0} (id : V → Uuid) (payload : V → Payload) (clone : V → V)
    → ((v : V) → IsPayload (payload v) → clone v ≡ v)
    → (v : V) (m : Map Uuid V) → IsPayload (payload v)
    → Stored id payload m
    → Stored id payload (set (id v) (clone v) m)
insert-Stored id payload clone same v m p h =
    rw (same v p) (set-Stored id payload (id v) v m refl p h)

module _ (s : MemoryState) (v : IsValid s) where
  pub insert_to_scheduled-IsValid :
      (job : ScheduledJob) → IsPayload job.payload → IsValid (insert_to_scheduled job s).1
  unfolding insert_to_scheduled
  insert_to_scheduled-IsValid job p =
      let kept : Scheduled (set job.id (clone_scheduled_job job) s.scheduled) =
        insert-Stored (λ j. j.id) (λ j. j.payload) clone_scheduled_job clone_scheduled_job_lem job
          s.scheduled p v.scheduled in
      ground (arith, kept)

  pub insert_to_queue-IsValid :
      (job : EnqueuedJob) → IsPayload job.payload → IsValid (insert_to_queue job s).1
  unfolding insert_to_queue
  insert_to_queue-IsValid job p =
      let kept : Enqueued (set job.id (clone_enqueued_job job) s.enqueued) =
        insert-Stored (λ j. j.id) (λ j. j.payload) clone_enqueued_job clone_enqueued_job_lem job
          s.enqueued p v.enqueued in
      ground (arith, kept)

  -- A new job in processing has its first heartbeat at once.
  pub insert_to_processing-IsValid :
      (job : ProcessingJob) → IsPayload job.payload → IsValid (insert_to_processing job s).1
  unfolding insert_to_processing
  insert_to_processing-IsValid job p =
      let kept : Processing (set job.id (clone_processing_job job) s.processing) =
        insert-Stored (λ j. j.id) (λ j. j.payload) clone_processing_job clone_processing_job_lem job
          s.processing p v.processing in
      let beats : Distinct (set job.id job.started_at s.processing_heartbeat) =
        set-Distinct job.id job.started_at s.processing_heartbeat v.heartbeat in
      let alive : HasHeartbeats (set job.id (clone_processing_job job) s.processing)
          (set job.id job.started_at s.processing_heartbeat) =
        λ id present. ground (
          arith,
          v.alive id,
          lookup-set id job.id (clone_processing_job job) s.processing,
          lookup-set id job.id job.started_at s.processing_heartbeat,
        ) in
      ground (arith, kept, beats, alive)

  pub emit_heartbeat-IsValid :
      (now : Time) (job : ProcessingJob) → IsValid (emit_heartbeat now job s).1
  unfolding emit_heartbeat
  emit_heartbeat-IsValid now job = record {
    scheduled = v.scheduled;
    enqueued = v.enqueued;
    processing = v.processing;
    heartbeat = set-Distinct job.id now s.processing_heartbeat v.heartbeat;
    alive =
        λ id present. ground (arith, v.alive id, lookup-set id job.id now s.processing_heartbeat);
    processed = v.processed;
    failed = v.failed;
  }

  -- Deleting from processing deletes the heartbeat of that job only.
  pub delete_from_processing-IsValid : (id : Uuid) → IsValid (delete_from_processing id s).1
  unfolding delete_from_processing
  delete_from_processing-IsValid id = record {
    scheduled = v.scheduled;
    enqueued = v.enqueued;
    processing = delete-Stored (λ j. j.id) (λ j. j.payload) id s.processing v.processing;
    heartbeat = delete-Distinct id s.processing_heartbeat v.heartbeat;
    alive = λ other present. ground (
      arith,
      v.alive other,
      lookup-delete other id s.processing,
      lookup-delete other id s.processing_heartbeat,
    );
    processed = v.processed;
    failed = v.failed;
  }

  pub insert_to_processed-IsValid :
      (job : ProcessedJob) → IsPayload job.payload → IsValid (insert_to_processed job s).1
  unfolding insert_to_processed
  insert_to_processed-IsValid job p =
      let kept : Processed (set job.id (clone_processed_job job) s.processed) =
        insert-Stored (λ j. j.id) (λ j. j.payload) clone_processed_job clone_processed_job_lem job
          s.processed p v.processed in
      ground (arith, kept)

  pub insert_to_failed-IsValid :
      (job : FailedJob) → IsPayload job.payload → IsValid (insert_to_failed job s).1
  unfolding insert_to_failed
  insert_to_failed-IsValid job p =
      let kept : Failed (set job.id (clone_failed_job job) s.failed) =
        insert-Stored (λ j. j.id) (λ j. j.payload) clone_failed_job clone_failed_job_lem job
          s.failed p v.failed in
      ground (arith, kept)

  pub delete_from_scheduled-IsValid : (id : Uuid) → IsValid (delete_from_scheduled id s).1
  unfolding delete_from_scheduled
  delete_from_scheduled-IsValid id =
      let kept : Scheduled (delete id s.scheduled) =
        delete-Stored (λ j. j.id) (λ j. j.payload) id s.scheduled v.scheduled in
      ground (arith, kept)

  pub delete_from_failed-IsValid : (id : Uuid) → IsValid (delete_from_failed id s).1
  unfolding delete_from_failed
  delete_from_failed-IsValid id =
      let kept : Failed (delete id s.failed) =
        delete-Stored (λ j. j.id) (λ j. j.payload) id s.failed v.failed in
      ground (arith, kept)

  pub claim_failed-IsValid : (id : Uuid) → IsValid (claim_failed id s).1
  unfolding claim_failed
  claim_failed-IsValid id =
      let kept : Failed (delete id s.failed) =
        delete-Stored (λ j. j.id) (λ j. j.payload) id s.failed v.failed in
      ground (arith, kept)

  take_claimed-IsValid : (claimed : Option EnqueuedJob) → IsValid (take_claimed claimed s).1
  unfolding take_claimed
  take_claimed-IsValid none = v
  take_claimed-IsValid (some job) =
      let kept : Enqueued (delete job.id s.enqueued) =
        delete-Stored (λ j. j.id) (λ j. j.payload) job.id s.enqueued v.enqueued in
      ground (arith, kept)

  pub delete_from_queue-IsValid : (queue : String) → IsValid (delete_from_queue queue s).1
  unfolding delete_from_queue
  delete_from_queue-IsValid queue =
      take_claimed-IsValid (oldest (λ job. job) queue none (values s.enqueued))

  -- A transaction keeps the invariant if its function does.
  pub transact-IsValid :
      {A : Type 0} (f : Action MemoryState A) → IsValid (f s).1 → IsValid (transact f s).1
  transact-IsValid f h = rw (transact_lem f s v) (ground (arith, h))

-- Every call keeps the invariant.
pub perform-IsValid : (c : Call) (s : MemoryState) → IsValid s → IsCall c → IsValid (perform c s).1
unfolding perform
perform-IsValid (Call.insert_to_scheduled job) s v p = insert_to_scheduled-IsValid s v job p
perform-IsValid (Call.delete_from_scheduled id) s v p = delete_from_scheduled-IsValid s v id
perform-IsValid (Call.insert_to_queue job) s v p = insert_to_queue-IsValid s v job p
perform-IsValid (Call.delete_from_queue queue) s v p =
    ground (arith, delete_from_queue-IsValid s v queue)
perform-IsValid (Call.insert_to_processing job) s v p = insert_to_processing-IsValid s v job p
perform-IsValid (Call.emit_heartbeat now job) s v p = emit_heartbeat-IsValid s v now job
perform-IsValid (Call.delete_from_processing id) s v p = delete_from_processing-IsValid s v id
perform-IsValid (Call.insert_to_processed job) s v p = insert_to_processed-IsValid s v job p
perform-IsValid (Call.insert_to_failed job) s v p = insert_to_failed-IsValid s v job p
perform-IsValid (Call.delete_from_failed id) s v p = delete_from_failed-IsValid s v id
perform-IsValid (Call.claim_failed id) s v p = ground (arith, claim_failed-IsValid s v id)

perform_all-IsValid :
    (cs : List Call) (s : MemoryState) → IsValid s → AreCalls cs → IsValid (perform_all cs s).1
unfolding perform_all
perform_all-IsValid [] s v p = v
perform_all-IsValid (c ∷ cs) s v p =
    ground (arith, perform-IsValid c s v p.0, perform_all-IsValid cs (perform c s).1)

-- Whatever transactions of the adapter's calls run on a well-formed store, with payloads that are
-- Go maps, the store stays well-formed: no table holds an id twice, each job is stored under its
-- own id, each payload is a Go map, and every job in processing has a heartbeat.
pub run-IsValid :
    (css : List (List Call)) (s : MemoryState)
    → IsValid s
    → AreTransactions css
    → IsValid (run css s)
unfolding run
run-IsValid [] s v p = v
run-IsValid (cs ∷ css) s v p =
    run-IsValid css (transact (perform_all cs) s).1
      (transact-IsValid s v (perform_all cs) (perform_all-IsValid cs s v p.0)) p.1
