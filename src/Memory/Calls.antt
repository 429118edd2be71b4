-- ===== src/Memory/Calls.antt =====
-- The calls of `*Memory` that change its state, one by one and in transactions.
pub mod Keeps
use xwork.Prelude.{Option, String, List, [], ◌∷◌}
use xwork.Prelude.Result.{Action, Result, ok, err, pure, ◌>>=◌, ◌>>◌}
use xwork.Payload.{IsPayload}
use xwork.Job.{Uuid, Time, ScheduledJob, EnqueuedJob, ProcessingJob, ProcessedJob, FailedJob}
use xwork.Memory.State.{MemoryState, transact}
use xwork.Memory.Scheduled
use xwork.Memory.Queue
use xwork.Memory.Processing
use xwork.Memory.Finished

pub data Call : Type 0 where
  insert_to_scheduled : ScheduledJob → Call
  delete_from_scheduled : Uuid → Call
  insert_to_queue : EnqueuedJob → Call
  delete_from_queue : String → Call
  insert_to_processing : ProcessingJob → Call
  emit_heartbeat : Time → ProcessingJob → Call
  delete_from_processing : Uuid → Call
  insert_to_processed : ProcessedJob → Call
  insert_to_failed : FailedJob → Call
  delete_from_failed : Uuid → Call
  claim_failed : Uuid → Call

abbrev discard : {A : Type 0} → Action MemoryState A → Action MemoryState (Unit {0})
discard m = m >> pure tt

pub perform : Call → Action MemoryState (Unit {0})
perform (insert_to_scheduled job) = Scheduled.insert_to_scheduled job
perform (delete_from_scheduled id) = Scheduled.delete_from_scheduled id
perform (insert_to_queue job) = Queue.insert_to_queue job
perform (delete_from_queue queue) = discard (Queue.delete_from_queue queue)
perform (insert_to_processing job) = Processing.insert_to_processing job
perform (emit_heartbeat now job) = Processing.emit_heartbeat now job
perform (delete_from_processing id) = Processing.delete_from_processing id
perform (insert_to_processed job) = Finished.insert_to_processed job
perform (insert_to_failed job) = Finished.insert_to_failed job
perform (delete_from_failed id) = Finished.delete_from_failed id
perform (claim_failed id) = discard (Finished.claim_failed id)

-- The payload that a call brings in is a Go map.
abbrev pub IsCall : Call → Type 0
IsCall (insert_to_scheduled job) = IsPayload job.payload
IsCall (insert_to_queue job) = IsPayload job.payload
IsCall (insert_to_processing job) = IsPayload job.payload
IsCall (insert_to_processed job) = IsPayload job.payload
IsCall (insert_to_failed job) = IsPayload job.payload
IsCall _ = Unit {0}

-- The function of a transaction: its calls in order, up to the first that fails.
pub perform_all : List Call → Action MemoryState (Unit {0})
perform_all [] = pure tt
perform_all (c ∷ cs) = perform c >> perform_all cs

abbrev pub AreCalls : List Call → Type 0
AreCalls [] = Unit {0}
AreCalls (c ∷ cs) = IsCall c × AreCalls cs

-- A history: transactions of one call or more, one after the other.
pub run : List (List Call) → MemoryState → MemoryState
unfolding perform_all
run [] s = s
run (cs ∷ css) s = run css (transact (perform_all cs) s).1

abbrev pub AreTransactions : List (List Call) → Type 0
AreTransactions [] = Unit {0}
AreTransactions (cs ∷ css) = AreCalls cs × AreTransactions css
