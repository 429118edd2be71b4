-- ===== src/Memory/Processing.antt =====
-- The methods of storage/memory.go on the jobs in processing and their heartbeats.
use xwork.Prelude.{ℕ, Bool, List, [], ◌∷◌, map, none, some, ltb, if◌then◌else◌, nat_eq}
use xwork.Prelude.Result.{Action, ok, err, duplicate_job}
use xwork.Prelude.Sort.{sort_slice}
use xwork.GoMap.{Map, lookup, contains, set, delete, values}
use xwork.Job.{Uuid, Time, ProcessingJob}
use xwork.Memory.State.{MemoryState, clone_processing_job}
use xwork.Memory.Paging.{paginate}

unfoldable pub insert_to_processing : ProcessingJob → Action MemoryState (Unit {0})
insert_to_processing job s = if contains job.id s.processing then (err duplicate_job, s) else (
  ok tt,
  record s {
    processing = set job.id (clone_processing_job job) s.processing;
    processing_heartbeat = set job.id job.started_at s.processing_heartbeat;
  },
)

unfoldable pub emit_heartbeat : Time → ProcessingJob → Action MemoryState (Unit {0})
emit_heartbeat now job s =
    (ok tt, record s { processing_heartbeat = set job.id now s.processing_heartbeat })

-- The loop of `GetByLastHeartbeatBefore` over `s.processingHeartbeat`.
unfoldable pub stale : Time → Map Uuid ProcessingJob → Map Uuid Time → List ProcessingJob
stale timestamp processing [] = []
stale timestamp processing ((id, heartbeat) ∷ rest) =
    let jobs = stale timestamp processing rest in
    if ltb heartbeat timestamp
    then elim (lookup id processing) [ none ↦ jobs | some job ↦ clone_processing_job job ∷ jobs ]
    else jobs

unfoldable pub get_by_last_heartbeat_before : Time → Action MemoryState (List ProcessingJob)
get_by_last_heartbeat_before timestamp s =
    (ok (stale timestamp s.processing s.processing_heartbeat), s)

unfoldable pub delete_from_processing : Uuid → Action MemoryState (Unit {0})
delete_from_processing id s = (
  ok tt,
  record s {
    processing = delete id s.processing;
    processing_heartbeat = delete id s.processing_heartbeat;
  },
)

abbrev pub enqueued_at_after : ProcessingJob → ProcessingJob → Bool
enqueued_at_after a b = ltb b.enqueued_at a.enqueued_at

unfoldable pub list_processing : ℕ → ℕ → Action MemoryState (List ProcessingJob)
list_processing limit offset s =
    let jobs = map clone_processing_job (values s.processing) in
    (paginate (sort_slice enqueued_at_after jobs) limit offset, s)
