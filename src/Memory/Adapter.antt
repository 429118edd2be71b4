-- ===== src/Memory/Adapter.antt =====
-- `*Memory` as a `StorageAdapter`: it has `ListJobs`, `GetFailed` and `ClaimFailed`, and no
-- `Initialize`.
use xwork.Prelude.{none, some}
use xwork.Text.{Platform}
use xwork.Storage.{StorageAdapter}
use xwork.Memory.State.{MemoryState, transact}
use xwork.Memory.Scheduled.{
  insert_to_scheduled, next_from_scheduled, delete_from_scheduled, list_scheduled,
}
use xwork.Memory.Queue.{insert_to_queue, get_from_queue, delete_from_queue, list_enqueued}
use xwork.Memory.Processing.{
  insert_to_processing, emit_heartbeat, get_by_last_heartbeat_before, delete_from_processing,
  list_processing,
}
use xwork.Memory.Finished.{
  insert_to_processed, list_processed, insert_to_failed, next_from_failed, delete_from_failed,
  get_failed, claim_failed, list_failed,
}
use xwork.Memory.Query.{list_jobs, count}

-- `abbrev`, so that its fields compute where a client is used with it.
abbrev pub memory_adapter : Platform → StorageAdapter
memory_adapter platform = record {
  Store = MemoryState;
  transact = transact;
  insert_to_scheduled = insert_to_scheduled;
  next_from_scheduled = next_from_scheduled;
  delete_from_scheduled = delete_from_scheduled;
  list_scheduled = list_scheduled;
  insert_to_queue = insert_to_queue;
  get_from_queue = get_from_queue;
  delete_from_queue = delete_from_queue;
  list_enqueued = list_enqueued;
  insert_to_processing = insert_to_processing;
  emit_heartbeat = emit_heartbeat;
  get_by_last_heartbeat_before = get_by_last_heartbeat_before;
  delete_from_processing = delete_from_processing;
  list_processing = list_processing;
  insert_to_processed = insert_to_processed;
  list_processed = list_processed platform;
  insert_to_failed = insert_to_failed;
  next_from_failed = next_from_failed;
  delete_from_failed = delete_from_failed;
  list_failed = list_failed;
  count = count;
  list_jobs? = some (list_jobs platform);
  get_failed? = some get_failed;
  claim_failed? = some claim_failed;
  initialize? = none;
}
