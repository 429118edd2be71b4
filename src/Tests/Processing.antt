-- ===== src/Tests/Processing.antt =====
-- Tests and witnesses of the processor (process.go) on the in-memory adapter.
use xwork.Prelude.{
  true, ◌+◌, ◌<◌, ◌≤◌, ◌*◌, ◌^◌, none, some, List, [], ◌∷◌, ◌++◌, ◌≡◌, refl, arith, nat_eq,
  string_eq,
}
use xwork.Prelude.Result.{ok, err, already_enqueued, external, error_text, nil_dereference}
use xwork.Payload.{clone_payload}
use xwork.Memory.Scheduled.{insert_to_scheduled, delete_from_scheduled}
use xwork.Memory.Queue.{insert_to_queue, delete_from_queue, take_claimed, oldest, older}
use xwork.GoMap.{set, delete, rebuild, lookup}
use xwork.Job.{ScheduledJob, ProcessingJob}
use xwork.Memory.State.{
  clone_scheduled_job, clone_enqueued_job, clone_processing_job, clone_state, transact, MemoryState,
  new_memory_state,
}
use xwork.Memory.Adapter.{memory_adapter}
use xwork.Processor.Backoff.{exponential_backoff, minute}
use xwork.Processor.Backoff.Laws.{backoff_lem, total_backoff}
use xwork.Processor.Moves.{
  enqueue, enqueue_scheduled, enqueued_from_scheduled, complete, processed_from_processing, retry,
  dequeue,
}
use xwork.Processor.Passes.{
  enqueue_all, enqueue_ready_failed_jobs, enqueue_ready_scheduled_jobs, check_for_orphaned_jobs,
}
use xwork.Processor.Work.{Outcome, settle, process_job}
use xwork.Processor.Dequeue.{Dequeues, dequeue-Dequeues}
use xwork.Memory.Processing.{insert_to_processing, emit_heartbeat}
use xwork.Processor.Events.{occur, Event, occur_all, places, EnabledAll}
use xwork.Processor.Events.History.{no_job_lost, made_by_all, dropped_by_all}
use xwork.Processor.Events.Attempts.{CountsWithin, retries_bounded}
use xwork.Text.{codes}
use xwork.StackTrace.{clean_stack_trace, join_lines, newline}
use xwork.StackTrace.Library.{Frame, IsFiltered}
use xwork.StackTrace.Frames.{frame_lines, text_left, clean_stack_trace_lem}
use xwork.Processor.Definitions.{
  Registry, Readings, define_job, enqueue_at, has_queue, queues_to_process,
}
use xwork.Processor.Definitions.Laws.{new_job, put, enqueue_at-define_job}
use xwork.Processor.Schedule.{IsScheduleAfter, enqueue_ready_scheduled_jobs_lem}
use xwork.Processor.Orphans.{IsCheckedAfter, check_for_orphaned_jobs_lem}
use xwork.Processor.Retry.{IsFailedAfter, retried, retry_lem, enqueue_ready_failed_jobs_lem}
use xwork.Processor.Settle.{settled, settle_lem, process_job-undefined}
use xwork.Processor.Races.{enqueue_scheduled_stale, complete_orphan, enqueue_all_blocked}
use xwork.Tests.{ascii, busy, busy-IsValid, busy-IsExclusive, resize, report, cleanup}

-- a job that is enqueued for later, enqueued, taken by a worker, and completed
abbrev cleanup_started : ProcessingJob
cleanup_started = record {
  id = 4;
  name = "cleanup";
  queue = "default";
  payload = none;
  retry_count = 0;
  started_at = 70;
  enqueued_at = 60;
  scheduled_at = 2;
}

abbrev life : List Event
life =
    Event.enqueues 2 2 cleanup
    ∷ Event.enqueues_scheduled 60 cleanup
    ∷ Event.dequeues 70 "default"
    ∷ Event.beats 75 cleanup_started
    ∷ Event.settles 80 80 cleanup_started Outcome.returned_nil
    ∷ []

life_enabled : EnabledAll ascii life new_memory_state
unfolding occur enqueue enqueue_scheduled dequeue emit_heartbeat lookup set delete rebuild
    insert_to_scheduled delete_from_scheduled insert_to_queue delete_from_queue take_claimed oldest
    older insert_to_processing clone_payload clone_scheduled_job clone_enqueued_job
    clone_processing_job clone_state transact
life_enabled = ((refl, tt), (refl, (tt, (tt, (refl, tt)))))

no_job_lost_example :
    (places 4 (occur_all ascii life new_memory_state) ≤ 1)
    × (places 4 (occur_all ascii life new_memory_state) + dropped_by_all life 4
        ≡ made_by_all life 4)
no_job_lost_example = no_job_lost ascii life 4 life_enabled

retries_bounded_example : CountsWithin 4 (occur_all ascii life new_memory_state)
retries_bounded_example = retries_bounded ascii life 4 life_enabled

dequeue-Dequeues_example :
    Dequeues 60 "default" busy (dequeue (memory_adapter ascii) 60 "default" busy)
dequeue-Dequeues_example = dequeue-Dequeues ascii 60 "default" busy busy-IsValid

settle_lem_example :
    settle (memory_adapter ascii) ascii 60 61 resize (Outcome.returned (external "timeout")) busy
    ≡ settled ascii 60 61 resize (Outcome.returned (external "timeout")) busy
unfolding lookup
settle_lem_example =
    settle_lem ascii 60 61 busy busy-IsExclusive resize (Outcome.returned (external "timeout")) refl

retry_lem_example : retry (memory_adapter ascii) 60 report busy ≡ (ok tt, retried 60 3 busy)
retry_lem_example = retry_lem ascii 60 report busy busy-IsValid

enqueue_ready_failed_jobs_lem_example :
    let (r, t) = enqueue_ready_failed_jobs (memory_adapter ascii) 60 (λ n. 60 + n) busy in
    (r ≡ ok tt) × IsFailedAfter 60 3 (lookup 3 busy.failed) t
enqueue_ready_failed_jobs_lem_example =
    enqueue_ready_failed_jobs_lem ascii 60 (λ n. 60 + n) busy 3 busy-IsValid

enqueue_ready_scheduled_jobs_lem_example :
    let (r, t) = enqueue_ready_scheduled_jobs (memory_adapter ascii) 60 (λ n. 60 + n) busy in
    (r ≡ ok tt) × IsScheduleAfter 60 4 (lookup 4 busy.scheduled) t
enqueue_ready_scheduled_jobs_lem_example =
    enqueue_ready_scheduled_jobs_lem ascii 60 (λ n. 60 + n) busy 4 busy-IsExclusive

check_for_orphaned_jobs_lem_example :
    let (running, t) =
      check_for_orphaned_jobs
        (memory_adapter ascii)
        ascii
        10000000000
        (λ n. 10000000000 + n)
        busy in
    (running ≡ true)
    × IsCheckedAfter 10000000000 2 (lookup 2 busy.processing) (lookup 2 busy.processing_heartbeat) t
check_for_orphaned_jobs_lem_example =
    check_for_orphaned_jobs_lem ascii 10000000000 (λ n. 10000000000 + n) busy 2 busy-IsExclusive

abbrev nothing_defined : Registry MemoryState
nothing_defined = record { registered_queues = []; job_definitions = [] }

abbrev ticks : Readings
ticks = record { scheduled = 60; checked = 61; enqueued = 62 }

enqueue_at-define_job_example :
    let defined = define_job "mails" "mail" (λ job s. (Outcome.returned_nil, s)) nothing_defined in
    (enqueue_at (memory_adapter ascii) defined (ok 7) ticks "mail" 50 none busy
      ≡ (ok tt, put ticks (new_job 7 "mail" "mails" none 50 60) busy))
    × (has_queue "mails" (queues_to_process defined []) ≡ true)
unfolding lookup
enqueue_at-define_job_example =
    enqueue_at-define_job ascii nothing_defined "mails" "mail" (λ job s. (Outcome.returned_nil, s))
      7 ticks 50 none busy tt refl refl

abbrev trace : List Frame
trace = (codes "f", codes "m") ∷ (codes "panic(", codes "p") ∷ []

clean_stack_trace_lem_example :
    (left : List Frame) × IsFiltered trace left
    × (clean_stack_trace (join_lines (codes "g" ∷ frame_lines trace) ++ newline ∷ [])
        ≡ text_left (codes "g") left)
clean_stack_trace_lem_example =
    clean_stack_trace_lem (codes "g") trace (refl, tt)
      (
        ((refl, tt), (λ e. cc), (refl, tt), (λ e. cc)),
        (
          ((refl, (refl, (refl, (refl, (refl, (refl, tt)))))), (λ e. cc), (refl, tt), (λ e. cc)),
          tt,
        ),
      )

process_job-undefined_example :
    let (jobs, t) = process_job (memory_adapter ascii) ascii [] 60 61 [] resize ([], busy) in
    (lookup (ascii.uuid_string 2) jobs ≡ none)
    × (t ≡ settled ascii 60 61 resize (Outcome.panicked (error_text nil_dereference) []) busy)
unfolding lookup
process_job-undefined_example =
    process_job-undefined ascii 60 61 busy busy-IsExclusive [] [] resize [] refl refl

backoff_lem_example :
    (exponential_backoff 19 ≡ 19 * 19 * 19 * minute)
    × (exponential_backoff 19 < 2 ^ 63)
    × (total_backoff 19 * 4 ≡ 19 * 19 * (19 + 1) * (19 + 1) * minute)
backoff_lem_example = backoff_lem 19 (omega arith)

abbrev stale_resize : ScheduledJob
stale_resize = record {
  id = 2;
  name = "resize";
  queue = "images";
  payload = none;
  enqueue_at = 8;
  scheduled_at = 4;
}

enqueue_scheduled_stale_example :
    let (r, t) = enqueue_scheduled (memory_adapter ascii) 60 stale_resize busy in
    (r ≡ ok tt)
    × (lookup 2 t.enqueued ≡ some (enqueued_from_scheduled 60 stale_resize))
    × (lookup 2 t.processing ≡ some resize)
unfolding lookup
enqueue_scheduled_stale_example =
    enqueue_scheduled_stale ascii 60 busy busy-IsValid stale_resize resize tt refl refl

abbrev report_started : ProcessingJob
report_started = record {
  id = 3;
  name = "report";
  queue = "default";
  payload = none;
  retry_count = 1;
  started_at = 20;
  enqueued_at = 10;
  scheduled_at = 3;
}

complete_orphan_example :
    let (r, t) = complete (memory_adapter ascii) 60 report_started busy in
    (r ≡ ok tt)
    × (lookup 3 t.processed ≡ some (processed_from_processing 60 report_started))
    × (lookup 3 t.failed ≡ some report)
unfolding lookup
complete_orphan_example =
    complete_orphan ascii 60 busy busy-IsValid report_started report tt refl refl

abbrev queued_already : ScheduledJob
queued_already = record {
  id = 1;
  name = "mail";
  queue = "default";
  payload = none;
  enqueue_at = 8;
  scheduled_at = 5;
}

enqueue_all_blocked_example :
    enqueue_all (memory_adapter ascii) (λ n. 60 + n) 0 (queued_already ∷ cleanup ∷ []) busy
    ≡ (err already_enqueued, busy)
unfolding lookup
enqueue_all_blocked_example =
    enqueue_all_blocked ascii 60 busy busy-IsValid (λ n. 60 + n) 0 queued_already (cleanup ∷ [])
      (λ e. cc)
