-- ===== src/Processor/Lifecycle.antt =====
-- The life of a processor (process.go): the goroutines that `Process` starts, the tasks of its worker
-- pool, and `Shutdown`. The pool (github.com/alitto/pond) is not the program's: whether it accepts
-- a task, and when it runs one, is left open.
pub mod Laws
use xwork.Prelude.{
  ℕ, Bool, true, false, not, Option, none, some, List, [], ◌∷◌, ◌++◌, map, String, ◌≡◌, keep, In,
  ◌*◌, if◌then◌else◌, string_eq,
}
use xwork.Prelude.Result.{Action, Result, ok, err, external, pure, ◌>>◌}
use xwork.GoMap.{Map, lookup, set, delete, values}
use xwork.Text.{Platform}
use xwork.Job.{Time, ProcessingJob}
use xwork.Storage.{StorageAdapter}
use xwork.Processor.Backoff.{second, default_concurrency}
use xwork.Processor.Moves.{dequeue}
use xwork.Processor.Passes.{
  enqueue_ready_scheduled_jobs, enqueue_ready_failed_jobs, check_for_orphaned_jobs, emit_all,
}
use xwork.Processor.Work.{JobDefinitions, Outcome, call_handler, settle}

-- the values of a processor that can be set, and `webActions`
pub record Settings : Type 0 where
  pub concurrency : ℕ
  -- in nanoseconds
  pub kill_timeout : ℕ
  pub web_actions : Bool

abbrev default_settings : Settings
default_settings = record {
  concurrency = default_concurrency;
  kill_timeout = 15 * second;
  web_actions = false;
}

unfoldable pub set_concurrency : ℕ → Settings → Settings
set_concurrency concurrency p = record p { concurrency = concurrency }

unfoldable pub set_kill_timeout : ℕ → Settings → Settings
set_kill_timeout kill_timeout p = record p { kill_timeout = kill_timeout }

unfoldable pub set_web_actions_enabled : Bool → Settings → Settings
set_web_actions_enabled enabled p = record p { web_actions = enabled }

-- `NewProcessor`: the storage is initialized where it can be
unfoldable pub new_processor : (storage : StorageAdapter) → Action storage.Store Settings
new_processor storage = elim storage.initialize? [
  | none ↦ pure default_settings
  | some initialize ↦ initialize >> pure default_settings
]

-- a goroutine with a `for { select { ... } }`
pub data Loop : Type 0 where
  scheduled_jobs failed_jobs heartbeats orphaned_jobs : Loop
  queue : String → Loop

-- the goroutines of `Process`
abbrev pub start_loops : List String → List Loop
start_loops queues =
    scheduled_jobs ∷ failed_jobs ∷ heartbeats ∷ orphaned_jobs ∷ map (λ name. queue name) queues

abbrev pub is_orphan_loop : Loop → Bool
is_orphan_loop orphaned_jobs = true
is_orphan_loop _ = false

-- A process at work: the channel `quit`, `shutdownOnce`, the goroutines that run, the tasks that
-- the pool has accepted and not begun, `processingJobs`, and the store.
pub record Process (Store : Type 0) : Type 0 where
  pub quit_closed : Bool
  pub shut_down : Bool
  pub loops : List Loop
  pub tasks : List String
  pub processing_jobs : Map String ProcessingJob
  pub store : Store

-- `Process`, up to the wait for a signal
abbrev pub process : {Store : Type 0} → List String → Store → Process Store
process queues s = record {
  quit_closed = false;
  shut_down = false;
  loops = start_loops queues;
  tasks = [];
  processing_jobs = [];
  store = s;
}

-- `close(p.quit)`, which panics on a closed channel
abbrev pub close_quit : {Store : Type 0} → Process Store → Result (Process Store)
close_quit p =
    if p.quit_closed
    then err (external "close of closed channel")
    else ok (record p { quit_closed = true })

-- `Shutdown`, up to the wait for the pool
unfoldable pub shutdown : {Store : Type 0} → Process Store → Result (Process Store)
shutdown p = if p.shut_down then ok p else close_quit (record p { shut_down = true })

module _ (storage : StorageAdapter) (platform : Platform) where
  open storage use {Store}

  -- the goroutine of the orphan check returns after a `fail` that failed
  abbrev pub after_orphans : Process Store → Bool × Store → Process Store
  after_orphans p (true, s) = record p { store = s }
  after_orphans p (false, s) = record p {
    store = s;
    loops = keep (λ loop. not (is_orphan_loop loop)) p.loops;
  }

  -- A round of a loop in which the ticker is ready. The errors of the passes are only logged;
  -- `accepted` is what `TrySubmit` says.
  abbrev pub loop_round : Loop → Bool → Time → (ℕ → Time) → Process Store → Process Store
  loop_round scheduled_jobs accepted now clock p = record p {
    store = (enqueue_ready_scheduled_jobs storage now clock p.store).1;
  }
  loop_round failed_jobs accepted now clock p = record p {
    store = (enqueue_ready_failed_jobs storage now clock p.store).1;
  }
  loop_round heartbeats accepted now clock p = record p {
    store = emit_all storage clock 0 (values p.processing_jobs) p.store;
  }
  loop_round orphaned_jobs accepted now clock p =
      after_orphans p (check_for_orphaned_jobs storage platform now clock p.store)
  loop_round (queue name) accepted now clock p =
      if accepted then record p { tasks = name ∷ p.tasks } else p

  -- a task, up to the call of the handler
  abbrev pub after_dequeue : Process Store → Result (Option ProcessingJob) × Store → Process Store
  after_dequeue p (err e, s) = record p { store = s }
  after_dequeue p (ok none, s) = record p { store = s }
  after_dequeue p (ok (some job), s) = record p {
    store = s;
    processing_jobs = set (platform.uuid_string job.id) job p.processing_jobs;
  }

  abbrev pub begin_task : Time → String → Process Store → Process Store
  begin_task now name p = after_dequeue p (dequeue storage now name p.store)

  -- the rest of the task: the handler, and what follows it
  abbrev pub finish_task :
      JobDefinitions Store → Time → Time → List ℕ → ProcessingJob → Process Store → Process Store
  finish_task definitions done now stack job p =
      let (outcome, s) =
        call_handler storage platform (lookup job.name definitions) stack job p.store in
      record p {
        store = settle storage platform done now job outcome s;
        processing_jobs = delete (platform.uuid_string job.id) p.processing_jobs;
      }

  -- What can happen next, in whatever order the goroutines run.
  pub data Step (definitions : JobDefinitions Store) : Process Store → Process Store → Type 0 where
    ticked :
        (p : Process Store) (loop : Loop) (accepted : Bool) (now : Time) (clock : ℕ → Time)
        → In loop p.loops
        → Step definitions p (loop_round loop accepted now clock p)
    told :
        (p : Process Store) (loop : Loop) (front back : List Loop)
        → p.quit_closed ≡ true
        → p.loops ≡ front ++ loop ∷ back
        → Step definitions p (record p { loops = front ++ back })
    began :
        (p : Process Store) (name : String) (front back : List String) (now : Time)
        → p.tasks ≡ front ++ name ∷ back
        → Step definitions p (begin_task now name (record p { tasks = front ++ back }))
    finished :
        (p : Process Store) (job : ProcessingJob) (done now : Time) (stack : List ℕ)
        → lookup (platform.uuid_string job.id) p.processing_jobs ≡ some job
        → Step definitions p (finish_task definitions done now stack job p)
    signalled : (p q : Process Store) → shutdown p ≡ ok q → Step definitions p q

  -- a run of steps
  pub data Run (definitions : JobDefinitions Store) (p : Process Store)
      : Process Store → Type 0 where
    here : Run definitions p p
    next : {q r : Process Store} → Run definitions p q → Step definitions q r → Run definitions p r
