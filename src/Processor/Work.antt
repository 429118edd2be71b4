-- ===== src/Processor/Work.antt =====
-- `processJob` of process.go.
use Prim.Native.String.{◌++◌ as ◌<>◌}
use xwork.Prelude.{ℕ, Option, none, some, String, List, string_eq}
use xwork.Prelude.Result.{Result, ok, err, Error, external, error_text, nil_dereference}
use xwork.Text.{Platform}
use xwork.GoMap.{Map, lookup, set, delete}
use xwork.Job.{Time, ProcessingJob}
use xwork.Storage.{StorageAdapter}
use xwork.Processor.Moves.{complete, fail, fail_with_stack}

-- How a call of a handler ends. A panic carries its value's text and the stack of the goroutine.
pub data Outcome : Type 0 where
  returned_nil : Outcome
  returned : Error → Outcome
  panicked : String → List ℕ → Outcome

-- A handler works on the store too: it may enqueue jobs.
abbrev pub JobHandler : Type 0 → Type 0
JobHandler Store = ProcessingJob → Store → Outcome × Store

pub record JobDefinition (Store : Type 0) : Type 0 where
  pub name : String
  pub queue : String
  pub handler : JobHandler Store

abbrev pub JobDefinitions : Type 0 → Type 0
JobDefinitions Store = Map String (JobDefinition Store)

module _ (storage : StorageAdapter) (platform : Platform) where
  open storage use {Store}

  -- `jobDefinition.Handler(job)`: without a definition this is a nil dereference, and `stack` is
  -- the stack that `debug.Stack` gives then.
  abbrev pub call_handler :
      Option (JobDefinition Store) → List ℕ → ProcessingJob → Store → Outcome × Store
  call_handler (some definition) stack job s = definition.handler job s
  call_handler none stack job s = (panicked (error_text nil_dereference) stack, s)

  -- a failed `complete` is failed with its error; a failed `fail` is only logged
  abbrev pub completed : Time → ProcessingJob → Result (Unit {0}) × Store → Store
  completed now job (ok _, s) = s
  completed now job (err e, s) = (fail storage platform now job e s).1

  -- What follows the handler: `done` and `now` are the clock's readings in `complete` and `fail`.
  unfoldable pub settle : Time → Time → ProcessingJob → Outcome → Store → Store
  settle done now job returned_nil s = completed now job (complete storage done job s)
  settle done now job (returned e) s = (fail storage platform now job e s).1
  settle done now job (panicked text stack) s =
      (fail_with_stack storage platform now job (external ("panic: " <> text)) stack s).1

  -- the state that `processJob` works on: the jobs of this process, and the store
  abbrev pub Worker : Type 0
  Worker = Map String ProcessingJob × Store

  unfoldable pub process_job :
      JobDefinitions Store → Time → Time → List ℕ → ProcessingJob → Worker → Worker
  process_job definitions done now stack job (processing_jobs, s) =
      let id = platform.uuid_string job.id in
      let (outcome, s') = call_handler (lookup job.name definitions) stack job s in
      (delete id (set id job processing_jobs), settle done now job outcome s')
