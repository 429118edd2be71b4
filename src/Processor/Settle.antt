-- ===== src/Processor/Settle.antt =====
-- What becomes of a job when its handler is done, and `processJob` as a whole.
use xwork.Prelude.{
  ℕ, ◌+◌, ◌*◌, ◌<◌, Option, none, some, List, [], ◌∷◌, String, ◌≡◌, refl, ap, ◌∙◌, inl, inr, arith,
  nat_eq, string_eq, leb, if◌then◌else◌, Bool-cases,
}
use Prim.Native.String.{◌++◌ as ◌<>◌}
use xwork.Prelude.Result.{Error, external, error_text, nil_dereference}
use xwork.GoMap.{Map, lookup, set, delete}
use xwork.StackTrace.{clean_stack_trace}
use xwork.Processor.Backoff.Laws.{backoff_lem}
use xwork.GoMap.Laws.{lookup-delete_self}
use xwork.Text.{Platform}
use xwork.Job.{Time, ProcessingJob}
use xwork.Memory.State.{MemoryState}
use xwork.Memory.Adapter.{memory_adapter}
use xwork.Processor.Backoff.{default_max_retry_count}
use xwork.Processor.Moves.{error_json}
use xwork.Processor.Effects.{failed_once_more, complete-new, fail-new, fail-discard}
use xwork.Processor.Work.{
  Outcome, returned_nil, returned, panicked, settle, process_job, JobDefinitions,
}
use xwork.Processor.Moves.{fail_with_stack}
use xwork.Processor.Events.{IsExclusive}
use xwork.Processor.Events.Places.{unfailed, unprocessed}
use xwork.Processor.Events.Valid.{in_processing-IsPayload}

abbrev pub put_failed : Time → Time → String → ProcessingJob → MemoryState → MemoryState
put_failed now next_retry_at error job s = record s {
  failed =
      set job.id
        (record {
          id = job.id;
          name = job.name;
          queue = job.queue;
          payload = job.payload;
          error = error;
          retry_count = job.retry_count + 1;
          last_retry_at = now;
          next_retry_at = next_retry_at;
          scheduled_at = job.scheduled_at;
        })
        s.failed;
  processing = delete job.id s.processing;
  processing_heartbeat = delete job.id s.processing_heartbeat;
}

-- A failed attempt: back for another after the cube of its number in minutes, with the error, or
-- gone after the last.
abbrev pub attempt_failed : Time → String → ProcessingJob → MemoryState → MemoryState
attempt_failed now error job s =
    if leb 19 job.retry_count
    then record s {
      processing = delete job.id s.processing;
      processing_heartbeat = delete job.id s.processing_heartbeat;
    }
    else put_failed now
        (now + (job.retry_count + 1) * (job.retry_count + 1) * (job.retry_count + 1) * 60000000000)
        error job s

-- What is stored of an error: what encoding/json makes of its text and the stack trace, which is
-- left out where it is empty, and the text alone, in braces, where encoding/json fails.
abbrev pub stored_error : Platform → String → List ℕ → String
stored_error platform text stack = or_braced (platform.marshal_error text (given stack))
  where
    given : List ℕ → Option (List ℕ)
    given [] = none
    given (c ∷ cs) = some (c ∷ cs)

    or_braced : Option String → String
    or_braced (some json) = json
    or_braced none = "{\"message\":\"" <> text <> "\"}"

-- the state after a job is settled
abbrev pub settled : Platform → Time → Time → ProcessingJob → Outcome → MemoryState → MemoryState
settled platform done now job returned_nil s = record s {
  processed =
      set job.id
        (record {
          id = job.id;
          name = job.name;
          queue = job.queue;
          payload = job.payload;
          started_at = job.started_at;
          completed_at = done;
          enqueued_at = job.enqueued_at;
          scheduled_at = job.scheduled_at;
        })
        s.processed;
  processing = delete job.id s.processing;
  processing_heartbeat = delete job.id s.processing_heartbeat;
}
settled platform done now job (returned e) s =
    attempt_failed now (stored_error platform (error_text e) []) job s
settled platform done now job (panicked text stack) s =
    attempt_failed now
      (stored_error platform (error_text (external ("panic: " <> text))) (clean_stack_trace stack))
      job s

-- below the last retry, the delay is the cube
failed_once_more-cubed :
    (now : Time) (error : String) (job : ProcessingJob) (s : MemoryState)
    → job.retry_count < 19
    → failed_once_more now error job s
      ≡ put_failed now
          (now
            + (job.retry_count + 1) * (job.retry_count + 1) * (job.retry_count + 1) * 60000000000)
          error
          job
          s
failed_once_more-cubed now error job s left =
    ap (λ d. put_failed now (now + d) error job s)
      (backoff_lem (job.retry_count + 1) (omega arith)).0

error_json-stored :
    (platform : Platform) (e : Error) (stack : List ℕ)
    → error_json platform e stack ≡ stored_error platform (error_text e) (clean_stack_trace stack)
unfolding error_json
error_json-stored platform e stack = refl

module _ (platform : Platform) (done now : Time) (s : MemoryState) (x : IsExclusive s) where
  fail-attempt_failed :
      (job : ProcessingJob) (e : Error) (stack : List ℕ)
      → lookup job.id s.processing ≡ some job
      → (fail_with_stack (memory_adapter platform) platform now job e stack s).1
        ≡ attempt_failed now (error_json platform e stack) job s
  fail-attempt_failed job e stack held =
      elim (Bool-cases (leb default_max_retry_count job.retry_count)) [
        | inl spent ↦
            rw (spent, fail-discard platform now s x.valid job e stack (ground (arith, spent)))
        | inr left ↦
            rw
              (
                left,
                fail-new platform now s x.valid job e stack
                    (in_processing-IsPayload platform s x.valid job held) (ground (arith, left))
                    (unfailed platform s x job.id job held),
              )
              (failed_once_more-cubed now (error_json platform e stack) job s
                (ground (arith, left)))
      ]

  -- In a store where every id has at most one entry, settling a job that is in processing gives
  -- the state `settled`: a job whose handler returned nil is taken from processing and stored as
  -- processed, completed at the time given; one whose handler returned an error or panicked is
  -- taken from processing, and, unless it has 19 retries, stored as failed with one retry more,
  -- the JSON of the error, and a next retry after the cube of the new count in minutes. No other
  -- table and no other job changes.
  pub settle_lem :
      (job : ProcessingJob) (outcome : Outcome)
      → lookup job.id s.processing ≡ some job
      → settle (memory_adapter platform) platform done now job outcome s
        ≡ settled platform done now job outcome s
  unfolding settle clean_stack_trace
  settle_lem job returned_nil held = rw (
      complete-new platform done s x.valid job (in_processing-IsPayload platform s x.valid job held)
        (unprocessed platform s x job.id job held))
  settle_lem job (returned e) held =
      fail-attempt_failed job e [] held
      ∙ ap (λ error. attempt_failed now error job s) (error_json-stored platform e [])
  settle_lem job (panicked text stack) held =
      fail-attempt_failed job (external ("panic: " <> text)) stack held
      ∙ ap (λ error. attempt_failed now error job s)
          (error_json-stored platform (external ("panic: " <> text)) stack)

  -- In a store where every id has at most one entry, when the job is in processing and its name
  -- is not defined, `processJob` settles it as a panic with the text of a nil dereference, and
  -- the job is in this process's map of jobs no more.
  pub process_job-undefined :
      (definitions : JobDefinitions MemoryState) (stack : List ℕ) (job : ProcessingJob)
      (processing_jobs : Map String ProcessingJob)
      → lookup job.name definitions ≡ none
      → lookup job.id s.processing ≡ some job
      → let (jobs, t) =
          process_job
            (memory_adapter platform)
            platform
            definitions
            done
            now
            stack
            job
            (processing_jobs, s) in
        (lookup (platform.uuid_string job.id) jobs ≡ none)
        × (t ≡ settled platform done now job (panicked (error_text nil_dereference) stack) s)
  unfolding process_job
  process_job-undefined definitions stack job processing_jobs missing held =
      rw (missing, process_job)
        (
          lookup-delete_self (platform.uuid_string job.id) _,
          settle_lem job (panicked (error_text nil_dereference) stack) held,
        )
