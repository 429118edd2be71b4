-- ===== src/Sql/Moves/Retried.antt =====
-- `retry` of process.go and `retryFailedJob` of server.go over storage/sql.go and over
-- storage/memory.go, side by side.
use xwork.Prelude.{
  Option, none, some, List, String, ◌≡◌, refl, ap, sym, ◌∙◌, subst, nat_eq, inl, inr, Option-cases,
}
use xwork.Prelude.Result.{
  is_panic, Action, Result, ok, err, pure, ◌>>=◌, already_enqueued, failed_job_not_found,
  duplicate_job, unknown_job_type, orphan_job, job_definition_not_found,
  failed_job_claim_unsupported, external, unsupported_job_type, slice_bounds_out_of_range,
  nil_dereference, makeslice_cap_out_of_range, joined,
}
use xwork.GoMap.{lookup}
use xwork.Payload.{IsPayload}
use xwork.Text.{Platform}
use xwork.Job.{Uuid, Time, FailedJob}
use xwork.Memory.State as Mem
use xwork.Memory.State.{MemoryState}
use xwork.Memory.Invariant.{IsValid}
use xwork.Memory.Stored.{lookup-Stored}
use xwork.Memory.Queue as Queue
use xwork.Memory.Finished as Finished
use xwork.Memory.Adapter.{memory_adapter}
use xwork.Memory.Inserts.{insert_to_queue-new, insert_to_queue-taken}
use xwork.Memory.Calls.Keeps.{insert_to_queue-IsValid}
use xwork.Processor.Moves.{
  retry, push_claimed, push_retry, enqueued_from_failed, unless_already_enqueued,
}
use xwork.Server.{retry_failed_job, enqueue_claimed}
use xwork.Sql.Driver.{Driver, Json}
use xwork.Sql.Queue.{insert_to_queue}
use xwork.Sql.Finished.{claim_failed}
use xwork.Sql.Adapter.{sql_adapter, transact}
use xwork.Sql.Engine.{Table, Stored}
use xwork.Sql.Engine.Writes.{Serves}
use xwork.Sql.Stored.{IsKept}
use xwork.Sql.Steps.{Keeps, bind-Keeps}
use xwork.Sql.Keeps.{insert_to_queue-Keeps, claim_failed-Keeps, claim_and_enqueue-Keeps}
use xwork.Sql.Claims.{lookup-In, insert_to_queue-free, insert_to_queue-busy}
use xwork.Sql.Moves.Match.{Fits, Matches, Relates, bind-Matches, transact-Matches}
use xwork.Sql.Moves.Claimed.{claim_failed-Matches, claim_failed-lookup, insert_to_queue-Matches}

-- what is known of a claimed job
abbrev IsGood : Json → Option FailedJob → Type 0
IsGood json none = Unit {0}
IsGood json (some job) = IsPayload job.payload × IsKept json job.payload

module _ (platform : Platform) (json : Json) (driver : Driver)
    (tables saved : driver.Db → Table → List Stored) (violation : Table → String)
    (serves : Serves driver tables saved) where
  claimed-IsGood :
      (id : Uuid) (db : driver.Db) (s : MemoryState)
      → Relates json (tables db) s
      → (found : Option FailedJob) → (Finished.claim_failed id s).0 ≡ ok found
      → IsGood json found
  claimed-IsGood id db s related none e = tt
  claimed-IsGood id db s related (some job) e =
      let there : lookup id s.failed ≡ some job =
        let same = claim_failed-lookup json driver tables saved violation serves db s related id in
        let here : ok (lookup id s.failed) ≡ ok (some job) = sym (ap (λ r. r.0) same) ∙ e in cc in
      let (own, good) =
        lookup-Stored (λ (j : FailedJob). j.id) (λ j. j.payload) id job s.failed related.1.failed
          there in
      (good, related.0.failed_kept job (lookup-In s related.1 id job there))

  -- the insertion of a retry, which takes `ErrAlreadyEnqueued` for a success
  push_retry-Matches :
      (now : Time) (job : FailedJob)
      → IsGood json (some job)
      → (db : driver.Db) (s : MemoryState) → Relates json (tables db) s
      → Matches json driver tables saved violation
          (push_retry (sql_adapter platform json driver) now job db)
          (push_retry (memory_adapter platform) now job s)
  push_retry-Matches now job (good, kept) db s related =
      let moved = enqueued_from_failed now job in
      let v = insert_to_queue-IsValid s related.1 moved good in
      elim (Option-cases (lookup job.id s.enqueued)) [
        | inl free ↦
            let (db', e, held) =
              insert_to_queue-free json driver tables saved serves s related.1.enqueued db related.0
                moved kept free in
            let e' = insert_to_queue-new moved s good free in
            rw (e, e') (refl, tt, (held, subst (λ r. IsValid r.1) e' v))
        | inr (other, busy) ↦
            let (db', e, held) =
              insert_to_queue-busy json driver tables saved serves s related.1.enqueued db related.0
                moved kept other busy in
            let e' = insert_to_queue-taken moved s (λ free. absurd cc) in
            rw (e, e') (refl, tt, (held, related.1))
      ]

  -- it changes the result only
  unless_already_enqueued-state :
      (p : Result (Unit {0}) × driver.Db) → (unless_already_enqueued p).1 ≡ p.1
  unless_already_enqueued-state (ok u, t) = refl
  unless_already_enqueued-state (err already_enqueued, t) = refl
  unless_already_enqueued-state (err duplicate_job, t) = refl
  unless_already_enqueued-state (err unknown_job_type, t) = refl
  unless_already_enqueued-state (err orphan_job, t) = refl
  unless_already_enqueued-state (err job_definition_not_found, t) = refl
  unless_already_enqueued-state (err failed_job_not_found, t) = refl
  unless_already_enqueued-state (err failed_job_claim_unsupported, t) = refl
  unless_already_enqueued-state (err (external text), t) = refl
  unless_already_enqueued-state (err (unsupported_job_type raw), t) = refl
  unless_already_enqueued-state (err slice_bounds_out_of_range, t) = refl
  unless_already_enqueued-state (err nil_dereference, t) = refl
  unless_already_enqueued-state (err makeslice_cap_out_of_range, t) = refl
  unless_already_enqueued-state (err (joined first second), t) = refl

  push_retry-Keeps :
      (now : Time) (job : FailedJob)
      → Keeps saved (push_retry (sql_adapter platform json driver) now job)
  push_retry-Keeps now job db =
      ap saved (
        unless_already_enqueued-state
          (insert_to_queue json driver (enqueued_from_failed now job) db))
      ∙ insert_to_queue-Keeps json driver tables saved serves (enqueued_from_failed now job) db

  push_claimed-Keeps :
      (now : Time) (found : Option FailedJob)
      → Keeps saved (push_claimed (sql_adapter platform json driver) now found)
  push_claimed-Keeps now none db = refl
  push_claimed-Keeps now (some job) db = push_retry-Keeps now job db

  push_claimed-Matches :
      (now : Time) (found : Option FailedJob)
      → IsGood json found
      → (db : driver.Db) (s : MemoryState) → Relates json (tables db) s
      → Matches json driver tables saved violation
          (push_claimed (sql_adapter platform json driver) now found db)
          (push_claimed (memory_adapter platform) now found s)
  push_claimed-Matches now none good db s related = (refl, tt, related)
  push_claimed-Matches now (some job) good db s related =
      push_retry-Matches now job good db s related

  enqueue_claimed-Matches :
      (now : Time) (found : Option FailedJob)
      → IsGood json found
      → (db : driver.Db) (s : MemoryState) → Relates json (tables db) s
      → Matches json driver tables saved violation
          (enqueue_claimed (sql_adapter platform json driver) now found db)
          (enqueue_claimed (memory_adapter platform) now found s)
  unfolding is_panic
  enqueue_claimed-Matches now none good db s related = (refl, refl, related)
  enqueue_claimed-Matches now (some job) (good, kept) db s related =
      let moved = enqueued_from_failed now job in
      bind-Matches json driver tables saved violation (λ u. pure moved) (λ u. pure moved)
        (insert_to_queue json driver moved) (Queue.insert_to_queue moved) db s
        (insert_to_queue-Matches json driver tables saved violation serves db s related moved good
          kept)
        (λ u e now. (refl, tt, now))

  -- a transaction that claims a job and goes on with it
  claim-Fits :
      {A : Type 0} (id : Uuid) (k : Option FailedJob → Action driver.Db A)
      (l : Option FailedJob → Action MemoryState A)
      → Keeps saved (claim_failed json driver id >>= k)
      → ((found : Option FailedJob)
          → IsGood json found
          → (db : driver.Db) (s : MemoryState) → Relates json (tables db) s
          → Matches json driver tables saved violation (k found db) (l found s))
      → Fits json driver tables saved violation
          (transact driver (claim_failed json driver id >>= k))
          (Mem.transact (Finished.claim_failed id >>= l))
  claim-Fits id k l keeps follows db s related =
      transact-Matches json driver tables saved violation serves (claim_failed json driver id >>= k)
        (Finished.claim_failed id >>= l) keeps db s related
        (λ inside same.
          let there = subst (λ t. Relates json t s) (sym same) related in
          bind-Matches json driver tables saved violation k l (claim_failed json driver id)
            (Finished.claim_failed id) inside s
            (claim_failed-Matches json driver tables saved violation serves inside s there id)
            (λ found e now.
              follows found (claimed-IsGood id inside s there found e)
                (claim_failed json driver id inside).1 (Finished.claim_failed id s).1 now))

  pub retry-Fits :
      (now : Time) (job : FailedJob)
      → Fits json driver tables saved violation
          (retry (sql_adapter platform json driver) now job)
          (retry (memory_adapter platform) now job)
  unfolding retry
  retry-Fits now job =
      claim-Fits job.id (push_claimed (sql_adapter platform json driver) now)
        (push_claimed (memory_adapter platform) now)
        (bind-Keeps saved (claim_failed json driver job.id)
          (push_claimed (sql_adapter platform json driver) now)
          (claim_failed-Keeps json driver tables saved serves job.id) (push_claimed-Keeps now))
        (push_claimed-Matches now)

  pub retry_failed_job-Fits :
      (now : Time) (id : Uuid)
      → Fits json driver tables saved violation
          (retry_failed_job (sql_adapter platform json driver) now id)
          (retry_failed_job (memory_adapter platform) now id)
  unfolding retry_failed_job
  retry_failed_job-Fits now id =
      claim-Fits id (enqueue_claimed (sql_adapter platform json driver) now)
        (enqueue_claimed (memory_adapter platform) now)
        (claim_and_enqueue-Keeps json driver tables saved serves platform now id)
        (enqueue_claimed-Matches now)
