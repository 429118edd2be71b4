-- ===== src/Sql/Moves/Claimed.antt =====
-- `InsertToQueue` and `ClaimFailed` of storage/sql.go and of storage/memory.go, side by side.
use xwork.Prelude.{List, String, ◌≡◌, refl, subst, nat_eq, arith, inl, inr, Option-cases}
use xwork.Prelude.Result.{is_panic, ok}
use xwork.GoMap.{lookup, delete}
use xwork.GoMap.Laws.{delete_absent}
use xwork.Payload.{IsPayload}
use xwork.Job.{Uuid, EnqueuedJob, FailedJob}
use xwork.Memory.State.{MemoryState}
use xwork.Memory.Invariant.{IsValid, clone_failed_job_lem}
use xwork.Memory.Stored.{lookup-Stored}
use xwork.Memory.Queue as Queue
use xwork.Memory.Finished as Finished
use xwork.Memory.Inserts.{insert_to_queue-new, insert_to_queue-taken}
use xwork.Memory.Calls.Keeps.{insert_to_queue-IsValid, claim_failed-IsValid}
use xwork.Sql.Driver.{Driver, Json}
use xwork.Sql.Queue.{insert_to_queue}
use xwork.Sql.Finished.{claim_failed}
use xwork.Sql.Engine.{Table, Stored}
use xwork.Sql.Engine.Writes.{Serves}
use xwork.Sql.Stored.{IsKept}
use xwork.Sql.Claims.{insert_to_queue-free, insert_to_queue-busy, claim_failed-stored}
use xwork.Sql.Moves.Match.{Matches, Relates}

module _ (json : Json) (driver : Driver) (tables saved : driver.Db → Table → List Stored)
    (violation : Table → String) (serves : Serves driver tables saved) (db : driver.Db)
    (s : MemoryState) (related : Relates json (tables db) s) where
  pub insert_to_queue-Matches :
      (job : EnqueuedJob)
      → IsPayload job.payload
      → IsKept json job.payload
      → Matches json driver tables saved violation
          (insert_to_queue json driver job db)
          (Queue.insert_to_queue job s)
  unfolding is_panic
  insert_to_queue-Matches job good kept =
      let v = insert_to_queue-IsValid s related.1 job good in
      elim (Option-cases (lookup job.id s.enqueued)) [
        | inl free ↦
            let (db', e, held) =
              insert_to_queue-free json driver tables saved serves s related.1.enqueued db related.0
                job kept free in
            let e' = insert_to_queue-new job s good free in
            rw (e, e') (refl, tt, (held, subst (λ r. IsValid r.1) e' v))
        | inr (other, there) ↦
            let (db', e, held) =
              insert_to_queue-busy json driver tables saved serves s related.1.enqueued db related.0
                job kept other there in
            let e' = insert_to_queue-taken job s (λ free. absurd cc) in
            rw (e, e') (refl, refl, (held, subst (λ r. IsValid r.1) e' v))
      ]

  -- the claim of the in-memory adapter as an equation
  pub claim_failed-lookup :
      (id : Uuid)
      → Finished.claim_failed id s
        ≡ (ok (lookup id s.failed), record s { failed = delete id s.failed })
  unfolding Finished.claim_failed
  claim_failed-lookup id = elim (Option-cases (lookup id s.failed)) [
    | inl gone ↦ ground (arith, gone, delete_absent id s.failed gone)
    | inr (job, there) ↦
        let (own, good) =
          lookup-Stored (λ (j : FailedJob). j.id) (λ j. j.payload) id job s.failed related.1.failed
            there in
        ground (arith, there, clone_failed_job_lem job good)
  ]

  pub claim_failed-Matches :
      (id : Uuid)
      → Matches json driver tables saved violation
          (claim_failed json driver id db)
          (Finished.claim_failed id s)
  claim_failed-Matches id =
      let (db', e, held) =
        claim_failed-stored json driver tables saved serves s related.1 db related.0 id in
      let e' = claim_failed-lookup id in
      rw (e, e')
        (refl, tt, (held, subst (λ r. IsValid r.1) e' (claim_failed-IsValid s related.1 id)))
