-- ===== src/Server/Retry.antt =====
-- `retryFailedJob` of server.go over the in-memory adapter.
use xwork.Prelude.{◌⊎◌, none, some, ◌≡◌, arith, nat_eq, Option-cases, inl, inr, if◌then◌else◌}
use xwork.Prelude.Result.{Result, ok, err, already_enqueued, failed_job_not_found}
use xwork.GoMap.{lookup, set, delete, contains}
use xwork.Text.{Platform}
use xwork.Job.{Uuid, Time, EnqueuedJob, FailedJob}
use xwork.Memory.State.{MemoryState}
use xwork.Memory.Invariant.{IsValid, transact_lem, clone_failed_job_lem}
use xwork.Memory.Stored.{lookup-Stored}
use xwork.Memory.Finished.{claim_failed}
use xwork.Memory.Inserts.{insert_to_queue-new, insert_to_queue-taken}
use xwork.Memory.Adapter.{memory_adapter}
use xwork.Processor.Moves.{enqueued_from_failed}
use xwork.Server.{retry_failed_job}

-- What `retryFailedJob` gives: an error with nothing changed where no failed job is stored, or where
-- the id is queued already; the job moved to its queue where it is not.
abbrev pub web_retried : Time → Uuid → MemoryState → Result EnqueuedJob × MemoryState
web_retried now id s = elim (lookup id s.failed) [
  | none ↦ (err failed_job_not_found, s)
  | some stored ↦ if contains id s.enqueued then (err already_enqueued, s) else (
    ok (enqueued_from_failed now stored),
    record s {
      failed = delete id s.failed;
      enqueued = set id (enqueued_from_failed now stored) s.enqueued;
    },
  )
]

module _ (now : Time) (s : MemoryState) where
  pub web_retried-moved :
      (id : Uuid) (job : FailedJob)
      → lookup id s.failed ≡ some job
      → lookup id s.enqueued ≡ none
      → web_retried now id s ≡ (
        ok (enqueued_from_failed now job),
        record s {
          failed = delete id s.failed;
          enqueued = set id (enqueued_from_failed now job) s.enqueued;
        },
      )
  web_retried-moved id job there free = ground (arith, there, free)

  -- the three outcomes of a retry
  pub web_retried-cases :
      (id : Uuid)
      → (web_retried now id s ≡ (err failed_job_not_found, s))
        ⊎ ((web_retried now id s ≡ (err already_enqueued, s))
            ⊎ ((job : FailedJob) × (lookup id s.failed ≡ some job)
                × (lookup id s.enqueued ≡ none)
                × (web_retried now id s ≡ (
                  ok (enqueued_from_failed now job),
                  record s {
                    failed = delete id s.failed;
                    enqueued = set id (enqueued_from_failed now job) s.enqueued;
                  },
                ))))
  web_retried-cases id = elim (Option-cases (lookup id s.failed)) [
    | inl gone ↦ inl (ground (arith, gone))
    | inr (job, there) ↦ elim (Option-cases (lookup id s.enqueued)) [
      | inl free ↦ inr (inr (job, there, free, web_retried-moved id job there free))
      | inr (queued, busy) ↦ inr (inl (ground (arith, there, busy)))
    ]
  ]

module _ (platform : Platform) where
  -- On a well-formed store, `retryFailedJob` gives the state `web_retried`: where no job is
  -- stored as failed under the id, or the id is queued already, it is an error with nothing
  -- changed; otherwise the stored job is taken off the failed ones and put in its queue with its
  -- retry count, and returned.
  pub retry_failed_job_lem :
      (now : Time) (id : Uuid) (s : MemoryState)
      → IsValid s
      → retry_failed_job (memory_adapter platform) now id s ≡ web_retried now id s
  unfolding retry_failed_job claim_failed
  retry_failed_job_lem now id s v =
      rw (transact_lem _ s v) (elim (Option-cases (lookup id s.failed)) [
        | inl gone ↦ ground (arith, gone)
        | inr (stored, there) ↦
            let fit =
              lookup-Stored (λ (j : FailedJob). j.id) (λ j. j.payload) id stored s.failed v.failed
                there in
            elim (Option-cases (lookup id s.enqueued)) [
              | inl free ↦ ground (
                arith,
                fit.0,
                there,
                free,
                clone_failed_job_lem stored fit.1,
                insert_to_queue-new (enqueued_from_failed now stored)
                    (record s { failed = delete id s.failed }) fit.1 (rw fit.0 free),
              )
              | inr (queued, busy) ↦ ground (
                arith,
                fit.0,
                there,
                busy,
                clone_failed_job_lem stored fit.1,
                insert_to_queue-taken (enqueued_from_failed now stored)
                    (record s { failed = delete id s.failed }) (rw fit.0 (λ gone. cc)),
              )
            ]
      ])
