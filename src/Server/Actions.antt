-- ===== src/Server/Actions.antt =====
-- The retry action of the web UI over the in-memory adapter, from the request to the answer.
use xwork.Prelude.{
  Bool, true, none, some, Option, ◌≡◌, refl, ◌≢◌, ◌⊎◌, inl, inr, arith, nat_eq, Bool-cases,
}
use xwork.GoMap.{lookup, set, delete}
use xwork.Text.{Platform}
use xwork.Job.{Uuid, Time, FailedJob}
use xwork.Memory.State.{MemoryState}
use xwork.Memory.Invariant.{IsValid}
use xwork.Memory.Adapter.{memory_adapter}
use xwork.Processor.Moves.{enqueued_from_failed}
use xwork.Server.Retry.{web_retried, web_retried-moved, web_retried-cases, retry_failed_job_lem}
use xwork.Server.Request.{
  Request, Web, is_same_origin_browser_request, has_json_content_type, has_valid_json_object_body,
}
use xwork.Server.Routes.{
  Response, Body, answer, post_retry, retry_id, retried_response, is_not_found,
  is_claim_unsupported,
}
use xwork.Prelude.Result.{is_panic}

-- The retry was done: the failed job with this id has gone to its queue, and is the answer.
abbrev pub IsRetried : Time → Uuid → MemoryState → Response × MemoryState → Type 0
IsRetried now id s r =
    (job : FailedJob) × (lookup id s.failed ≡ some job)
    × (lookup id s.enqueued ≡ none)
    × (r ≡ (
      answer (Body.retried (enqueued_from_failed now job)),
      record s {
        failed = delete id s.failed;
        enqueued = set id (enqueued_from_failed now job) s.enqueued;
      },
    ))

-- the guards in front of the retry
abbrev pub IsAllowed : Web → Platform → Bool → Request → Type 0
IsAllowed web platform web_actions r =
    (is_same_origin_browser_request web platform r ≡ true)
    × (has_json_content_type web r ≡ true)
    × (has_valid_json_object_body web r ≡ true)
    × (web_actions ≡ true)

-- nothing is changed, and the code is not that of success
abbrev pub IsRefused : MemoryState → Response × MemoryState → Type 0
IsRefused s (response, t) = (t ≡ s) × (response.code ≢ 200)

module _ (web : Web) (platform : Platform) (now : Time) (r : Request) (s : MemoryState)
    (v : IsValid s) where
  retried_response-cases :
      (id : Uuid)
      → IsRefused s (retried_response web platform (memory_adapter platform) (web_retried now id s))
        ⊎ IsRetried now id s
            (retried_response web platform (memory_adapter platform) (web_retried now id s))
  unfolding is_not_found is_claim_unsupported is_panic
  retried_response-cases id = elim (web_retried-cases now s id) [
    | inl gone ↦ rw gone (inl (refl, λ e. omega arith))
    | inr (inl busy) ↦ rw busy (inl (refl, λ e. omega arith))
    | inr (inr (job, there, free, moved)) ↦ inr (job, there, free, rw moved refl)
  ]

  -- A retry the guards let through is refused, or done for the id of the request.
  retry_id-cases :
      (o : Option Uuid)
      → IsRefused s (retry_id web platform (memory_adapter platform) now o s)
        ⊎ ((id : Uuid) × (o ≡ some id)
            × IsRetried now id s (retry_id web platform (memory_adapter platform) now o s))
  retry_id-cases none = inl (refl, λ e. omega arith)
  retry_id-cases (some id) =
      rw (retry_failed_job_lem platform now id s v) (elim (retried_response-cases id) [
        | inl refused ↦ inl refused
        | inr retried ↦ inr (id, refl, retried)
      ])

  -- On a well-formed store of the in-memory adapter, a retry request either leaves the store as
  -- it was and is not answered with 200, or it has passed the guards (the origin, the content
  -- type, the body, the actions enabled), its id is read as an id of a stored failed job that is
  -- not queued, and that job is taken off the failed ones, queued, and the answer.
  pub post_retry_lem :
      (web_actions : Bool)
      → IsRefused s (post_retry web platform (memory_adapter platform) web_actions now r s)
        ⊎ (IsAllowed web platform web_actions r
            × ((id : Uuid) × (web.uuid_from_string (r.path_value "id") ≡ some id)
                × IsRetried now id s
                    (post_retry web platform (memory_adapter platform) web_actions now r s)))
  unfolding post_retry
  post_retry_lem web_actions = elim (Bool-cases (is_same_origin_browser_request web platform r)) [
    | inr no_origin ↦ rw no_origin (inl (refl, λ e. omega arith))
    | inl origin ↦ elim (Bool-cases (has_json_content_type web r)) [
      | inr no_json ↦ rw (origin, no_json) (inl (refl, λ e. omega arith))
      | inl json ↦ elim (Bool-cases (has_valid_json_object_body web r)) [
        | inr no_body ↦ rw (origin, json, no_body) (inl (refl, λ e. omega arith))
        | inl body ↦ elim (Bool-cases web_actions) [
          | inr off ↦ rw (origin, json, body, off) (inl (refl, λ e. omega arith))
          | inl on ↦
              rw (origin, json, body, on)
                (elim (retry_id-cases (web.uuid_from_string (r.path_value "id"))) [
                  | inl refused ↦ inl refused
                  | inr retried ↦ inr ((refl, refl, refl, refl), retried)
                ])
        ]
      ]
    ]
  ]

  -- On a well-formed store of the in-memory adapter, a retry request that passes the guards, and
  -- whose id is that of a stored failed job that is not queued, is answered with the queued job,
  -- which is in the queue then and failed no more.
  pub post_retry-allowed :
      (web_actions : Bool) (id : Uuid) (job : FailedJob)
      → IsAllowed web platform web_actions r
      → web.uuid_from_string (r.path_value "id") ≡ some id
      → lookup id s.failed ≡ some job
      → lookup id s.enqueued ≡ none
      → post_retry web platform (memory_adapter platform) web_actions now r s ≡ (
        answer (Body.retried (enqueued_from_failed now job)),
        record s {
          failed = delete id s.failed;
          enqueued = set id (enqueued_from_failed now job) s.enqueued;
        },
      )
  unfolding post_retry
  post_retry-allowed web_actions id job (origin, json, body, on) named there free =
      rw (origin, json, body, on, named, retry_failed_job_lem platform now id s v)
        (rw (web_retried-moved now s id job there free) refl)
