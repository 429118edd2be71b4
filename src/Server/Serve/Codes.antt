-- ===== src/Server/Serve/Codes.antt =====
-- The codes that the handlers of `ServeMux` answer with.
use xwork.Prelude.{
  Bool, Option, none, some, String, ◌≡◌, refl, subst, string_eq, ◌==◌, not, inl, inr, Bool-cases,
  ◌&&◌,
}
use xwork.Prelude.Result.{Result, ok, err, Error, is_panic}
use xwork.Text.{Platform}
use xwork.Job.{Uuid, Time, EnqueuedJob, Jobs, JobType, JobQuery}
use xwork.Storage.{StorageAdapter}
use xwork.Server.{list_legacy_jobs, retry_failed_job}
use xwork.Server.Request.{
  Request, Web, is_same_origin_browser_request, has_json_content_type, has_valid_json_object_body,
}
use xwork.Server.Query.{valid_job_type, parse_job_query}
use xwork.Server.Routes.{
  Response, with_listed_queue, failed_with, get_capabilities, get_count, count_type,
  counted_response, get_jobs, list_type, list_query, list_by, list_legacy, listed_response,
  post_retry, retry_id, retried_response, is_not_found, is_claim_unsupported, present, is_enqueued,
}
use xwork.Server.Responses.Delivery.{IsProper}
use xwork.Server.Serve.{Route, respond}

abbrev pub IsProperResponse : Response → Type 0
IsProperResponse r = IsProper r.code r.body

failed_with-IsProper : (e : Error) (text : String) → IsProperResponse (failed_with e text)
failed_with-IsProper e text = elim (Bool-cases (is_panic e)) [ inl h ↦ rw h tt | inr h ↦ rw h refl ]

module _ (web : Web) (platform : Platform) (storage : StorageAdapter) where
  open storage use {Store}

  count_type-IsProper :
      (t : Result JobType) (s : Store) → IsProperResponse (count_type web platform storage t s).0
  count_type-IsProper (err e) s = refl
  count_type-IsProper (ok t) s = counted (storage.count t s)
    where
      counted :
          (r : Result _ × Store) → IsProperResponse (counted_response web platform storage r).0
      counted (ok n, s') = refl
      counted (err e, s') = failed_with-IsProper e "failed to count jobs"

  listed_response-IsProper :
      (r : Result (Jobs × Bool) × Store)
      → IsProperResponse (listed_response web platform storage r).0
  listed_response-IsProper (ok (jobs, has_more), s) = refl
  listed_response-IsProper (err e, s) = failed_with-IsProper e "failed to list jobs"

  list_legacy-IsProper :
      (t : JobType) (query : JobQuery) (s : Store)
      → IsProperResponse (list_legacy web platform storage t query s).0
  list_legacy-IsProper t query s = elim (Bool-cases (not (query.query == ""))) [
    | inl h ↦ rw h refl
    | inr h ↦ rw h (elim (Bool-cases (not (query.queue == "") && not (is_enqueued t))) [
      | inl h ↦ rw h refl
      | inr h ↦ rw h (listed_response-IsProper (list_legacy_jobs storage t query s))
    ])
  ]

  list_by-IsProper :
      (t : JobType) (query : JobQuery) (s : Store)
      → IsProperResponse (list_by web platform storage storage.list_jobs? t query s).0
  list_by-IsProper t query s = by_adapter storage.list_jobs?
    where
      by_adapter :
          (found : Option _) → IsProperResponse (list_by web platform storage found t query s).0
      by_adapter none = list_legacy-IsProper t query s
      by_adapter (some list_jobs) = listed_response-IsProper (list_jobs t query s)

  list_type-IsProper :
      (t : Result JobType) (r : Request) (s : Store)
      → IsProperResponse (list_type web platform storage t r s).0
  list_type-IsProper (err e) r s = refl
  list_type-IsProper (ok t) r s = by_query (parse_job_query platform r)
    where
      by_query : (q : Result JobQuery) → IsProperResponse (list_query web platform storage t q s).0
      by_query (err e) = refl
      by_query (ok query) = list_by-IsProper t (with_listed_queue t query) s

  retried_response-IsProper :
      (r : Result EnqueuedJob × Store)
      → IsProperResponse (retried_response web platform storage r).0
  retried_response-IsProper (ok job, s) = refl
  retried_response-IsProper (err e, s) = elim (Bool-cases (is_not_found e)) [
    | inl h ↦ rw h refl
    | inr h ↦ rw h (elim (Bool-cases (is_claim_unsupported e)) [
      | inl h ↦ rw h refl
      | inr h ↦ rw h (failed_with-IsProper e "failed to retry job")
    ])
  ]

  retry_id-IsProper :
      (now : Time) (id : Option Uuid) (s : Store)
      → IsProperResponse (retry_id web platform storage now id s).0
  retry_id-IsProper now none s = refl
  retry_id-IsProper now (some id) s = retried_response-IsProper (retry_failed_job storage now id s)

  post_retry-IsProper :
      (web_actions : Bool) (now : Time) (r : Request) (s : Store)
      → IsProperResponse (post_retry web platform storage web_actions now r s).0
  unfolding post_retry
  post_retry-IsProper web_actions now r s =
      elim (Bool-cases (not (is_same_origin_browser_request web platform r))) [
        | inl h ↦ rw h refl
        | inr h ↦ rw h (elim (Bool-cases (not (has_json_content_type web r))) [
          | inl h ↦ rw h refl
          | inr h ↦ rw h (elim (Bool-cases (not (has_valid_json_object_body web r))) [
            | inl h ↦ rw h refl
            | inr h ↦ rw h (elim (Bool-cases (not web_actions)) [
              | inl h ↦ rw h refl
              | inr h ↦ rw h (elim (Bool-cases (not (present storage.claim_failed?))) [
                | inl h ↦ rw h refl
                | inr h ↦ rw h (retry_id-IsProper now (web.uuid_from_string (r.path_value "id")) s)
              ])
            ])
          ])
        ])
      ]

  same_answer :
      (p q : Response × Store) → some p ≡ some q → IsProperResponse p.0 → IsProperResponse q.0
  same_answer p q e h = let same : p ≡ q = cc in subst (λ x. IsProperResponse x.0) same h

  -- every handler's answer has a code with a body, unless the handler has panicked
  pub respond-IsProper :
      (web_actions : Bool) (now : Time) (route : Route) (r : Request) (s s' : Store)
      (response : Response)
      → respond web platform storage web_actions now route r s ≡ some (response, s')
      → IsProperResponse response
  unfolding respond get_capabilities get_count get_jobs
  respond-IsProper web_actions now Route.capabilities r s s' response e =
      same_answer (get_capabilities web platform storage web_actions, s) (response, s') e refl
  respond-IsProper web_actions now Route.count r s s' response e =
      same_answer (get_count web platform storage r s) (response, s') e
        (count_type-IsProper (valid_job_type (r.path_value "jobType")) s)
  respond-IsProper web_actions now Route.list r s s' response e =
      same_answer (get_jobs web platform storage r s) (response, s') e
        (list_type-IsProper (valid_job_type (r.path_value "jobType")) r s)
  respond-IsProper web_actions now Route.retry r s s' response e =
      same_answer (post_retry web platform storage web_actions now r s) (response, s') e
        (post_retry-IsProper web_actions now r s)
  respond-IsProper web_actions now Route.files r s s' response e = absurd cc
