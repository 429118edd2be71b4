-- ===== src/Tests/Web.antt =====
-- Witnesses of the web server (server.go) on the in-memory adapter.
use xwork.Prelude.{
  ℕ, ◌+◌, true, false, none, some, List, [], ◌∷◌, ◌≡◌, refl, arith, nat_eq, string_eq, ◌==◌,
  if◌then◌else◌, ◌⊎◌,
}
use xwork.GoMap.{lookup, set, delete}
use xwork.Text.{trim_space}
use xwork.Processor.Moves.{enqueued_from_failed}
use xwork.Server.Request.{
  Request, Web, is_same_origin_browser_request, has_json_content_type, has_valid_json_object_body,
  same_points, before_comma,
}
use xwork.Server.Query.{parse_job_query, valid_job_type}
use xwork.Server.Reading.{IsReading, IsJobType}
use xwork.Server.Listing.{IsListing, get_jobs-IsListing}
use xwork.Server.Routes.{answer, get_jobs, post_retry, Body}
use xwork.Server.Actions.{IsAllowed, IsRefused, IsRetried, post_retry_lem, post_retry-allowed}
use xwork.Memory.Adapter.{memory_adapter}
use xwork.Memory.Paging.{paginate, paginate_with_more}
use xwork.Server.Lookahead.{with_lookahead, trim_lookahead-paginate}
use xwork.Tests.{ascii, ascii_lower, busy, busy-IsValid, report}

abbrev four : List ℕ
four = 1 ∷ 2 ∷ 3 ∷ 4 ∷ []

trim_lookahead-paginate_example :
    with_lookahead 2 (paginate four (2 + 1) 1) ≡ paginate_with_more four 2 1
trim_lookahead-paginate_example = trim_lookahead-paginate four 2 1 (omega arith) (omega arith)

abbrev pub web : Web
web = record {
  parse_media_type = λ text. some text;
  parse_url = λ text. some (record { scheme = "https"; host = "jobs.example.org" });
  uuid_from_string = λ text. if text == "3" then some 3 else none;
  decode_object = λ body. some (false, []);
  at_end = λ rest. true;
  fold = ascii_lower;
}

-- a click on the page of the failed job 3, or a list of the failed jobs
abbrev pub click : Request
click = record {
  method = "POST";
  path = "/api/jobs/failed/3/retry";
  path_value = λ key. if key == "id" then "3" else "failed";
  url_query = λ key. "";
  header = λ key.
      if key == "Content-Type"
      then "application/json"
      else if key == "Origin"
      then "https://jobs.example.org"
      else "";
  host = "jobs.example.org";
  tls = true;
  body = 123 ∷ 125 ∷ [];
}

get_jobs-IsListing_example :
    IsReading ascii click (parse_job_query ascii click)
    × IsJobType "failed" (valid_job_type "failed")
    × IsListing ascii
        (valid_job_type "failed")
        (parse_job_query ascii click)
        busy
        (get_jobs web ascii (memory_adapter ascii) click busy)
get_jobs-IsListing_example =
    get_jobs-IsListing web ascii click busy busy-IsValid
      (omega arith, omega arith, omega arith, omega arith, omega arith)

post_retry_lem_example :
    IsRefused busy (post_retry web ascii (memory_adapter ascii) true 60 click busy)
    ⊎ (IsAllowed web ascii true click
        × ((id : ℕ) × (web.uuid_from_string "3" ≡ some id)
            × IsRetried 60 id busy
                (post_retry web ascii (memory_adapter ascii) true 60 click busy)))
post_retry_lem_example = post_retry_lem web ascii 60 click busy busy-IsValid true

allowed : IsAllowed web ascii true click
unfolding is_same_origin_browser_request has_json_content_type has_valid_json_object_body
    same_points before_comma trim_space
allowed = (refl, refl, refl, refl)

failed_there : lookup 3 busy.failed ≡ some report
unfolding lookup
failed_there = refl

queue_free : lookup 3 busy.enqueued ≡ none
unfolding lookup
queue_free = refl

post_retry-allowed_example : post_retry web ascii (memory_adapter ascii) true 60 click busy ≡ (
  answer (Body.retried (enqueued_from_failed 60 report)),
  record busy {
    failed = delete 3 busy.failed;
    enqueued = set 3 (enqueued_from_failed 60 report) busy.enqueued;
  },
)
post_retry-allowed_example =
    post_retry-allowed web ascii 60 click busy busy-IsValid true 3 report allowed refl failed_there
      queue_free
