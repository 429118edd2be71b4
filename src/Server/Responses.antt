-- ===== src/Server/Responses.antt =====
-- How server.go writes its answers: `doWriteJson` and what calls it, and `ResponseWriterWithCode`.
pub mod Delivery
pub mod Laws
use xwork.Prelude.{ℕ, Bool, String, List, [], ◌∷◌}
use xwork.Prelude.Result.{Action, Result, ok, err, pure, ◌>>=◌, ◌>>◌}
use xwork.Job.{EnqueuedJob, Jobs}
use xwork.Server.Routes.{Response, Body}

-- `http.ResponseWriter`, which is not the program's
pub record ResponseWriter : Type 1 where
  pub Writer : Type 0
  -- `w.Header().Set`
  pub set_header : String → String → Writer → Writer
  pub write_header : ℕ → Writer → Writer
  pub write : String → Action Writer ℕ

-- the fields of `ResponseWriterWithCode`
pub record WithCode (Writer : Type 0) : Type 0 where
  pub code : ℕ
  pub inner : Writer

-- `ResponseWriterWithCode`: `WriteHeader` is its own, the other methods are those of the writer
abbrev pub response_writer_with_code : ResponseWriter → ResponseWriter
response_writer_with_code net = record {
  Writer = WithCode net.Writer;
  set_header = λ key value w. record w { inner = net.set_header key value w.inner };
  write_header = λ code w. record { code = code; inner = net.write_header code w.inner };
  write = λ text w. let (r, inner) = net.write text w.inner in (r, record w { inner = inner });
}

-- what the answers are made of
pub data Content : Type 0 where
  text : String → Content
  number : ℕ → Content
  flags : List (String × Bool) → Content
  jobs : Jobs → Content
  -- the object with one job, under a key
  job_under : String → EnqueuedJob → Content

abbrev pub JsonObject : Type 0
JsonObject = List (String × Content)

-- `json.Marshal` of such an object
abbrev pub Marshal : Type 0
Marshal = JsonObject → Result String

module _ (net : ResponseWriter) (marshal : Marshal) where
  open net use {Writer}

  -- the end of `doWriteJson`
  abbrev pub send_json : String → ℕ → Action Writer (Unit {0})
  send_json json_text code w =
      (net.write json_text >> pure tt)
        (net.write_header code (net.set_header "Content-Type" "application/json" w))

  abbrev pub write_marshalled : Result String → ℕ → Action Writer (Unit {0})
  write_marshalled (err e) code w = (err e, w)
  write_marshalled (ok json_text) code w = send_json json_text code w

  unfoldable pub do_write_json : JsonObject → ℕ → Action Writer (Unit {0})
  do_write_json object code = write_marshalled (marshal object) code

  -- a failure is only logged
  unfoldable pub write_json_error : String → ℕ → Writer → Writer
  write_json_error message code w = (do_write_json (("error", Content.text message) ∷ []) code w).1

  -- what `writeJsonData` and `writeJsonDataWithMeta` do after `doWriteJson`
  abbrev pub or_internal_error : Result (Unit {0}) × Writer → Writer
  or_internal_error (ok _, w) = w
  or_internal_error (err e, w) = write_json_error "internal server error" 500 w

  unfoldable pub write_json_data : Content → Writer → Writer
  write_json_data content w = or_internal_error (do_write_json (("data", content) ∷ []) 200 w)

  unfoldable pub write_json_data_with_meta : Content → Content → Writer → Writer
  write_json_data_with_meta content meta w =
      or_internal_error (do_write_json (("data", content) ∷ ("meta", meta) ∷ []) 200 w)

  -- the writing in the handlers of `ServeMux`; a handler that has panicked writes nothing
  unfoldable pub write_response : Response → Writer → Writer
  write_response r = write_body r.body
    where
      write_body : Body → Writer → Writer
      write_body (Body.failure message) w = write_json_error message r.code w
      write_body (Body.capabilities read_only job_query retry_failed) w =
          write_json_data
            (Content.flags (
              ("readOnly", read_only)
              ∷ ("jobQuery", job_query)
              ∷ ("retryFailed", retry_failed)
              ∷ []))
            w
      write_body (Body.counted count) w = write_json_data (Content.number count) w
      write_body (Body.listed found has_more) w =
          write_json_data_with_meta (Content.jobs found)
            (Content.flags (("hasMore", has_more) ∷ [])) w
      write_body (Body.retried job) w = write_json_data (Content.job_under "job" job) w
      write_body Body.aborted w = w
