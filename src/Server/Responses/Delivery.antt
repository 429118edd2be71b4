-- ===== src/Server/Responses/Delivery.antt =====
-- The calls of net/http that an answer of server.go consists of, whatever net/http makes of them: the
-- writer that they lead to, and the code that the log has.
use xwork.Prelude.{ℕ, Bool, true, String, [], ◌∷◌, ◌≡◌, leb, ltb, eqb, not, ◌&&◌}
use xwork.Prelude.Result.{Action, Result, ok, err}
use xwork.Server.Routes.{Body}
use xwork.Server.Responses.{ResponseWriter, Content, JsonObject, Marshal}

-- the codes of an answer with a body: not the informational ones, nor 204 and 304
abbrev has_body : ℕ → Bool
has_body code = leb 200 code && ltb code 600 && not (eqb code 204) && not (eqb code 304)

-- The code that a handler answers with is one of those.
abbrev pub IsProper : ℕ → Body → Type 0
IsProper code Body.aborted = Unit {0}
IsProper code _ = has_body code ≡ true

abbrev pub internal_error : JsonObject
internal_error = ("error", Content.text "internal server error") ∷ []

abbrev pub object_of : Body → JsonObject
object_of (Body.failure message) = ("error", Content.text message) ∷ []
object_of (Body.capabilities read_only job_query retry_failed) =
    (
      "data",
      Content.flags
          (("readOnly", read_only) ∷ ("jobQuery", job_query) ∷ ("retryFailed", retry_failed) ∷ []),
    )
    ∷ []
object_of (Body.counted count) = ("data", Content.number count) ∷ []
object_of (Body.listed found has_more) =
    ("data", Content.jobs found) ∷ ("meta", Content.flags (("hasMore", has_more) ∷ [])) ∷ []
object_of (Body.retried job) = ("data", Content.job_under "job" job) ∷ []
object_of Body.aborted = []

module _ (net : ResponseWriter) where
  -- a text with its content type and a status, and what its writing returns
  abbrev sent : String → ℕ → Action net.Writer ℕ
  sent text code w =
      let typed = net.set_header "Content-Type" "application/json" w in
      net.write text (net.write_header code typed)

  -- An error answer, by what `json.Marshal` makes of it, after a writer and a code for the log. Where
  -- `json.Marshal` fails, nothing is called.
  abbrev pub refusal : ℕ → Result String → net.Writer × ℕ → net.Writer × ℕ
  refusal code (ok text) (w, logged) = ((sent text code w).1, code)
  refusal code (err e) (w, logged) = (w, logged)

  -- after the text of an answer with data: the internal error follows where its writing failed
  abbrev pub after_text : Result String → Result ℕ × net.Writer → net.Writer × ℕ
  after_text internal (ok n, w) = (w, 200)
  after_text internal (err e, w) = refusal 500 internal (w, 200)

  -- An answer with data, by what `json.Marshal` makes of it and of the internal error.
  abbrev pub success : Result String → Result String → net.Writer → net.Writer × ℕ
  success (ok text) internal w = after_text internal (sent text 200 w)
  success (err e) internal w = refusal 500 internal (w, 0)

  abbrev pub delivered : Marshal → ℕ → Body → net.Writer → net.Writer × ℕ
  delivered marshal code (Body.failure message) w =
      refusal code (marshal (object_of (Body.failure message))) (w, 0)
  delivered marshal code body w = success (marshal (object_of body)) (marshal internal_error) w
