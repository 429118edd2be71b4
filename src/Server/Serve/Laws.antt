-- ===== src/Server/Serve/Laws.antt =====
-- The server of `Serve` at work on one request of the API.
use Prim.Native.String.{◌++◌ as ◌<>◌}
use xwork.Prelude.{ℕ, Bool, Option, none, some, String, ◌≡◌, ◌≢◌, refl, ap, ◌∙◌}
use xwork.Prelude.Result.{ok}
use xwork.Text.{Platform}
use xwork.Job.{Time}
use xwork.Storage.{StorageAdapter}
use xwork.Server.Request.{Request, Web}
use xwork.Server.Routes.{Response, Body}
use xwork.Server.Responses.{
  ResponseWriter, WithCode, response_writer_with_code, Marshal, write_response,
}
use xwork.Server.Responses.Delivery.{IsProper, delivered}
use xwork.Server.Responses.Laws.{write_response-delivered}
use xwork.Server.Serve.Codes.{respond-IsProper}
use xwork.Server.Serve.{
  env, serve_route, Http, Route, routes, RequestLog, HttpServer, Handler, respond, written,
  serve_mux, log_request, serve,
}

module _ (net : ResponseWriter) (marshal : Marshal) where
  -- The calls of the answer are made, with a code for which there can be a body, and the log has the
  -- request with the code; after a panic there is no log.
  abbrev IsLogged : Request → net.Writer → ℕ → Body → Option (RequestLog × net.Writer) → Type 0
  IsLogged r w code Body.aborted out = out ≡ none
  IsLogged r w code body none = ⊥
  IsLogged r w code body (some (log, after)) =
      let (written, logged) = delivered net marshal code body w in
      (after ≡ written) × (log ≡ record { code = logged; method = r.method; path = r.path })

  abbrev pub IsAnswered :
      {Store : Type 0}
      → Request
      → net.Writer
      → Response × Store
      → Option (RequestLog × net.Writer) × Store
      → Type 0
  IsAnswered r w (response, s') (out, t) =
      (t ≡ s') × IsProper response.code response.body × IsLogged r w response.code response.body out

module _ (web : Web) (platform : Platform) (storage : StorageAdapter) (web_actions : Bool)
    (now : Time) (net : ResponseWriter) (marshal : Marshal) (http : Http (WithCode net.Writer))
    (sub_fs images_fs : http.FileSystem) (getenv : String → String) where
  open storage use {Store}

  abbrev mux : Request → Store → WithCode net.Writer → Option (WithCode net.Writer) × Store
  mux r s w =
      serve_route web platform storage web_actions now (response_writer_with_code net) marshal http
        (http.select routes r) sub_fs images_fs r s w

  serve_mux-found :
      http.sub http.static_fs "static" ≡ ok sub_fs
      → http.sub sub_fs "images" ≡ ok images_fs
      → serve_mux web platform storage web_actions now (response_writer_with_code net) marshal http
        ≡ ok mux
  unfolding serve_mux
  serve_mux-found static images = rw (serve_mux, static, images) refl

  abbrev server : HttpServer (Handler web platform storage web_actions now net marshal http)
  server = record {
    addr = env getenv "HOST" "0.0.0.0" <> ":" <> env getenv "PORT" "8080";
    handler = log_request web platform storage web_actions now net marshal http mux;
    read_timeout = 5;
    write_timeout = 5;
  }

  abbrev log_of : Request → ℕ → RequestLog
  log_of r code = record { code = code; method = r.method; path = r.path }

  logged :
      (r : Request) (w : net.Writer) (code : ℕ) (body : Body)
      → body ≢ Body.aborted
      → let w' =
          write_response
            (response_writer_with_code net)
            marshal
            (record { code = code; body = body })
            (record { code = 0; inner = w }) in
        let (written, known) = delivered net marshal code body w in
        (w'.inner ≡ written) × (log_of r w'.code ≡ log_of r known)
  logged r w code body calm =
      let same = write_response-delivered net marshal code body w calm in
      (ap (λ v. v.inner) same, ap (λ v. log_of r v.code) same)

  -- the answer, once it is known which one it is
  log_request-IsAnswered :
      (r : Request) (s s' : Store) (w : net.Writer) (code : ℕ) (body : Body)
      → IsProper code body
      → mux r s (record { code = 0; inner = w })
        ≡ written web platform storage web_actions now
            (response_writer_with_code net)
            marshal
            http
            (some (record { code = code; body = body }, s'))
            sub_fs
            images_fs
            r
            s
            (record { code = 0; inner = w })
      → IsAnswered net marshal r w
          (record { code = code; body = body }, s')
          (log_request web platform storage web_actions now net marshal http mux r s w)
  unfolding log_request
  log_request-IsAnswered r s s' w code (Body.failure message) proper e =
      rw e (refl, proper, logged r w code (Body.failure message) (λ h. cc))
  log_request-IsAnswered r s s' w code (Body.capabilities read_only job_query retry_failed) proper
        e =
      rw e (
        refl,
        proper,
        logged r w code (Body.capabilities read_only job_query retry_failed) (λ h. cc),
      )
  log_request-IsAnswered r s s' w code (Body.counted count) proper e =
      rw e (refl, proper, logged r w code (Body.counted count) (λ h. cc))
  log_request-IsAnswered r s s' w code (Body.listed found has_more) proper e =
      rw e (refl, proper, logged r w code (Body.listed found has_more) (λ h. cc))
  log_request-IsAnswered r s s' w code (Body.retried job) proper e =
      rw e (refl, proper, logged r w code (Body.retried job) (λ h. cc))
  log_request-IsAnswered r s s' w code Body.aborted proper e = rw e (refl, proper, refl)

  -- Where the files are there, `Serve` sets up a server. On a request that the mux gives to a
  -- handler of the API, it leaves the store as the handler does. If the handler panicked, there
  -- is no log. Otherwise the code of the answer is one that can have a body, and the writer is
  -- that after the calls of `delivered`, whatever net/http makes of them: the content type, the
  -- code and the marshalled answer, and, for an answer with data that cannot be marshalled or
  -- whose write fails, those of the internal error, unless that cannot be marshalled. The log has
  -- the request with the last code that was set, or 0 where nothing was called.
  pub serve-IsAnswered :
      http.sub http.static_fs "static" ≡ ok sub_fs
      → http.sub sub_fs "images" ≡ ok images_fs
      → (r : Request) (route : Route) (s : Store) (w : net.Writer) (answer : Response × Store)
      → http.select routes r ≡ some route
      → respond web platform storage web_actions now route r s ≡ some answer
      → (server : HttpServer (Handler web platform storage web_actions now net marshal http))
        × (serve web platform storage web_actions now net marshal http getenv ≡ ok server)
        × IsAnswered net marshal r w answer (server.handler r s w)
  unfolding serve
  serve-IsAnswered static images r route s w (response, s') selected responded = (
    server,
    rw (serve, serve_mux-found static images) refl,
    log_request-IsAnswered r s s' w response.code response.body
        (respond-IsProper web platform storage web_actions now route r s s' response responded)
        (ap
            (λ found.
              serve_route web platform storage web_actions now (response_writer_with_code net)
                marshal http found sub_fs images_fs r s (record { code = 0; inner = w }))
            selected
          ∙ ap
              (λ found.
                written web platform storage web_actions now (response_writer_with_code net) marshal
                  http found sub_fs images_fs r s (record { code = 0; inner = w }))
              responded),
  )
