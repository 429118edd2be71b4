-- ===== src/Server/Serve.antt =====
-- `ServeMux` and `Serve` of server.go: the routes, the files, and the handler around them that logs.
pub mod Codes
pub mod Laws
use Prim.Native.String.{◌++◌ as ◌<>◌}
use xwork.Prelude.{
  ℕ, Bool, Option, none, some, String, List, [], ◌∷◌, string_eq, ◌==◌, if◌then◌else◌,
}
use xwork.Prelude.Result.{Result, ok, err}
use xwork.Text.{Platform}
use xwork.Job.{Time}
use xwork.Storage.{StorageAdapter}
use xwork.Server.Request.{Request, Web}
use xwork.Server.Routes.{Response, Body, get_capabilities, get_count, get_jobs, post_retry}
use xwork.Server.Responses.{
  ResponseWriter, WithCode, response_writer_with_code, Marshal, write_response,
}

-- `env` of util.go; an unset variable reads as the empty text
unfoldable pub env : (String → String) → String → String → String
env getenv key fallback = if getenv key == "" then fallback else getenv key

-- The handlers of `ServeMux`, and the patterns they are registered under, in the code's order.
pub data Route : Type 0 where
  capabilities count list retry files : Route

abbrev pub routes : List (String × Route)
routes =
    ("GET /api/capabilities", Route.capabilities)
    ∷ ("GET /api/count/{jobType}", Route.count)
    ∷ ("GET /api/jobs/{jobType}", Route.list)
    ∷ ("POST /api/jobs/failed/{id}/retry", Route.retry)
    ∷ ("/", Route.files)
    ∷ []

-- What `ServeMux` and `Serve` call of net/http and io/fs, for writers of one kind.
pub record Http (Writer : Type 0) : Type 1 where
  -- `ServeMux.ServeHTTP`: the handler of the pattern that fits, and what is sent where none does
  pub select : List (String × Route) → Request → Option Route
  pub unmatched : Request → Writer → Writer
  pub FileSystem : Type 0
  pub static_fs : FileSystem
  pub sub : FileSystem → String → Result FileSystem
  -- whether `Open` of a path succeeds
  pub opens : FileSystem → String → Bool
  pub file_server : FileSystem → Request → Writer → Writer
  pub strip_prefix : String → (Request → Writer → Writer) → Request → Writer → Writer

-- the record of a request in the log, less its duration
pub record RequestLog : Type 0 where
  pub code : ℕ
  pub method : String
  pub path : String

module _ (web : Web) (platform : Platform) (storage : StorageAdapter) (web_actions : Bool)
    (now : Time) where
  open storage use {Store}

  -- the handlers of the API up to the writing
  unfoldable pub respond : Route → Request → Store → Option (Response × Store)
  respond Route.capabilities r s = some (get_capabilities web platform storage web_actions, s)
  respond Route.count r s = some (get_count web platform storage r s)
  respond Route.list r s = some (get_jobs web platform storage r s)
  respond Route.retry r s = some (post_retry web platform storage web_actions now r s)
  respond Route.files r s = none

  module _ (net : ResponseWriter) (marshal : Marshal) where
    open net use {Writer}

    module _ (http : Http Writer) where
      open http use {FileSystem}

      -- the handler of "/", in front of the two file servers
      unfoldable pub serve_file : FileSystem → FileSystem → Request → Writer → Writer
      serve_file sub_fs images_fs = http.strip_prefix "/" λ r w.
          let framed =
            net.set_header "X-Frame-Options" "DENY"
              (net.set_header "Content-Security-Policy" "frame-ancestors 'none'" w) in
          if http.opens images_fs r.path
          then http.file_server images_fs r framed
          else http.file_server sub_fs r framed

      -- A handler that panics has no writer to go on with.
      abbrev pub written :
          Option (Response × Store)
          → FileSystem
          → FileSystem
          → Request
          → Store
          → Writer
          → Option Writer × Store
      written none sub_fs images_fs r s w = (some (serve_file sub_fs images_fs r w), s)
      written (some (response, s')) sub_fs images_fs r s w = (finish response.body, s')
        where
          finish : Body → Option Writer
          finish Body.aborted = none
          finish _ = some (write_response net marshal response w)

      abbrev pub serve_route :
          Option Route → FileSystem → FileSystem → Request → Store → Writer → Option Writer × Store
      serve_route none sub_fs images_fs r s w = (some (http.unmatched r w), s)
      serve_route (some route) sub_fs images_fs r s w =
          written (respond route r s) sub_fs images_fs r s w

      -- `ServeMux`: the handler of every request, or why the files are not there
      unfoldable pub serve_mux : Result (Request → Store → Writer → Option Writer × Store)
      serve_mux = elim (http.sub http.static_fs "static") [
        | err e ↦ err e
        | ok sub_fs ↦ elim (http.sub sub_fs "images") [
          | err e ↦ err e
          | ok images_fs ↦ ok (λ r s w. serve_route (http.select routes r) sub_fs images_fs r s w)
        ]
      ]

-- the fields of `http.Server` that `Serve` sets; times are in seconds
pub record HttpServer (Handler : Type 0) : Type 0 where
  pub addr : String
  pub handler : Handler
  pub read_timeout : ℕ
  pub write_timeout : ℕ

module _ (web : Web) (platform : Platform) (storage : StorageAdapter) (web_actions : Bool)
    (now : Time) (net : ResponseWriter) (marshal : Marshal)
    (http : Http (WithCode net.Writer)) where
  open storage use {Store}
  open net use {Writer}

  abbrev pub Handler : Type 0
  Handler = Request → Store → Writer → Option (RequestLog × Writer) × Store

  -- the handler of `Serve` around that of the mux; a panic goes past the log
  unfoldable pub log_request :
      (Request → Store → WithCode Writer → Option (WithCode Writer) × Store) → Handler
  log_request mux r s w = logged (mux r s (record { code = 0; inner = w }))
    where
      logged : Option (WithCode Writer) × Store → Option (RequestLog × Writer) × Store
      logged (none, s') = (none, s')
      logged (some w', s') =
          (some (record { code = w'.code; method = r.method; path = r.path }, w'.inner), s')

  -- `Serve` up to `ListenAndServe`: the server, or why there is none
  unfoldable pub serve : (String → String) → Result (HttpServer Handler)
  serve getenv =
      elim (serve_mux web platform storage web_actions now (response_writer_with_code net) marshal
        http) [
          | err e ↦ err e
          | ok mux ↦ ok (record {
            addr = env getenv "HOST" "0.0.0.0" <> ":" <> env getenv "PORT" "8080";
            handler = log_request mux;
            read_timeout = 5;
            write_timeout = 5;
          })
        ]
