-- ===== src/Tests/Serve.antt =====
-- The witness of the server of `Serve` (server.go): a retry clicked in the web UI.
use xwork.Prelude.{
  ℕ, true, none, some, String, List, [], ◌∷◌, ◌≡◌, refl, string_eq, nat_eq, ◌==◌, if◌then◌else◌,
}
use xwork.Prelude.Result.{ok, err, external}
use xwork.Memory.Adapter.{memory_adapter}
use xwork.Server.Routes.{post_retry}
use xwork.Server.Responses.{ResponseWriter, WithCode, Marshal}
use xwork.Server.Serve.{Http, Route, HttpServer, Handler, respond, serve}
use xwork.Server.Serve.Laws.{IsAnswered, serve-IsAnswered}
use xwork.Tests.{ascii, busy}
use xwork.Tests.Web.{web, click}

-- what has been called, the last call first
data Call : Type 0 where
  set_header : String → String → Call
  write_header : ℕ → Call
  write : String → Call

-- a connection that is down: the calls are noted, and every write fails
abbrev wire : ResponseWriter
wire = record {
  Writer = List Call;
  set_header = λ key value calls. Call.set_header key value ∷ calls;
  write_header = λ code calls. Call.write_header code ∷ calls;
  write = λ text calls. (err (external "broken pipe"), Call.write text ∷ calls);
}

abbrev braces : Marshal
braces object = ok "{}"

abbrev http : Http (WithCode (List Call))
http = record {
  select = λ patterns r. if r.method == "POST" then some Route.retry else none;
  unmatched = λ r w. w;
  FileSystem = ℕ;
  static_fs = 0;
  sub = λ fs dir. ok (if dir == "static" then 1 else 2);
  opens = λ fs path. true;
  file_server = λ fs r w. w;
  strip_prefix = λ prefix serve_stripped. serve_stripped;
}

posted :
    respond web ascii (memory_adapter ascii) true 60 Route.retry click busy
    ≡ some (post_retry web ascii (memory_adapter ascii) true 60 click busy)
unfolding respond
posted = refl

serve-IsAnswered_example :
    (server : HttpServer (Handler web ascii (memory_adapter ascii) true 60 wire braces http))
    × (serve web ascii (memory_adapter ascii) true 60 wire braces http (λ key. "") ≡ ok server)
    × IsAnswered wire braces click []
        (post_retry web ascii (memory_adapter ascii) true 60 click busy)
        (server.handler click busy [])
serve-IsAnswered_example =
    serve-IsAnswered web ascii (memory_adapter ascii) true 60 wire braces http 1 2 (λ key. "") refl
      refl click Route.retry busy []
      (post_retry web ascii (memory_adapter ascii) true 60 click busy) refl posted
