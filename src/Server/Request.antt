-- ===== src/Server/Request.antt =====
-- What server.go reads of a request, and the functions of net/http, mime, net/url and
-- github.com/gofrs/uuid that it calls. Those are parameters.
use xwork.Prelude.{
  ℕ, ◌-◌, ◌^◌, Bool, true, false, ◌&&◌, ◌||◌, not, Option, none, some, List, [], ◌∷◌, String,
  string_eq, ◌==◌, leb, eqb, if◌then◌else◌, map, length, take, drop,
}
use xwork.Text.{Platform, codes, trim_space, lower_text}
use xwork.Job.{Uuid}

pub record Url : Type 0 where
  pub scheme : String
  pub host : String

pub record Request : Type 0 where
  pub method : String
  -- `r.URL.Path`
  pub path : String
  -- `r.PathValue`, `r.URL.Query().Get` and `r.Header.Get`
  pub path_value : String → String
  pub url_query : String → String
  pub header : String → String
  pub host : String
  -- `r.TLS != nil`
  pub tls : Bool
  -- the bytes of the body
  pub body : List ℕ

pub record Web : Type 0 where
  pub parse_media_type : String → Option String
  pub parse_url : String → Option Url
  pub uuid_from_string : String → Option Uuid
  -- one `Decode` into a map: whether the map is nil, and the bytes behind the value
  pub decode_object : List ℕ → Option (Bool × List ℕ)
  -- a `Decode` that gives `io.EOF`
  pub at_end : List ℕ → Bool
  -- a representative of a code point under `strings.EqualFold`
  pub fold : ℕ → ℕ

unfoldable pub same_points : List ℕ → List ℕ → Bool
same_points [] [] = true
same_points [] (b ∷ bs) = false
same_points (a ∷ as') [] = false
same_points (a ∷ as') (b ∷ bs) = eqb a b && same_points as' bs

-- `strings.HasSuffix`
abbrev has_suffix : List ℕ → List ℕ → Bool
has_suffix text suffix =
    if leb (length suffix) (length text)
    then same_points (drop (length text - length suffix) text) suffix
    else false

-- `strings.Split(text, ",")[0]`
unfoldable pub before_comma : List ℕ → List ℕ
before_comma [] = []
before_comma (c ∷ cs) = let rest = before_comma cs in if eqb c 44 then [] else c ∷ rest

module _ (web : Web) where
  -- `strings.EqualFold`
  abbrev pub equal_fold : List ℕ → List ℕ → Bool
  equal_fold a b = same_points (map web.fold a) (map web.fold b)

  abbrev is_json_type : Option String → Bool
  is_json_type none = false
  is_json_type (some media_type) =
      media_type == "application/json" || has_suffix (codes media_type) (codes "+json")

  unfoldable pub has_json_content_type : Request → Bool
  has_json_content_type r = is_json_type (web.parse_media_type (r.header "Content-Type"))

  abbrev is_object : Option (Bool × List ℕ) → Bool
  is_object none = false
  is_object (some (is_nil, rest)) = not is_nil && web.at_end rest

  unfoldable pub has_valid_json_object_body : Request → Bool
  has_valid_json_object_body r = is_object (web.decode_object (take (2 ^ 20) r.body))

  module _ (platform : Platform) where
    abbrev pub fetch_site : Request → List ℕ
    fetch_site r = lower_text platform (trim_space platform (codes (r.header "Sec-Fetch-Site")))

    -- `requestScheme`
    abbrev forwarded_scheme : List ℕ → Request → List ℕ
    forwarded_scheme [] r = if r.tls then codes "https" else codes "http"
    forwarded_scheme (c ∷ cs) r = lower_text platform (c ∷ cs)

    abbrev pub request_scheme : Request → List ℕ
    request_scheme r =
        forwarded_scheme (trim_space platform (before_comma (codes (r.header "X-Forwarded-Proto"))))
          r

    abbrev is_same_origin : Request → Option Url → Bool
    is_same_origin r none = false
    is_same_origin r (some origin) =
        if origin.host == "" || (not (origin.scheme == "http") && not (origin.scheme == "https"))
        then false
        else equal_fold (codes origin.host) (codes r.host)
          && equal_fold (codes origin.scheme) (request_scheme r)

    unfoldable pub is_same_origin_browser_request : Request → Bool
    is_same_origin_browser_request r =
        if same_points (fetch_site r) (codes "cross-site")
          || same_points (fetch_site r) (codes "same-site")
        then false
        else if r.header "Origin" == ""
        then true
        else is_same_origin r (web.parse_url (r.header "Origin"))
