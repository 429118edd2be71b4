-- ===== src/Server/Query.antt =====
-- `validJobType`, `parseJobQuery` and its helpers of server.go, with `strconv.ParseUint` and
-- `strconv.ParseBool`.
use xwork.Prelude.{
  ℕ, ◌+◌, ◌-◌, ◌*◌, ◌^◌, Bool, true, false, ◌&&◌, ◌||◌, Option, none, some, List, [], ◌∷◌, String,
  string_eq, ◌==◌, ltb, leb, eqb, if◌then◌else◌,
}
use xwork.Prelude.Result.{Result, ok, err, external, unsupported_job_type}
use xwork.Text.{Platform, codes, trim_string}
use xwork.Job.{JobType, JobQuery}
use xwork.Server.Request.{Request}

-- a conversion of a text to a job type is the type of that text
abbrev pub job_type : String → JobType
job_type raw =
    if raw == "scheduled"
    then JobType.scheduled
    else if raw == "enqueued"
    then JobType.enqueued
    else if raw == "processing"
    then JobType.processing
    else if raw == "processed"
    then JobType.processed
    else if raw == "failed"
    then JobType.failed
    else JobType.other raw

abbrev pub only_known : JobType → Result JobType
only_known (JobType.other raw) = err (unsupported_job_type raw)
only_known t = ok t

unfoldable pub valid_job_type : String → Result JobType
valid_job_type raw = only_known (job_type raw)

-- one digit of `strconv.ParseUint(raw, 10, 32)`: an error where the value needs more than 32 bits
abbrev pub next_digit : ℕ → ℕ → Option ℕ
next_digit n c =
    if leb 48 c && leb c 57 && ltb (n * 10 + (c - 48)) (2 ^ 32)
    then some (n * 10 + (c - 48))
    else none

unfoldable pub parse_digits : Option ℕ → List ℕ → Option ℕ
parse_digits none cs = none
parse_digits (some n) [] = some n
parse_digits (some n) (c ∷ cs) = parse_digits (next_digit n c) cs

-- `strconv.ParseUint(raw, 10, 32)`
abbrev pub parse_uint : List ℕ → Option ℕ
parse_uint [] = none
parse_uint (c ∷ cs) = parse_digits (some 0) (c ∷ cs)

-- `strconv.ParseBool`
abbrev pub parse_bool : String → Option Bool
parse_bool raw =
    if raw == "1" || raw == "t" || raw == "T" || raw == "true" || raw == "TRUE" || raw == "True"
    then some true
    else if raw == "0"
        || raw == "f"
        || raw == "F"
        || raw == "false"
        || raw == "FALSE"
        || raw == "False"
    then some false
    else none

unfoldable pub parse_uint_query : Request → String → ℕ → Option ℕ
parse_uint_query r key fallback =
    let raw = r.url_query key in if raw == "" then some fallback else parse_uint (codes raw)

unfoldable pub parse_bool_query : Request → String → Bool → Option Bool
parse_bool_query r key fallback =
    let raw = r.url_query key in if raw == "" then some fallback else parse_bool raw

module _ (platform : Platform) (r : Request) where
  abbrev pub with_all_queues : ℕ → ℕ → Option Bool → Result JobQuery
  with_all_queues limit offset none = err (external "allQueues must be a boolean")
  with_all_queues limit offset (some all_queues) = ok (record {
    query = trim_string platform (r.url_query "q");
    queue = r.url_query "queue";
    all_queues = all_queues;
    limit = limit;
    offset = offset;
  })

  abbrev pub with_offset : ℕ → Option ℕ → Result JobQuery
  with_offset limit none = err (external "offset must be a non-negative integer")
  with_offset limit (some offset) =
      with_all_queues limit offset (parse_bool_query r "allQueues" false)

  abbrev pub with_limit : Option ℕ → Result JobQuery
  with_limit none = err (external "limit must be between 1 and 100")
  with_limit (some limit) =
      if eqb limit 0 || ltb 100 limit
      then err (external "limit must be between 1 and 100")
      else with_offset limit (parse_uint_query r "offset" 0)

  unfoldable pub parse_job_query : Result JobQuery
  parse_job_query = with_limit (parse_uint_query r "limit" 25)
