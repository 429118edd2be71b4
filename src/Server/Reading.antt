-- ===== src/Server/Reading.antt =====
-- What `parseJobQuery` of server.go makes of the parameters of a request.
use xwork.Prelude.{
  ℕ, Bool, true, false, ◌&&◌, Option, none, some, String, string_eq, ◌==◌, leb, eqb, ltb, ◌||◌,
  if◌then◌else◌, ◌≡◌, ◌≢◌, refl, sym, subst, arith, inl, inr, Bool-cases,
}
use xwork.Prelude.Result.{Result, ok, err, external, unsupported_job_type}
use xwork.Text.{Platform, codes, trim_string}
use xwork.Job.{JobQuery, JobType}
use xwork.Server.Request.{Request}
use xwork.Server.Query.{
  valid_job_type, parse_uint, parse_bool, parse_uint_query, parse_bool_query, parse_job_query,
  with_limit, with_offset, with_all_queues,
}

-- The values of the parameters `limit`, `offset` and `allQueues`, each with its default where it is
-- not given, and none where `strconv` refuses its text.
abbrev pub limit_of : Request → Option ℕ
limit_of r = if r.url_query "limit" == "" then some 25 else parse_uint (codes (r.url_query "limit"))

abbrev pub offset_of : Request → Option ℕ
offset_of r =
    if r.url_query "offset" == "" then some 0 else parse_uint (codes (r.url_query "offset"))

abbrev pub all_queues_of : Request → Option Bool
all_queues_of r =
    if r.url_query "allQueues" == "" then some false else parse_bool (r.url_query "allQueues")

-- The query, by those values: the first that cannot be used is the reason of a refusal.
abbrev pub IsRead :
    Platform → Request → Option ℕ → Option ℕ → Option Bool → Result JobQuery → Type 0
IsRead platform r none offset all_queues q = q ≡ err (external "limit must be between 1 and 100")
IsRead platform r (some limit) none all_queues q =
    if leb 1 limit && leb limit 100
    then q ≡ err (external "offset must be a non-negative integer")
    else q ≡ err (external "limit must be between 1 and 100")
IsRead platform r (some limit) (some offset) none q =
    if leb 1 limit && leb limit 100
    then q ≡ err (external "allQueues must be a boolean")
    else q ≡ err (external "limit must be between 1 and 100")
IsRead platform r (some limit) (some offset) (some all_queues) q =
    if leb 1 limit && leb limit 100
    then q
      ≡ ok (record {
        query = trim_string platform (r.url_query "q");
        queue = r.url_query "queue";
        all_queues = all_queues;
        limit = limit;
        offset = offset;
      })
    else q ≡ err (external "limit must be between 1 and 100")

abbrev pub IsReading : Platform → Request → Result JobQuery → Type 0
IsReading platform r q = IsRead platform r (limit_of r) (offset_of r) (all_queues_of r) q

module _ (platform : Platform) (r : Request) where
  with_all_queues-IsRead :
      (limit offset : ℕ)
      → (eqb limit 0 || ltb 100 limit) ≡ false
      → (all_queues : Option Bool)
      → IsRead platform r
          (some limit)
          (some offset)
          all_queues
          (with_all_queues platform r limit offset all_queues)
  with_all_queues-IsRead limit offset inside none = ground (arith, inside)
  with_all_queues-IsRead limit offset inside (some all_queues) = ground (arith, inside)

  with_offset-IsRead :
      (limit : ℕ)
      → (eqb limit 0 || ltb 100 limit) ≡ false
      → (offset : Option ℕ)
      → IsRead platform r
          (some limit)
          offset
          (all_queues_of r)
          (with_offset platform r limit offset)
  unfolding parse_bool_query
  with_offset-IsRead limit inside none = ground (arith, inside)
  with_offset-IsRead limit inside (some offset) =
      with_all_queues-IsRead limit offset inside (all_queues_of r)

  refused-IsRead :
      (limit : ℕ) (offset : Option ℕ) (all_queues : Option Bool)
      → (eqb limit 0 || ltb 100 limit) ≡ true
      → IsRead platform r
          (some limit)
          offset
          all_queues
          (err (external "limit must be between 1 and 100"))
  refused-IsRead limit none all_queues outside = ground (arith, outside)
  refused-IsRead limit (some offset) none outside = ground (arith, outside)
  refused-IsRead limit (some offset) (some all_queues) outside = ground (arith, outside)

  with_limit-IsRead :
      (limit : Option ℕ)
      → IsRead platform r limit (offset_of r) (all_queues_of r) (with_limit platform r limit)
  unfolding parse_uint_query
  with_limit-IsRead none = refl
  with_limit-IsRead (some limit) = elim (Bool-cases (eqb limit 0 || ltb 100 limit)) [
    | inl outside ↦
        subst (λ q. IsRead platform r (some limit) (offset_of r) (all_queues_of r) q)
          (sym (rw outside refl)) (refused-IsRead limit (offset_of r) (all_queues_of r) outside)
    | inr inside ↦
        subst (λ q. IsRead platform r (some limit) (offset_of r) (all_queues_of r) q)
          (sym (rw inside refl)) (with_offset-IsRead limit inside (offset_of r))
  ]

  -- The query that is parsed is the one that the parameters say.
  pub parse_job_query-IsReading : IsReading platform r (parse_job_query platform r)
  unfolding parse_job_query parse_uint_query
  parse_job_query-IsReading = with_limit-IsRead (limit_of r)

-- The names of the five types.
abbrev pub named_type : JobType → String
named_type JobType.scheduled = "scheduled"
named_type JobType.enqueued = "enqueued"
named_type JobType.processing = "processing"
named_type JobType.processed = "processed"
named_type JobType.failed = "failed"
named_type (JobType.other raw) = raw

-- The type of that name, or the refusal of a text that is none of the five names.
abbrev pub IsJobType : String → Result JobType → Type 0
IsJobType raw (ok t) = raw ≡ named_type t
IsJobType raw (err e) =
    (e ≡ unsupported_job_type raw)
    × (raw ≢ "scheduled")
    × (raw ≢ "enqueued")
    × (raw ≢ "processing")
    × (raw ≢ "processed")
    × (raw ≢ "failed")

same-named : (raw name : String) → (raw == name) ≡ true → raw ≡ name
same-named raw name h = (string_eq.same_iff raw name).0 h

other-named : (raw name : String) → (raw == name) ≡ false → raw ≢ name
other-named raw name h e = let same = (string_eq.same_iff raw name).1 e in cc (h, same)

-- The type that is validated is the one of that name.
pub valid_job_type-IsJobType : (raw : String) → IsJobType raw (valid_job_type raw)
unfolding valid_job_type
valid_job_type-IsJobType raw = elim (Bool-cases (raw == "scheduled")) [
  | inl h ↦ rw h (same-named raw "scheduled" h)
  | inr h0 ↦ elim (Bool-cases (raw == "enqueued")) [
    | inl h ↦ rw (h0, h) (same-named raw "enqueued" h)
    | inr h1 ↦ elim (Bool-cases (raw == "processing")) [
      | inl h ↦ rw (h0, h1, h) (same-named raw "processing" h)
      | inr h2 ↦ elim (Bool-cases (raw == "processed")) [
        | inl h ↦ rw (h0, h1, h2, h) (same-named raw "processed" h)
        | inr h3 ↦ elim (Bool-cases (raw == "failed")) [
          | inl h ↦ rw (h0, h1, h2, h3, h) (same-named raw "failed" h)
          | inr h4 ↦
              rw (h0, h1, h2, h3, h4)
                (
                  refl,
                  other-named raw "scheduled" h0,
                  other-named raw "enqueued" h1,
                  other-named raw "processing" h2,
                  other-named raw "processed" h3,
                  other-named raw "failed" h4,
                )
        ]
      ]
    ]
  ]
]
