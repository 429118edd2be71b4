-- ===== src/Server/Bounds.antt =====
-- What `parseJobQuery` of server.go lets through.
use xwork.Prelude.{
  ℕ, ◌≤◌, ◌<◌, ◌^◌, Bool, false, Option, none, some, List, [], ◌∷◌, String, ◌≡◌, refl, arith, ltb,
  eqb, Bool-cases, string_eq, ◌==◌, ◌||◌, ◌≢◌, inl, inr,
}
use xwork.Prelude.Result.{ok}
use xwork.Text.{Platform, codes}
use xwork.Job.{JobType, JobQuery}
use xwork.Server.Request.{Request}
use xwork.Server.Query.{
  parse_digits, parse_uint, job_type, only_known, next_digit, parse_uint_query, parse_bool_query,
  parse_job_query, valid_job_type, with_limit, with_offset, with_all_queues,
}

parse_digits-lt :
    (o : Option ℕ) (cs : List ℕ) (n : ℕ)
    → ((k : ℕ) → o ≡ some k → k < 2 ^ 32)
    → parse_digits o cs ≡ some n
    → n < 2 ^ 32
unfolding parse_digits
parse_digits-lt none cs n h e = cc
parse_digits-lt (some m) [] n h e = h n e
parse_digits-lt (some m) (c ∷ cs) n h e =
    parse_digits-lt (next_digit m c) cs n (λ k f. ground arith) e

parse_uint-lt : (cs : List ℕ) (n : ℕ) → parse_uint cs ≡ some n → n < 2 ^ 32
parse_uint-lt [] n e = cc
parse_uint-lt (c ∷ cs) n e = parse_digits-lt (some 0) (c ∷ cs) n (λ k f. ground arith) e

parse_uint_query-lt :
    (r : Request) (key : String) (fallback n : ℕ)
    → fallback < 2 ^ 32
    → parse_uint_query r key fallback ≡ some n
    → n < 2 ^ 32
unfolding parse_uint_query
parse_uint_query-lt r key fallback n h e = elim (Bool-cases (r.url_query key == "")) [
  | inl empty ↦ ground (arith, empty, e, h)
  | inr given ↦ parse_uint-lt (codes (r.url_query key)) n (rw given at e)
]

module _ (platform : Platform) (r : Request) (q : JobQuery) where
  abbrev Bounded : Type 0
  Bounded = (1 ≤ q.limit) × (q.limit ≤ 100) × (q.offset < 2 ^ 32)

  with_all_queues-Bounded :
      (limit offset : ℕ) (o : Option Bool)
      → 1 ≤ limit
      → limit ≤ 100
      → offset < 2 ^ 32
      → with_all_queues platform r limit offset o ≡ ok q
      → Bounded
  with_all_queues-Bounded limit offset none low high fits e = cc
  with_all_queues-Bounded limit offset (some b) low high fits e = ground (arith, e)

  with_offset-Bounded :
      (limit : ℕ) (o : Option ℕ)
      → 1 ≤ limit
      → limit ≤ 100
      → ((n : ℕ) → o ≡ some n → n < 2 ^ 32)
      → with_offset platform r limit o ≡ ok q
      → Bounded
  with_offset-Bounded limit none low high fits e = cc
  with_offset-Bounded limit (some offset) low high fits e =
      with_all_queues-Bounded limit offset (parse_bool_query r "allQueues" false) low high
        (fits offset refl) e

  with_limit-Bounded : (o : Option ℕ) → with_limit platform r o ≡ ok q → Bounded
  with_limit-Bounded none e = cc
  with_limit-Bounded (some limit) e = elim (Bool-cases (eqb limit 0 || ltb 100 limit)) [
    | inl outside ↦ cc (outside, e)
    | inr inside ↦
        with_offset-Bounded limit (parse_uint_query r "offset" 0) (ground (arith, inside))
          (ground (arith, inside)) (λ n. parse_uint_query-lt r "offset" 0 n (omega arith))
          (rw inside at e)
  ]

-- A query that `parseJobQuery` accepts has a limit from 1 to 100, and an offset below 2^32.
pub parse_job_query_bounds :
    (platform : Platform) (r : Request) (q : JobQuery)
    → parse_job_query platform r ≡ ok q
    → (1 ≤ q.limit) × (q.limit ≤ 100) × (q.offset < 2 ^ 32)
unfolding parse_job_query
parse_job_query_bounds platform r q e =
    with_limit-Bounded platform r q (parse_uint_query r "limit" 25) e

-- A type that `validJobType` accepts is one of the five.
pub valid_job_type-known :
    (raw text : String) (t : JobType) → valid_job_type raw ≡ ok t → t ≢ JobType.other text
unfolding valid_job_type
valid_job_type-known raw text t e = only_known-known (job_type raw) e
  where
    only_known-known : (u : JobType) → only_known u ≡ ok t → t ≢ JobType.other text
    only_known-known JobType.scheduled e = λ f. cc
    only_known-known JobType.enqueued e = λ f. cc
    only_known-known JobType.processing e = λ f. cc
    only_known-known JobType.processed e = λ f. cc
    only_known-known JobType.failed e = λ f. cc
    only_known-known (JobType.other raw) e = cc
