-- ===== src/Sql/Engine/Filters.antt =====
-- What the conditions and arguments that `listJobs` of storage/sql.go collects mean to the engine.
use xwork.Prelude.{
  ℕ, Bool, true, false, ◌&&◌, ◌||◌, not, List, [], ◌∷◌, ◌++◌, String, ◌≡◌, refl, ◌==◌, string_eq,
  if◌then◌else◌, Bool-cases, inl, inr, ap, ◌∙◌,
}
use xwork.Text.{Platform, codes, trim_space, lower_text, contains_text}
use xwork.Job.{JobQuery}
use xwork.Memory.Query.{matches_job_query}
use xwork.Sql.Driver.{Value}
use xwork.Sql.Like.{like-containing, like}
use xwork.Sql.Query.{Filter, with_queue, with_query, list_text, containing}
use xwork.Sql.Engine.{Table, Stored, Select, list_select, text_of, all_hold, whole_of, argument}
use xwork.Sql.Engine.Texts.{source_of, plain_text, queue_text, search_text, queue_search_text}

abbrev pub has_text : List ℕ → Bool
has_text [] = false
has_text (c ∷ cs) = true

-- the filter, given the text to search for in lower case
abbrev pub filter : List ℕ → String → Filter
filter needle queue = with_query needle (with_queue queue (record { args = []; conditions = [] }))

-- the arguments of the statement
abbrev pub arguments : List ℕ → String → ℕ → ℕ → List Value
arguments needle queue asked offset =
    (filter needle queue).args ++ Value.whole asked ∷ Value.whole offset ∷ []

-- the statement that the filter belongs to
abbrev pub statement : Table → List ℕ → String → Select
statement table needle queue = list_select table (not (queue == "")) (has_text needle)

pub list_text-filter :
    (table : Table) (needle : List ℕ) (queue : String)
    → list_text (source_of table) (filter needle queue) ≡ text_of (statement table needle queue)
list_text-filter table [] queue = elim (Bool-cases (queue == "")) [
  | inl all ↦ rw all (plain_text (Value.whole 0) (Value.whole 0) table)
  | inr one ↦ rw one (queue_text (Value.text queue) (Value.whole 0) table)
]
list_text-filter table (c ∷ cs) queue = elim (Bool-cases (queue == "")) [
  | inl all ↦ rw all (search_text (Value.points (containing (c ∷ cs))) (Value.whole 0) table)
  | inr one ↦
      rw one (queue_search_text (Value.text queue) (Value.points (containing (c ∷ cs))) table)
]

module _ (table : Table) (asked offset : ℕ) where
  pub limit_argument :
      (needle : List ℕ) (queue : String)
      → whole_of
          (argument (statement table needle queue).limit (arguments needle queue asked offset))
        ≡ asked
  limit_argument [] queue = elim (Bool-cases (queue == "")) [
    | inl all ↦ rw all refl
    | inr one ↦ rw one refl
  ]
  limit_argument (c ∷ cs) queue = elim (Bool-cases (queue == "")) [
    | inl all ↦ rw all refl
    | inr one ↦ rw one refl
  ]

  pub offset_argument :
      (needle : List ℕ) (queue : String)
      → whole_of
          (argument (statement table needle queue).offset (arguments needle queue asked offset))
        ≡ offset
  offset_argument [] queue = elim (Bool-cases (queue == "")) [
    | inl all ↦ rw all refl
    | inr one ↦ rw one refl
  ]
  offset_argument (c ∷ cs) queue = elim (Bool-cases (queue == "")) [
    | inl all ↦ rw all refl
    | inr one ↦ rw one refl
  ]

-- the conditions joined by `AND`, as the nested tests of `matchesJobQuery`
and_test : (a b : Bool) → (a && (b && true)) ≡ (if not a then false else b)
and_test true true = refl
and_test true false = refl
and_test false b = refl

and_last : (b : Bool) → (b && true) ≡ b
and_last true = refl
and_last false = refl

like_either :
    (needle a b : List ℕ)
    → (like (containing needle) a || like (containing needle) b)
      ≡ (contains_text a needle || contains_text b needle)
like_either needle a b = rw (like-containing needle a, like-containing needle b) refl

module _ (platform : Platform) (query : JobQuery) (table : Table) (asked offset : ℕ)
    (stored : Stored) (id : ℕ) (name queue : String) (has_id : stored "id" ≡ Value.uuid id)
    (has_name : stored "name" ≡ Value.text name)
    (has_queue : stored "queue" ≡ Value.text queue) where
  pub all_hold-filter :
      (needle : List ℕ)
      → lower_text platform (trim_space platform (codes query.query)) ≡ needle
      → all_hold platform
          (arguments needle query.queue asked offset)
          (statement table needle query.queue).conditions
          stored
        ≡ matches_job_query platform query id name queue
  unfolding matches_job_query
  all_hold-filter [] e = elim (Bool-cases (query.queue == "")) [
    | inl all ↦ rw (e, all) refl
    | inr one ↦ rw (e, one, has_queue) (and_test (queue == query.queue) true)
  ]
  all_hold-filter (c ∷ cs) e = elim (Bool-cases (query.queue == "")) [
    | inl all ↦ rw (e, all, has_id, has_name) (and_last _ ∙ like_either (c ∷ cs) _ _)
    | inr one ↦
        rw (e, one, has_id, has_name, has_queue)
          (and_test (queue == query.queue) _
            ∙ ap (λ b. if not (queue == query.queue) then false else b) (like_either (c ∷ cs) _ _))
  ]
