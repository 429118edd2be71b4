-- ===== src/Sql/Engine.antt =====
-- What a database does with the statements that `listJobs` of storage/sql.go sends: a syntax of
-- such statements, their text, and the rows that SQL gives for them.
pub mod Texts
pub mod Filters
pub mod Writes
pub mod Inserts
pub mod Oldest
use Prim.Native.String.{◌++◌ as ◌<>◌}
use xwork.Prelude.{
  ℕ, suc, ◌+◌, Bool, true, false, ◌&&◌, ◌||◌, List, [], ◌∷◌, map, String, ltb, eqb, string_eq, ◌==◌,
  if◌then◌else◌, keep, take, drop, ◌-◌,
}
use xwork.Prelude.Sort.{sort_slice}
use xwork.Text.{Platform, codes, text_less, lower_text}
use xwork.Sql.Driver.{Value, Row}
use xwork.Sql.Like.{like}
use xwork.Sql.Query.{placeholder, and_all, where_clause}

-- The tables of the schema that hold jobs.
pub data Table : Type 0 where
  xwork_schedule xwork_queue xwork_processing xwork_processed xwork_failed : Table

abbrev pub table_name : Table → String
table_name xwork_schedule = "xwork_schedule"
table_name xwork_queue = "xwork_queue"
table_name xwork_processing = "xwork_processing"
table_name xwork_processed = "xwork_processed"
table_name xwork_failed = "xwork_failed"

-- A stored row gives each column its cell.
abbrev pub Stored : Type 0
Stored = String → Value

pub data Operand : Type 0 where
  column cast : String → Operand

pub data Condition : Type 0 where
  equal : String → ℕ → Condition
  lower_like : Operand → ℕ → Condition
  either : Condition → Condition → Condition

-- `SELECT columns FROM table WHERE conditions ORDER BY time, id ASC LIMIT $limit OFFSET $offset`
pub record Select : Type 0 where
  pub table : Table
  pub columns : List String
  pub conditions : List Condition
  pub time : String
  pub latest_first : Bool
  pub limit : ℕ
  pub offset : ℕ

abbrev operand_text : Operand → String
operand_text (column name) = name
operand_text (cast name) = "CAST(" <> name <> " AS TEXT)"

abbrev condition_text : Condition → String
condition_text (equal name n) = name <> " = " <> placeholder n
condition_text (lower_like operand n) =
    "LOWER(" <> operand_text operand <> ") LIKE " <> placeholder n <> " ESCAPE '\\'"
condition_text (either a b) = "(" <> condition_text a <> " OR " <> condition_text b <> ")"

abbrev commas : List String → String
commas [] = ""
commas (name ∷ []) = name
commas (name ∷ next ∷ names) = name <> ", " <> commas (next ∷ names)

abbrev order_text : Bool → String
order_text true = " DESC"
order_text false = " ASC"

-- the text of a statement
abbrev pub text_of : Select → String
text_of q =
    "SELECT "
    <> commas q.columns
    <> " FROM "
    <> table_name q.table
    <> where_clause (map condition_text q.conditions)
    <> " ORDER BY "
    <> q.time
    <> order_text q.latest_first
    <> ", id ASC LIMIT "
    <> placeholder q.limit
    <> " OFFSET "
    <> placeholder q.offset

-- the value of the argument that a placeholder names
abbrev pub argument : ℕ → List Value → Value
argument n [] = Value.points []
argument n (value ∷ values) = let rest = argument (n - 1) values in if eqb n 1 then value else rest

abbrev pub whole_of : Value → ℕ
whole_of (Value.whole n) = n
whole_of _ = 0

abbrev pub instant_of : Value → ℕ
instant_of (Value.instant n) = n
instant_of _ = 0

-- `=` on texts
abbrev same_text : Value → Value → Bool
same_text (Value.text a) (Value.text b) = a == b
same_text _ _ = false

module _ (platform : Platform) where
  -- the characters of a text, of the text of a UUID, and of a pattern
  abbrev characters : Value → List ℕ
  characters (Value.text a) = codes a
  characters (Value.uuid id) = codes (platform.uuid_string id)
  characters (Value.points cs) = cs
  characters _ = []

  abbrev operand_value : Operand → Stored → Value
  operand_value (column name) stored = stored name
  operand_value (cast name) stored = stored name

  abbrev pub holds : List Value → Condition → Stored → Bool
  holds args (equal name n) stored = same_text (stored name) (argument n args)
  holds args (lower_like operand n) stored =
      like (characters (argument n args))
        (lower_text platform (characters (operand_value operand stored)))
  holds args (either a b) stored = holds args a stored || holds args b stored

  abbrev pub all_hold : List Value → List Condition → Stored → Bool
  all_hold args [] stored = true
  all_hold args (c ∷ cs) stored = holds args c stored && all_hold args cs stored

  -- `ORDER BY`: the time, one way or the other, and then the id
  abbrev pub before : Bool → String → Stored → Stored → Bool
  before latest_first time a b =
      if eqb (instant_of (a time)) (instant_of (b time))
      then text_less (characters (a "id")) (characters (b "id"))
      else if latest_first
      then ltb (instant_of (b time)) (instant_of (a time))
      else ltb (instant_of (a time)) (instant_of (b time))

  -- the rows that a statement gives on the rows of its table
  abbrev pub run_select : Select → List Value → List Stored → List Row
  run_select q args stored =
      map (λ (found : Stored). map found q.columns)
        (take (whole_of (argument q.limit args)) (
          drop (whole_of (argument q.offset args))
            (sort_slice (before q.latest_first q.time) (keep (all_hold args q.conditions) stored))))

-- The statements of `listJobs`: one for each table, with a condition on the queue or without, and
-- with a search text or without.
abbrev queue_conditions : Bool → List Condition → List Condition
queue_conditions true cs = equal "queue" 1 ∷ cs
queue_conditions false cs = cs

abbrev text_conditions : Bool → ℕ → List Condition
text_conditions true n = either (lower_like (column "name") n) (lower_like (cast "id") n) ∷ []
text_conditions false n = []

abbrev one_if : Bool → ℕ
one_if true = 1
one_if false = 0

abbrev pub columns_of : Table → List String
columns_of xwork_schedule = "id" ∷ "name" ∷ "queue" ∷ "payload" ∷ "enqueue_at" ∷ "scheduled_at" ∷ []
columns_of xwork_queue =
    "id" ∷ "name" ∷ "queue" ∷ "payload" ∷ "retry_count" ∷ "enqueued_at" ∷ "scheduled_at" ∷ []
columns_of xwork_processing =
    "id" ∷ "name" ∷ "queue" ∷ "payload" ∷ "retry_count" ∷ "started_at" ∷ "enqueued_at"
    ∷ "scheduled_at" ∷ []
columns_of xwork_processed =
    "id" ∷ "name" ∷ "queue" ∷ "payload" ∷ "started_at" ∷ "completed_at" ∷ "enqueued_at"
    ∷ "scheduled_at" ∷ []
columns_of xwork_failed =
    "id" ∷ "name" ∷ "queue" ∷ "payload" ∷ "error" ∷ "last_retry_at" ∷ "next_retry_at"
    ∷ "retry_count" ∷ "scheduled_at" ∷ []

abbrev time_of : Table → String
time_of xwork_schedule = "enqueue_at"
time_of xwork_queue = "enqueued_at"
time_of xwork_processing = "enqueued_at"
time_of xwork_processed = "completed_at"
time_of xwork_failed = "next_retry_at"

abbrev is_latest_first : Table → Bool
is_latest_first xwork_queue = false
is_latest_first _ = true

abbrev pub list_select : Table → Bool → Bool → Select
list_select table by_queue by_text =
    let n = one_if by_queue + one_if by_text in
    record {
      table = table;
      columns = columns_of table;
      conditions = queue_conditions by_queue (text_conditions by_text (one_if by_queue + 1));
      time = time_of table;
      latest_first = is_latest_first table;
      limit = n + 1;
      offset = n + 2;
    }
