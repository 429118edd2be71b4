-- ===== src/Sql/Engine/Writes.antt =====
-- What a database does with transactions, and with the two statements that storage/sql.go sends
-- for `ClaimFailed` and `InsertToQueue`.
use xwork.Prelude.{
  ℕ, Bool, false, Option, none, some, List, [], ◌∷◌, map, String, ◌≡◌, eqb, if◌then◌else◌, ◌==◌,
  string_eq,
}
use xwork.Prelude.Result.{ok}
use xwork.Sql.Driver.{Value, Row, Driver}
use xwork.Sql.Engine.{Table, Stored, columns_of}

abbrev index : Table → ℕ
index Table.xwork_schedule = 0
index Table.xwork_queue = 1
index Table.xwork_processing = 2
index Table.xwork_processed = 3
index Table.xwork_failed = 4

-- the tables with other rows in one of them
abbrev pub with_rows : Table → List Stored → (Table → List Stored) → Table → List Stored
with_rows t rows tables u = if eqb (index t) (index u) then rows else tables u

abbrev pub is_uuid : ℕ → Value → Bool
is_uuid id (Value.uuid n) = eqb n id
is_uuid id _ = false

-- the row with an id, which is the primary key
unfoldable pub find_row : ℕ → List Stored → Option Stored
find_row id [] = none
find_row id (row ∷ rows) =
    let rest = find_row id rows in if is_uuid id (row "id") then some row else rest

unfoldable pub without_row : ℕ → List Stored → List Stored
without_row id [] = []
without_row id (row ∷ rows) =
    let rest = without_row id rows in if is_uuid id (row "id") then rest else row ∷ rest

-- the row that `VALUES` makes of the arguments, for the columns in their order
abbrev pub row_of : List String → List Value → Stored
row_of (c ∷ []) (value ∷ []) name = value
row_of (c ∷ d ∷ columns) (value ∷ values) name =
    if name == c then value else row_of (d ∷ columns) values name
row_of _ _ name = Value.points []

abbrev pub projected : List String → Option Stored → Option Row
projected columns none = none
projected columns (some row) = some (map row columns)

-- how many rows an insertion adds, and the rows after it
abbrev pub added : Option Stored → ℕ
added none = 1
added (some row) = 0

abbrev pub with_row : Stored → Option Stored → List Stored → List Stored
with_row row none rows = row ∷ rows
with_row row (some other) rows = rows

abbrev pub claim_text : String
claim_text =
    "DELETE FROM xwork_failed\n\t\t\tWHERE id = $1\n\t\t\tRETURNING id, name, queue, payload, error, last_retry_at, next_retry_at, retry_count, scheduled_at"

abbrev pub enqueue_text : String
enqueue_text =
    "INSERT INTO xwork_queue (id, name, queue, payload, retry_count, enqueued_at, scheduled_at) VALUES ($1, $2, $3, $4, $5, $6, $7) ON CONFLICT (id) DO NOTHING"

-- A database that no connection fails on: `tables` is what the connection reads, `saved` what it
-- read when its transaction began.
pub record Serves (driver : Driver) (tables saved : driver.Db → Table → List Stored) : Type 0 where
  pub begins :
      (db : driver.Db)
      → (db' : driver.Db) × (driver.begin db ≡ (ok tt, db'))
        × (tables db' ≡ tables db)
        × (saved db' ≡ tables db)
  pub commits :
      (db : driver.Db)
      → (db' : driver.Db) × (driver.commit db ≡ (ok tt, db')) × (tables db' ≡ tables db)
  pub rolls_back :
      (db : driver.Db)
      → (db' : driver.Db) × (driver.rollback db ≡ (ok tt, db')) × (tables db' ≡ saved db)
  pub claims :
      (id : ℕ) (db : driver.Db)
      → (db' : driver.Db) × (driver.query_row claim_text (Value.uuid id ∷ []) db ≡ (
        ok (projected (columns_of Table.xwork_failed) (find_row id (tables db Table.xwork_failed))),
        db',
      ))
        × (tables db'
            ≡ with_rows Table.xwork_failed
                (without_row id (tables db Table.xwork_failed))
                (tables db))
        × (saved db' ≡ saved db)
  pub enqueues :
      (id : ℕ) (args : List Value) (db : driver.Db)
      → (db' : driver.Db) × (driver.exec enqueue_text (Value.uuid id ∷ args) db
          ≡ (ok (ok (added (find_row id (tables db Table.xwork_queue)))), db'))
        × (tables db'
            ≡ with_rows Table.xwork_queue
                (with_row
                  (row_of (columns_of Table.xwork_queue) (Value.uuid id ∷ args))
                  (find_row id (tables db Table.xwork_queue))
                  (tables db Table.xwork_queue))
                (tables db))
        × (saved db' ≡ saved db)
