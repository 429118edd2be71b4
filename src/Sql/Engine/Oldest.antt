-- ===== src/Sql/Engine/Oldest.antt =====
-- What a database does with the statement that storage/sql.go sends for `DeleteFromQueue`.
use xwork.Prelude.{
  ℕ, ◌≤◌, Bool, true, false, Option, none, some, List, [], ◌∷◌, String, ◌≡◌, string_eq, ◌==◌, In,
}
use xwork.Prelude.Result.{ok}
use xwork.Sql.Driver.{Value, Driver}
use xwork.Sql.Engine.{Table, Stored, columns_of, instant_of}
use xwork.Sql.Engine.Writes.{projected, with_rows, without_row}

abbrev pub take_text : String
take_text =
    "DELETE FROM xwork_queue\n\t\t\tWHERE id = (\n\t\t\t\tSELECT id FROM xwork_queue\n\t\t\t\tWHERE queue = $1\n\t\t\t\tORDER BY enqueued_at ASC, id ASC\n\t\t\t\tLIMIT 1\n\t\t\t)\n\t\t\tRETURNING id, name, queue, payload, retry_count, enqueued_at, scheduled_at"

abbrev pub is_text : String → Value → Bool
is_text text (Value.text other) = other == text
is_text text _ = false

abbrev pub uuid_of : Value → ℕ
uuid_of (Value.uuid id) = id
uuid_of _ = 0

-- A row of the queue than which none of the queue is older, or none where the queue has none. How
-- ties are broken is left open.
abbrev pub IsOldest : String → List Stored → Option Stored → Type 0
IsOldest queue rows none = (row : Stored) → In row rows → is_text queue (row "queue") ≡ false
IsOldest queue rows (some row) =
    In row rows
    × (is_text queue (row "queue") ≡ true)
    × ((other : Stored)
        → In other rows
        → is_text queue (other "queue") ≡ true
        → instant_of (row "enqueued_at") ≤ instant_of (other "enqueued_at"))

abbrev pub taken : Option Stored → (Table → List Stored) → Table → List Stored
taken none tables = tables
taken (some row) tables =
    with_rows Table.xwork_queue (without_row (uuid_of (row "id")) (tables Table.xwork_queue)) tables

-- A database that no connection fails on, as `tables` reads it.
abbrev pub TakesOldest : (driver : Driver) → (driver.Db → Table → List Stored) → Type 0
TakesOldest driver tables =
    (queue : String) (db : driver.Db)
    → (found : Option Stored) × (db' : driver.Db) × (driver.query_row take_text
          (Value.text queue ∷ []) db
        ≡ (ok (projected (columns_of Table.xwork_queue) found), db'))
      × IsOldest queue (tables db Table.xwork_queue) found
      × (tables db' ≡ taken found (tables db))
