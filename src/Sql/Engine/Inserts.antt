-- ===== src/Sql/Engine/Inserts.antt =====
-- What a database does with the statements that storage/sql.go sends to insert a row and to delete
-- one by its id.
use Prim.Native.String.{◌++◌ as ◌<>◌}
use xwork.Prelude.{ℕ, Option, none, some, List, [], ◌∷◌, String, ◌≡◌}
use xwork.Prelude.Result.{Result, ok, err, external}
use xwork.Sql.Driver.{Value, Driver}
use xwork.Sql.Engine.{Table, Stored, columns_of, table_name}
use xwork.Sql.Engine.Writes.{find_row, without_row, with_row, with_rows, row_of}

abbrev comma : List String → String
comma [] = ""
comma (c ∷ []) = c
comma (c ∷ d ∷ columns) = c <> ", " <> comma (d ∷ columns)

-- `$1`, `$2`, ... for as many columns
abbrev numbered : List String → List String → List String
numbered (n ∷ numbers) (c ∷ columns) = n ∷ numbered numbers columns
numbered _ _ = []

abbrev numbers : List String
numbers = "$1" ∷ "$2" ∷ "$3" ∷ "$4" ∷ "$5" ∷ "$6" ∷ "$7" ∷ "$8" ∷ "$9" ∷ []

abbrev pub insert_text : Table → String
insert_text t =
    "INSERT INTO "
    <> table_name t
    <> " ("
    <> comma (columns_of t)
    <> ") VALUES ("
    <> comma (numbered numbers (columns_of t))
    <> ")"

abbrev pub delete_text : Table → String
delete_text t = "DELETE FROM " <> table_name t <> " WHERE id = $1"

-- the count of rows that an insertion adds, or the violation of the primary key
abbrev pub count_inserted : String → Option Stored → Result (Result ℕ)
count_inserted violation none = ok (ok 1)
count_inserted violation (some row) = err (external violation)

-- On a connection that does not fail, an insertion under a new id adds the row, one under an id that
-- is there is an error with the text that the driver has for the table and adds none, and a deletion
-- takes the row away.
-- `tables` is what the connection reads, `saved` what it read when its transaction began.
pub record Writes (driver : Driver) (tables saved : driver.Db → Table → List Stored)
    (violation : Table → String) : Type 0 where
  pub deletes :
      (t : Table) (id : ℕ) (db : driver.Db)
      → (db' : driver.Db) × (affected : ℕ) × (driver.exec (delete_text t) (Value.uuid id ∷ []) db
          ≡ (ok (ok affected), db'))
        × (tables db' ≡ with_rows t (without_row id (tables db t)) (tables db))
        × (saved db' ≡ saved db)
  pub inserts :
      (t : Table) (id : ℕ) (args : List Value) (db : driver.Db)
      → (db' : driver.Db) × (driver.exec (insert_text t) (Value.uuid id ∷ args) db
          ≡ (count_inserted (violation t) (find_row id (tables db t)), db'))
        × (tables db'
            ≡ with_rows t
                (with_row
                  (row_of (columns_of t) (Value.uuid id ∷ args))
                  (find_row id (tables db t))
                  (tables db t))
                (tables db))
        × (saved db' ≡ saved db)
