-- ===== src/Sql/Driver.antt =====
-- What storage/sql.go calls: package database/sql with the database behind it, and encoding/json.
-- Neither is the program's, so both are parameters.
use xwork.Prelude.{ℕ, String, List, Option}
use xwork.Prelude.Result.{Action, Result, Error}
use xwork.Payload.{Payload}

-- An argument of a statement, or a cell of a row: a UUID, a text, bytes, an integer or a time.
-- `points` is a text given by its code points.
pub data Value : Type 0 where
  uuid whole instant : ℕ → Value
  text bytes : String → Value
  points : List ℕ → Value

abbrev pub Row : Type 0
Row = List Value

-- `*sql.Rows`: the rows that `Next` and `Scan` give, and what `Err` says after them
pub record Rows : Type 0 where
  pub rows : List Row
  pub failure : Option Error

-- A connection, as `*sql.DB` or, between `begin` and the end of a transaction, as its `*sql.Tx`.
pub record Driver : Type 1 where
  pub Db : Type 0
  -- the inner result is that of `RowsAffected`
  pub exec : String → List Value → Action Db (Result ℕ)
  pub query : String → List Value → Action Db Rows
  -- `none` is `sql.ErrNoRows`
  pub query_row : String → List Value → Action Db (Option Row)
  pub begin : Action Db (Unit {0})
  pub commit : Action Db (Unit {0})
  pub rollback : Action Db (Unit {0})
  -- the error of a `Scan` into a destination that does not fit
  pub scan_error : Error

pub record Json : Type 0 where
  pub marshal : Payload → Result String
  pub unmarshal : String → Result Payload
