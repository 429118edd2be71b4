-- ===== src/Tests/Database.antt =====
-- A database kept as lists of rows, for the witnesses of the SQL adapter (storage/sql.go).
use xwork.Prelude.{
  ℕ, true, false, Option, none, some, List, [], ◌∷◌, String, ◌≡◌, refl, subst, nat_eq, string_eq,
  ◌==◌, if◌then◌else◌, In, inl, inr,
}
use xwork.Prelude.Result.{Result, ok, external}
use xwork.Payload.{Payload}
use xwork.Sql.Driver.{Value, Row, Driver, Json}
use Prim.Native.String.{◌++◌ as ◌<>◌}
use xwork.Sql.Engine.{
  Table, table_name, Stored, Select, list_select, text_of, run_select, columns_of,
}
use xwork.Sql.Engine.Writes.{
  with_rows, with_row, row_of, find_row, without_row, projected, added, claim_text, enqueue_text,
}
use xwork.Sql.Engine.Inserts.{insert_text, delete_text, count_inserted}
use xwork.Tests.Oldest.{oldest_row}
use xwork.Sql.Engine.Oldest.{taken, take_text}
use xwork.Sql.Stored.{IsKept, stored_scheduled, stored_enqueued, stored_processing, stored_failed}
use xwork.Sql.Listing.{Holds}
use xwork.Tests.{ascii, mail, resize, report, cleanup, busy}

-- payloads that are nil
abbrev pub nulls : Json
nulls = record { marshal = λ payload. ok "null"; unmarshal = λ text. ok none }

pub nil-IsKept : IsKept nulls none
nil-IsKept = ("null", refl, refl)

pub record Database : Type 0 where
  pub now : Table → List Stored
  pub saved : Table → List Stored

abbrev statements : List Select
statements =
    list_select Table.xwork_schedule true true
    ∷ list_select Table.xwork_schedule true false
    ∷ list_select Table.xwork_schedule false true
    ∷ list_select Table.xwork_schedule false false
    ∷ list_select Table.xwork_queue true true
    ∷ list_select Table.xwork_queue true false
    ∷ list_select Table.xwork_queue false true
    ∷ list_select Table.xwork_queue false false
    ∷ list_select Table.xwork_processing true true
    ∷ list_select Table.xwork_processing true false
    ∷ list_select Table.xwork_processing false true
    ∷ list_select Table.xwork_processing false false
    ∷ list_select Table.xwork_processed true true
    ∷ list_select Table.xwork_processed true false
    ∷ list_select Table.xwork_processed false true
    ∷ list_select Table.xwork_processed false false
    ∷ list_select Table.xwork_failed true true
    ∷ list_select Table.xwork_failed true false
    ∷ list_select Table.xwork_failed false true
    ∷ list_select Table.xwork_failed false false
    ∷ []

abbrev find_select : String → List Select → Option Select
find_select text [] = none
find_select text (q ∷ qs) =
    let rest = find_select text qs in if text_of q == text then some q else rest

abbrev rows_for : Option Select → List Value → Database → List Row
rows_for none args db = []
rows_for (some q) args db = run_select ascii q args (db.now q.table)

abbrev claimed : List Value → Database → Result (Option Row) × Database
claimed (Value.uuid id ∷ []) db = (
  ok (projected (columns_of Table.xwork_failed) (find_row id (db.now Table.xwork_failed))),
  record db {
    now = with_rows Table.xwork_failed (without_row id (db.now Table.xwork_failed)) db.now;
  },
)
claimed _ db = (ok none, db)

abbrev inserted : List Value → Database → Result (Result ℕ) × Database
inserted (Value.uuid id ∷ args) db = (
  ok (ok (added (find_row id (db.now Table.xwork_queue)))),
  record db {
    now =
        with_rows Table.xwork_queue
          (with_row (row_of (columns_of Table.xwork_queue) (Value.uuid id ∷ args))
            (find_row id (db.now Table.xwork_queue)) (db.now Table.xwork_queue))
          db.now;
  },
)
inserted _ db = (ok (ok 0), db)

abbrev pub violated : Table → String
violated t = "UNIQUE constraint failed: " <> table_name t <> ".id"

abbrev all_tables : List Table
all_tables =
    Table.xwork_schedule ∷ Table.xwork_queue ∷ Table.xwork_processing ∷ Table.xwork_processed
    ∷ Table.xwork_failed ∷ []

abbrev find_table : (Table → String) → String → List Table → Option Table
find_table text_for text [] = none
find_table text_for text (t ∷ ts) =
    let rest = find_table text_for text ts in if text_for t == text then some t else rest

abbrev row_inserted : Table → List Value → Database → Result (Result ℕ) × Database
row_inserted t (Value.uuid id ∷ args) db = (
  count_inserted (violated t) (find_row id (db.now t)),
  record db {
    now =
        with_rows t
          (with_row (row_of (columns_of t) (Value.uuid id ∷ args)) (find_row id (db.now t))
            (db.now t))
          db.now;
  },
)
row_inserted t _ db = (ok (ok 0), db)

abbrev row_deleted : Table → List Value → Database → Result (Result ℕ) × Database
row_deleted t (Value.uuid id ∷ []) db =
    (ok (ok 1), record db { now = with_rows t (without_row id (db.now t)) db.now })
row_deleted t _ db = (ok (ok 0), db)

abbrev executed : Option Table → Option Table → List Value → Database → Result (Result ℕ) × Database
executed (some t) _ args db = row_inserted t args db
executed none (some t) args db = row_deleted t args db
executed none none args db = (ok (ok 0), db)

abbrev oldest_taken : List Value → Database → Result (Option Row) × Database
oldest_taken (Value.text queue ∷ []) db =
    let found = oldest_row queue (db.now Table.xwork_queue) in
    (ok (projected (columns_of Table.xwork_queue) found), record db { now = taken found db.now })
oldest_taken _ db = (ok none, db)

abbrev pub lists : Driver
lists = record {
  Db = Database;
  exec = λ text args db.
      if text == enqueue_text
      then inserted args db
      else executed (find_table insert_text text all_tables)
          (find_table delete_text text all_tables) args db;
  query = λ text args db.
      (ok (record { rows = rows_for (find_select text statements) args db; failure = none }), db);
  query_row = λ text args db.
      if text == claim_text
      then claimed args db
      else if text == take_text
      then oldest_taken args db
      else (ok none, db);
  begin = λ db. (ok tt, record db { saved = db.now });
  commit = λ db. (ok tt, db);
  rollback = λ db. (ok tt, record db { now = db.saved });
  scan_error = external "scan";
}

abbrev pub rows_now : Database → Table → List Stored
rows_now db = db.now

abbrev pub rows_saved : Database → Table → List Stored
rows_saved db = db.saved

-- the tables of the store `busy`
abbrev pub busy_rows : Table → List Stored
busy_rows Table.xwork_schedule = stored_scheduled nulls cleanup ∷ []
busy_rows Table.xwork_queue = stored_enqueued nulls mail ∷ []
busy_rows Table.xwork_processing = stored_processing nulls resize ∷ []
busy_rows Table.xwork_processed = []
busy_rows Table.xwork_failed = stored_failed nulls report ∷ []

abbrev pub busy_database : Database
busy_database = record { now = busy_rows; saved = busy_rows }

only-IsKept :
    {J : Type 0} (payload : J → Payload) (only : J)
    → payload only ≡ none
    → (job : J) → In job (only ∷ [])
    → IsKept nulls (payload job)
only-IsKept payload only nil job (inl e) =
    subst (λ j. IsKept nulls (payload j)) e (rw nil nil-IsKept)
only-IsKept payload only nil job (inr h) = absurd h

pub busy-Holds : Holds nulls busy_rows busy
busy-Holds = record {
  scheduled = refl;
  enqueued = refl;
  processing = refl;
  processed = refl;
  failed = refl;
  scheduled_kept = only-IsKept (λ job. job.payload) cleanup refl;
  enqueued_kept = only-IsKept (λ job. job.payload) mail refl;
  processing_kept = only-IsKept (λ job. job.payload) resize refl;
  processed_kept = λ job h. absurd h;
  failed_kept = only-IsKept (λ job. job.payload) report refl;
}
