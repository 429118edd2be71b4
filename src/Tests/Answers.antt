-- ===== src/Tests/Answers.antt =====
-- The database of the witnesses answers as SQL says.
use xwork.Prelude.{ℕ, true, false, List, [], ◌∷◌, ◌≡◌, refl, nat_eq, string_eq}
use xwork.Prelude.Result.{ok}
use xwork.Sql.Driver.{Value}
use xwork.Sql.Engine.{Table, columns_of}
use xwork.Sql.Engine.Writes.{Serves, with_rows, with_row, row_of, find_row, without_row}
use xwork.Sql.Engine.Inserts.{Writes, insert_text, delete_text, count_inserted}
use xwork.Tests.Oldest.{oldest_row, oldest_row-IsOldest}
use xwork.Sql.Engine.Oldest.{TakesOldest, taken}
use xwork.Sql.Listing.{AnswersLists}
use xwork.Tests.{ascii}
use xwork.Tests.Database.{Database, lists, rows_now, rows_saved, violated}

pub lists-AnswersLists : AnswersLists ascii lists rows_now
lists-AnswersLists Table.xwork_schedule true true args db = refl
lists-AnswersLists Table.xwork_schedule true false args db = refl
lists-AnswersLists Table.xwork_schedule false true args db = refl
lists-AnswersLists Table.xwork_schedule false false args db = refl
lists-AnswersLists Table.xwork_queue true true args db = refl
lists-AnswersLists Table.xwork_queue true false args db = refl
lists-AnswersLists Table.xwork_queue false true args db = refl
lists-AnswersLists Table.xwork_queue false false args db = refl
lists-AnswersLists Table.xwork_processing true true args db = refl
lists-AnswersLists Table.xwork_processing true false args db = refl
lists-AnswersLists Table.xwork_processing false true args db = refl
lists-AnswersLists Table.xwork_processing false false args db = refl
lists-AnswersLists Table.xwork_processed true true args db = refl
lists-AnswersLists Table.xwork_processed true false args db = refl
lists-AnswersLists Table.xwork_processed false true args db = refl
lists-AnswersLists Table.xwork_processed false false args db = refl
lists-AnswersLists Table.xwork_failed true true args db = refl
lists-AnswersLists Table.xwork_failed true false args db = refl
lists-AnswersLists Table.xwork_failed false true args db = refl
lists-AnswersLists Table.xwork_failed false false args db = refl

pub lists-Serves : Serves lists rows_now rows_saved
lists-Serves = record {
  begins = λ db. (record db { saved = db.now }, refl, refl, refl);
  commits = λ db. (db, refl, refl);
  rolls_back = λ db. (record db { now = db.saved }, refl, refl);
  claims = λ id db. (
    record db {
      now = with_rows Table.xwork_failed (without_row id (db.now Table.xwork_failed)) db.now;
    },
    refl,
    refl,
    refl,
  );
  enqueues = λ id args db. (
    record db {
      now =
          with_rows Table.xwork_queue
            (with_row (row_of (columns_of Table.xwork_queue) (Value.uuid id ∷ args))
              (find_row id (db.now Table.xwork_queue)) (db.now Table.xwork_queue))
            db.now;
    },
    refl,
    refl,
    refl,
  );
}

lists-deletes :
    (t : Table) (id : ℕ) (db : Database)
    → (db' : Database) × (affected : ℕ) × (lists.exec (delete_text t) (Value.uuid id ∷ []) db
        ≡ (ok (ok affected), db'))
      × (db'.now ≡ with_rows t (without_row id (db.now t)) db.now)
      × (db'.saved ≡ db.saved)
lists-deletes Table.xwork_schedule id db = (_, _, refl, refl, refl)
lists-deletes Table.xwork_queue id db = (_, _, refl, refl, refl)
lists-deletes Table.xwork_processing id db = (_, _, refl, refl, refl)
lists-deletes Table.xwork_processed id db = (_, _, refl, refl, refl)
lists-deletes Table.xwork_failed id db = (_, _, refl, refl, refl)

lists-inserts :
    (t : Table) (id : ℕ) (args : List Value) (db : Database)
    → (db' : Database) × (lists.exec (insert_text t) (Value.uuid id ∷ args) db
        ≡ (count_inserted (violated t) (find_row id (db.now t)), db'))
      × (db'.now
          ≡ with_rows t
              (with_row
                (row_of (columns_of t) (Value.uuid id ∷ args))
                (find_row id (db.now t))
                (db.now t))
              db.now)
      × (db'.saved ≡ db.saved)
lists-inserts Table.xwork_schedule id args db = (_, refl, refl, refl)
lists-inserts Table.xwork_queue id args db = (_, refl, refl, refl)
lists-inserts Table.xwork_processing id args db = (_, refl, refl, refl)
lists-inserts Table.xwork_processed id args db = (_, refl, refl, refl)
lists-inserts Table.xwork_failed id args db = (_, refl, refl, refl)

pub lists-Writes : Writes lists rows_now rows_saved violated
lists-Writes = record { deletes = lists-deletes; inserts = lists-inserts }

pub lists-TakesOldest : TakesOldest lists rows_now
unfolding oldest_row
lists-TakesOldest queue db =
    let found = oldest_row queue (db.now Table.xwork_queue) in
    (
      found,
      record db { now = taken found db.now },
      refl,
      oldest_row-IsOldest queue (db.now Table.xwork_queue),
      refl,
    )
