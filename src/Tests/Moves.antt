-- ===== src/Tests/Moves.antt =====
-- The witness of the processor's moves over storage/sql.go.
use xwork.Prelude.{none, List, [], ◌∷◌, nat_eq, string_eq}
use xwork.Prelude.Result.{external}
use xwork.Payload.{IsPayload}
use xwork.Sql.Stored.{IsKept}
use xwork.Memory.Adapter.{memory_adapter}
use xwork.Sql.Adapter.{sql_adapter}
use xwork.Sql.Moves.{Move, perform_all}
use xwork.Sql.Moves.Match.{Relates}
use xwork.Sql.Moves.Laws.{AllTell, perform_all-memory}
use xwork.Tests.{ascii, resize, report, cleanup, busy, busy-IsValid}
use xwork.Tests.Database.{
  nulls, nil-IsKept, lists, rows_now, rows_saved, violated, busy_database, busy-Holds,
}
use xwork.Tests.Answers.{lists-Serves, lists-Writes}

-- the second completion violates the primary key
abbrev moves : List Move
moves =
    Move.enqueues_scheduled 60 cleanup
    ∷ Move.completes 70 resize
    ∷ Move.retries 80 report
    ∷ Move.completes 90 resize
    ∷ Move.fails_with 95 resize (external "timeout") []
    ∷ Move.enqueues_all (λ n. 99) (cleanup ∷ [])
    ∷ Move.retries_from_web 100 2
    ∷ []

sound : IsPayload none × IsKept nulls none
sound = (tt, nil-IsKept)

perform_all-memory_example :
    AllTell violated
      (perform_all (memory_adapter ascii) ascii moves busy).0
      (perform_all (sql_adapter ascii nulls lists) ascii moves busy_database).0
    × Relates nulls
        (perform_all (sql_adapter ascii nulls lists) ascii moves busy_database).1.now
        (perform_all (memory_adapter ascii) ascii moves busy).1
perform_all-memory_example =
    perform_all-memory ascii nulls lists rows_now rows_saved violated lists-Serves lists-Writes
      moves busy_database busy
      (sound, (sound, (tt, (sound, (sound, ((tt, nil-IsKept, tt), (tt, tt)))))))
      (busy-Holds, busy-IsValid)
