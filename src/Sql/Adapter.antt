-- ===== src/Sql/Adapter.antt =====
-- `SQL` of storage/sql.go as a `StorageAdapter`, and its `Transact`.
use xwork.Prelude.{some, if◌then◌else◌}
use xwork.Prelude.Result.{Action, Result, ok, err, Error, joined, is_panic}
use xwork.Text.{Platform}
use xwork.Storage.{StorageAdapter}
use xwork.Sql.Driver.{Driver, Json}
use xwork.Sql.Schema.{initialize}
use xwork.Sql.Schedule.{
  insert_to_scheduled, next_from_scheduled, delete_from_scheduled, list_scheduled,
}
use xwork.Sql.Queue.{insert_to_queue, get_from_queue, delete_from_queue, list_enqueued}
use xwork.Sql.Processing.{
  insert_to_processing, emit_heartbeat, get_by_last_heartbeat_before, delete_from_processing,
  list_processing,
}
use xwork.Sql.Finished.{
  insert_to_processed, list_processed, insert_to_failed, next_from_failed, delete_from_failed,
  get_failed, claim_failed, list_failed,
}
use xwork.Sql.Query.{list_jobs, count}

-- `errors.Join(err, tx.Rollback())`
abbrev pub join_error : Error → Result (Unit {0}) → Error
join_error e (ok _) = e
join_error e (err e') = joined e e'

module _ (driver : Driver) where
  open driver use {Db}

  abbrev end_committed : {A : Type 0} → A → Result (Unit {0}) × Db → Result A × Db
  end_committed a (ok _, db) = (ok a, db)
  end_committed a (err e, db) = (err e, db)

  abbrev end_rolled_back : {A : Type 0} → Error → Result (Unit {0}) × Db → Result A × Db
  end_rolled_back e (r, db) = (err (join_error e r), db)

  -- a panic of `f` leaves `Transact` with the transaction open
  abbrev pub end_transaction : {A : Type 0} → Result A × Db → Result A × Db
  end_transaction (ok a, db) = end_committed a (driver.commit db)
  end_transaction (err e, db) =
      if is_panic e then (err e, db) else end_rolled_back e (driver.rollback db)

  abbrev pub run_transaction : {A : Type 0} → Action Db A → Result (Unit {0}) × Db → Result A × Db
  run_transaction f (ok _, db) = end_transaction (f db)
  run_transaction f (err e, db) = (err e, db)

  unfoldable pub transact : {A : Type 0} → Action Db A → Action Db A
  transact f db = run_transaction f (driver.begin db)

abbrev pub sql_adapter : Platform → Json → Driver → StorageAdapter
sql_adapter platform json driver = record {
  Store = driver.Db;
  transact = transact driver;
  insert_to_scheduled = insert_to_scheduled json driver;
  next_from_scheduled = next_from_scheduled json driver;
  delete_from_scheduled = delete_from_scheduled json driver;
  list_scheduled = list_scheduled json driver;
  insert_to_queue = insert_to_queue json driver;
  get_from_queue = get_from_queue json driver;
  delete_from_queue = delete_from_queue json driver;
  list_enqueued = list_enqueued json driver;
  insert_to_processing = insert_to_processing json driver;
  emit_heartbeat = emit_heartbeat json driver;
  get_by_last_heartbeat_before = get_by_last_heartbeat_before json driver;
  delete_from_processing = delete_from_processing json driver;
  list_processing = list_processing json driver;
  insert_to_processed = insert_to_processed json driver;
  list_processed = list_processed json driver;
  insert_to_failed = insert_to_failed json driver;
  next_from_failed = next_from_failed json driver;
  delete_from_failed = delete_from_failed json driver;
  list_failed = list_failed json driver;
  count = count driver;
  list_jobs? = some (list_jobs platform json driver);
  get_failed? = some (get_failed json driver);
  claim_failed? = some (claim_failed json driver);
  initialize? = some (initialize driver);
}
