-- ===== src/Sql/Schema.antt =====
-- `Initialize` of storage/sql.go: the tables and their indexes.
use xwork.Prelude.{String, List, [], ◌∷◌}
use xwork.Prelude.Result.{Action, pure, ◌>>◌}
use xwork.Sql.Driver.{Driver}

-- the statements of `Initialize`, in their order
abbrev pub schema : List String
schema =
    "CREATE TABLE IF NOT EXISTS xwork_schedule (\n\t\t\t\tid UUID PRIMARY KEY,\n\t\t\t\tname TEXT NOT NULL,\n\t\t\t\tqueue TEXT NOT NULL,\n\t\t\t\tpayload JSONB NOT NULL,\n\t\t\t\tenqueue_at TIMESTAMP NOT NULL,\n\t\t\t\tscheduled_at TIMESTAMP NOT NULL\n\t\t)"
    ∷ "CREATE INDEX IF NOT EXISTS idx_xwork_schedule_enqueue_at ON xwork_schedule (enqueue_at)"
    ∷ "CREATE TABLE IF NOT EXISTS xwork_queue (\n\t\t\t\tid UUID PRIMARY KEY,\n\t\t\t\tname TEXT NOT NULL,\n\t\t\t\tqueue TEXT NOT NULL,\n\t\t\t\tpayload JSONB NOT NULL,\n\t\t\t\tretry_count INT DEFAULT 0,\n\t\t\t\tenqueued_at TIMESTAMP NOT NULL,\n\t\t\t\tscheduled_at TIMESTAMP NOT NULL\n\t\t)"
    ∷ "CREATE INDEX IF NOT EXISTS idx_xwork_queue_queue ON xwork_queue (queue)"
    ∷ "CREATE TABLE IF NOT EXISTS xwork_processing (\n\t\t\t\tid UUID PRIMARY KEY,\n\t\t\t\tname TEXT NOT NULL,\n\t\t\t\tqueue TEXT NOT NULL,\n\t\t\t\tpayload JSONB NOT NULL,\n\t\t\t\tretry_count INT DEFAULT 0,\n\t\t\t\tstarted_at TIMESTAMP NOT NULL,\n\t\t\t\tenqueued_at TIMESTAMP NOT NULL,\n\t\t\t\tscheduled_at TIMESTAMP NOT NULL,\n\t\t\t\tlast_heartbeat_at TIMESTAMP NOT NULL\n\t\t)"
    ∷ "CREATE INDEX IF NOT EXISTS idx_xwork_processing_started_at ON xwork_processing (started_at)"
    ∷ "CREATE TABLE IF NOT EXISTS xwork_processed (\n\t\t\t\tid UUID PRIMARY KEY,\n\t\t\t\tname TEXT NOT NULL,\n\t\t\t\tqueue TEXT NOT NULL,\n\t\t\t\tpayload JSONB NOT NULL,\n\t\t\t\tstarted_at TIMESTAMP NOT NULL,\n\t\t\t\tcompleted_at TIMESTAMP NOT NULL,\n\t\t\t\tenqueued_at TIMESTAMP NOT NULL,\n\t\t\t\tscheduled_at TIMESTAMP NOT NULL\n\t\t)"
    ∷ "CREATE INDEX IF NOT EXISTS idx_xwork_processed_started_at ON xwork_processing (started_at)"
    ∷ "CREATE TABLE IF NOT EXISTS xwork_failed (\n\t\t\t\tid UUID PRIMARY KEY,\n\t\t\t\tname TEXT NOT NULL,\n\t\t\t\tqueue TEXT NOT NULL,\n\t\t\t\tpayload JSONB NOT NULL,\n\t\t\t\terror TEXT NOT NULL,\n\t\t\t\tlast_retry_at TIMESTAMP NOT NULL,\n\t\t\t\tnext_retry_at TIMESTAMP NOT NULL,\n\t\t\t\tretry_count INT DEFAULT 0,\n\t\t\t\tscheduled_at TIMESTAMP NOT NULL\n\t\t)"
    ∷ "CREATE INDEX IF NOT EXISTS idx_xwork_failed_next_retry_at ON xwork_failed (next_retry_at)"
    ∷ []

module _ (driver : Driver) where
  open driver use {Db}

  unfoldable pub exec_each : List String → Action Db (Unit {0})
  exec_each [] = pure tt
  exec_each (statement ∷ statements) = driver.exec statement [] >> exec_each statements

  unfoldable pub initialize : Action Db (Unit {0})
  unfolding exec_each
  initialize = exec_each schema
