-- ===== src/Sql/Engine/Texts.antt =====
-- The texts that `listJobs` of storage/sql.go builds are those of the statements of the engine.

use xwork.Prelude.{true, false, [], ◌∷◌, ◌≡◌, refl}
use xwork.Sql.Driver.{Value}
use xwork.Sql.Query.{Source, list_text, like_condition}
use xwork.Sql.Engine.{Table, list_select, text_of}

abbrev pub source_of : Table → Source
source_of Table.xwork_schedule = record {
  table = "xwork_schedule";
  columns = "id, name, queue, payload, enqueue_at, scheduled_at";
  order_by = "enqueue_at DESC, id ASC";
}
source_of Table.xwork_queue = record {
  table = "xwork_queue";
  columns = "id, name, queue, payload, retry_count, enqueued_at, scheduled_at";
  order_by = "enqueued_at ASC, id ASC";
}
source_of Table.xwork_processing = record {
  table = "xwork_processing";
  columns = "id, name, queue, payload, retry_count, started_at, enqueued_at, scheduled_at";
  order_by = "enqueued_at DESC, id ASC";
}
source_of Table.xwork_processed = record {
  table = "xwork_processed";
  columns = "id, name, queue, payload, started_at, completed_at, enqueued_at, scheduled_at";
  order_by = "completed_at DESC, id ASC";
}
source_of Table.xwork_failed = record {
  table = "xwork_failed";
  columns =
      "id, name, queue, payload, error, last_retry_at, next_retry_at, retry_count, scheduled_at";
  order_by = "next_retry_at DESC, id ASC";
}

module _ (a b : Value) where
  pub plain_text :
      (t : Table)
      → list_text (source_of t) (record { args = []; conditions = [] })
        ≡ text_of (list_select t false false)
  plain_text Table.xwork_schedule = refl
  plain_text Table.xwork_queue = refl
  plain_text Table.xwork_processing = refl
  plain_text Table.xwork_processed = refl
  plain_text Table.xwork_failed = refl

  pub queue_text :
      (t : Table)
      → list_text (source_of t) (record { args = a ∷ []; conditions = "queue = $1" ∷ [] })
        ≡ text_of (list_select t true false)
  queue_text Table.xwork_schedule = refl
  queue_text Table.xwork_queue = refl
  queue_text Table.xwork_processing = refl
  queue_text Table.xwork_processed = refl
  queue_text Table.xwork_failed = refl

  pub search_text :
      (t : Table)
      → list_text (source_of t) (record { args = a ∷ []; conditions = like_condition "$1" ∷ [] })
        ≡ text_of (list_select t false true)
  search_text Table.xwork_schedule = refl
  search_text Table.xwork_queue = refl
  search_text Table.xwork_processing = refl
  search_text Table.xwork_processed = refl
  search_text Table.xwork_failed = refl

  pub queue_search_text :
      (t : Table)
      → list_text
          (source_of t)
          (record { args = a ∷ b ∷ []; conditions = "queue = $1" ∷ like_condition "$2" ∷ [] })
        ≡ text_of (list_select t true true)
  queue_search_text Table.xwork_schedule = refl
  queue_search_text Table.xwork_queue = refl
  queue_search_text Table.xwork_processing = refl
  queue_search_text Table.xwork_processed = refl
  queue_search_text Table.xwork_failed = refl
