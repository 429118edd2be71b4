-- ===== src/Sql/Moves/Parts.antt =====
-- The five tables of the schema as parts of the in-memory store.
use xwork.Prelude.{[], ◌∷◌, refl}
use xwork.Job.{ScheduledJob, EnqueuedJob, ProcessingJob, ProcessedJob, FailedJob}
use xwork.Sql.Driver.{Value, Json}
use xwork.Sql.Engine.{Table}
use xwork.Sql.Stored.{
  stored_scheduled, stored_enqueued, stored_processing, stored_processed, stored_failed,
}
use xwork.Sql.Moves.Part.{Part}

module _ (json : Json) where
  abbrev pub scheduled_part : Part json ScheduledJob
  scheduled_part = record {
    table = Table.xwork_schedule;
    id = λ job. job.id;
    payload = λ job. job.payload;
    row = stored_scheduled json;
    cells = λ job written.
        Value.text job.name
        ∷ Value.text job.queue
        ∷ written
        ∷ Value.instant job.enqueue_at
        ∷ Value.instant job.scheduled_at
        ∷ [];
    jobs = λ s. s.scheduled;
    put = λ m s. record s { scheduled = m };
    has_id = λ job. refl;
    sends_row = λ job. refl;
    keeps_ids = λ s v. v.scheduled;
    holds = λ rows s held. held.scheduled;
    keeps = λ rows s held. held.scheduled_kept;
    put-Holds = λ rows s new m held same kept. record {
      scheduled = same;
      enqueued = held.enqueued;
      processing = held.processing;
      processed = held.processed;
      failed = held.failed;
      scheduled_kept = kept;
      enqueued_kept = held.enqueued_kept;
      processing_kept = held.processing_kept;
      processed_kept = held.processed_kept;
      failed_kept = held.failed_kept;
    };
    put-jobs = λ s. refl;
  }

  abbrev pub enqueued_part : Part json EnqueuedJob
  enqueued_part = record {
    table = Table.xwork_queue;
    id = λ job. job.id;
    payload = λ job. job.payload;
    row = stored_enqueued json;
    cells = λ job written.
        Value.text job.name
        ∷ Value.text job.queue
        ∷ written
        ∷ Value.whole job.retry_count
        ∷ Value.instant job.enqueued_at
        ∷ Value.instant job.scheduled_at
        ∷ [];
    jobs = λ s. s.enqueued;
    put = λ m s. record s { enqueued = m };
    has_id = λ job. refl;
    sends_row = λ job. refl;
    keeps_ids = λ s v. v.enqueued;
    holds = λ rows s held. held.enqueued;
    keeps = λ rows s held. held.enqueued_kept;
    put-Holds = λ rows s new m held same kept. record {
      scheduled = held.scheduled;
      enqueued = same;
      processing = held.processing;
      processed = held.processed;
      failed = held.failed;
      scheduled_kept = held.scheduled_kept;
      enqueued_kept = kept;
      processing_kept = held.processing_kept;
      processed_kept = held.processed_kept;
      failed_kept = held.failed_kept;
    };
    put-jobs = λ s. refl;
  }

  abbrev pub processing_part : Part json ProcessingJob
  processing_part = record {
    table = Table.xwork_processing;
    id = λ job. job.id;
    payload = λ job. job.payload;
    row = stored_processing json;
    cells = λ job written.
        Value.text job.name
        ∷ Value.text job.queue
        ∷ written
        ∷ Value.whole job.retry_count
        ∷ Value.instant job.started_at
        ∷ Value.instant job.enqueued_at
        ∷ Value.instant job.scheduled_at
        ∷ [];
    jobs = λ s. s.processing;
    put = λ m s. record s { processing = m };
    has_id = λ job. refl;
    sends_row = λ job. refl;
    keeps_ids = λ s v. v.processing;
    holds = λ rows s held. held.processing;
    keeps = λ rows s held. held.processing_kept;
    put-Holds = λ rows s new m held same kept. record {
      scheduled = held.scheduled;
      enqueued = held.enqueued;
      processing = same;
      processed = held.processed;
      failed = held.failed;
      scheduled_kept = held.scheduled_kept;
      enqueued_kept = held.enqueued_kept;
      processing_kept = kept;
      processed_kept = held.processed_kept;
      failed_kept = held.failed_kept;
    };
    put-jobs = λ s. refl;
  }

  abbrev pub processed_part : Part json ProcessedJob
  processed_part = record {
    table = Table.xwork_processed;
    id = λ job. job.id;
    payload = λ job. job.payload;
    row = stored_processed json;
    cells = λ job written.
        Value.text job.name
        ∷ Value.text job.queue
        ∷ written
        ∷ Value.instant job.started_at
        ∷ Value.instant job.completed_at
        ∷ Value.instant job.enqueued_at
        ∷ Value.instant job.scheduled_at
        ∷ [];
    jobs = λ s. s.processed;
    put = λ m s. record s { processed = m };
    has_id = λ job. refl;
    sends_row = λ job. refl;
    keeps_ids = λ s v. v.processed;
    holds = λ rows s held. held.processed;
    keeps = λ rows s held. held.processed_kept;
    put-Holds = λ rows s new m held same kept. record {
      scheduled = held.scheduled;
      enqueued = held.enqueued;
      processing = held.processing;
      processed = same;
      failed = held.failed;
      scheduled_kept = held.scheduled_kept;
      enqueued_kept = held.enqueued_kept;
      processing_kept = held.processing_kept;
      processed_kept = kept;
      failed_kept = held.failed_kept;
    };
    put-jobs = λ s. refl;
  }

  abbrev pub failed_part : Part json FailedJob
  failed_part = record {
    table = Table.xwork_failed;
    id = λ job. job.id;
    payload = λ job. job.payload;
    row = stored_failed json;
    cells = λ job written.
        Value.text job.name
        ∷ Value.text job.queue
        ∷ written
        ∷ Value.text job.error
        ∷ Value.instant job.last_retry_at
        ∷ Value.instant job.next_retry_at
        ∷ Value.whole job.retry_count
        ∷ Value.instant job.scheduled_at
        ∷ [];
    jobs = λ s. s.failed;
    put = λ m s. record s { failed = m };
    has_id = λ job. refl;
    sends_row = λ job. refl;
    keeps_ids = λ s v. v.failed;
    holds = λ rows s held. held.failed;
    keeps = λ rows s held. held.failed_kept;
    put-Holds = λ rows s new m held same kept. record {
      scheduled = held.scheduled;
      enqueued = held.enqueued;
      processing = held.processing;
      processed = held.processed;
      failed = same;
      scheduled_kept = held.scheduled_kept;
      enqueued_kept = held.enqueued_kept;
      processing_kept = held.processing_kept;
      processed_kept = held.processed_kept;
      failed_kept = kept;
    };
    put-jobs = λ s. refl;
  }
