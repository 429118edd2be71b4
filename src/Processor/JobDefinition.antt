-- ===== src/Processor/JobDefinition.antt =====
-- The methods of `JobDefinition` in job.go, which enqueue a job of the definition. The processor
-- that a definition points to is an argument.
use xwork.Prelude.Result.{Action, Result}
use xwork.Payload.{Payload}
use xwork.Job.{Uuid, Time}
use xwork.Storage.{StorageAdapter}
use xwork.Processor.Work.{JobDefinition}
use xwork.Processor.Definitions.{Registry, Readings, Duration}
use xwork.Processor.Definitions

module _ (storage : StorageAdapter) (processor : Registry storage.Store)
    (definition : JobDefinition storage.Store) (new_id : Result Uuid) where
  unfoldable pub enqueue : Time → Readings → Payload → Action storage.Store (Unit {0})
  enqueue called clock payload =
      Definitions.enqueue_now storage processor new_id called clock definition.name payload

  unfoldable pub enqueue_in : Time → Readings → Duration → Payload → Action storage.Store (Unit {0})
  enqueue_in called clock duration payload =
      Definitions.enqueue_in storage processor new_id called clock definition.name duration payload

  unfoldable pub enqueue_at : Readings → Time → Payload → Action storage.Store (Unit {0})
  enqueue_at clock at payload =
      Definitions.enqueue_at storage processor new_id clock definition.name at payload
