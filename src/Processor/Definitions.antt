-- ===== src/Processor/Definitions.antt =====
-- `DefineJob`, `Enqueue`, `EnqueueIn`, `EnqueueAt` and the choice of queues in `Process`.
pub mod Laws
use xwork.Prelude.{
  ℕ, ◌+◌, ◌-◌, Bool, false, ◌||◌, none, some, String, List, [], ◌∷◌, ◌++◌, if◌then◌else◌, ◌==◌,
  string_eq,
}
use xwork.Prelude.Result.{Action, Result, ok, err, job_definition_not_found, fails}
use xwork.GoMap.{lookup, set}
use xwork.Payload.{Payload}
use xwork.Job.{Uuid, Time, default_queue}
use xwork.Storage.{StorageAdapter}
use xwork.Processor.Moves.{enqueue}
use xwork.Processor.Work.{JobDefinition, JobDefinitions, JobHandler}

-- A `time.Duration` is signed.
pub data Duration : Type 0 where
  forward backward : ℕ → Duration

-- `t.Add(d)`
abbrev pub add_duration : Time → Duration → Time
add_duration t (forward d) = t + d
add_duration t (backward d) = t - d

-- the fields of `Processor` that defining jobs changes
pub record Registry (Store : Type 0) : Type 0 where
  pub registered_queues : List String
  pub job_definitions : JobDefinitions Store

-- the loop that sets `hasQueue`
unfoldable pub has_queue : String → List String → Bool
has_queue queue [] = false
has_queue queue (registered ∷ rest) = registered == queue || has_queue queue rest

unfoldable pub define_job :
    {Store : Type 0} → String → String → JobHandler Store → Registry Store → Registry Store
define_job queue name handler p = record p {
  registered_queues =
      if has_queue queue p.registered_queues
      then p.registered_queues
      else p.registered_queues ++ queue ∷ [];
  job_definitions =
      set name (record { name = name; queue = queue; handler = handler }) p.job_definitions;
}

abbrev pub or_default : List String → List String → List String
or_default [] fallback = fallback
or_default (q ∷ qs) fallback = q ∷ qs

-- the queues that `Process(queues...)` listens to
unfoldable pub queues_to_process : {Store : Type 0} → Registry Store → List String → List String
queues_to_process p queues = or_default (or_default queues p.registered_queues) (default_queue ∷ [])

-- the clock's readings of one call of `EnqueueAt`: for `ScheduledAt`, for the test of `enqueue`
-- and for the record that it makes
pub record Readings : Type 0 where
  pub scheduled : Time
  pub checked : Time
  pub enqueued : Time

module _ (storage : StorageAdapter) where
  open storage use {Store}

  abbrev enqueue_with :
      Readings → Time → Payload → JobDefinition Store → Result Uuid → Action Store (Unit {0})
  enqueue_with clock enqueue_at payload definition (err e) = fails e
  enqueue_with clock enqueue_at payload definition (ok id) =
      enqueue storage clock.checked clock.enqueued (record {
        id = id;
        name = definition.name;
        queue = definition.queue;
        payload = payload;
        enqueue_at = enqueue_at;
        scheduled_at = clock.scheduled;
      })

  -- `EnqueueAt`; `new_id` is what `uuid.NewV4()` returns
  unfoldable pub enqueue_at :
      Registry Store → Result Uuid → Readings → String → Time → Payload → Action Store (Unit {0})
  enqueue_at p new_id clock name at payload = elim (lookup name p.job_definitions) [
    | none ↦ fails job_definition_not_found
    | some definition ↦ enqueue_with clock at payload definition new_id
  ]

  -- `EnqueueIn` and `Enqueue` read the clock once more, before.
  unfoldable pub enqueue_in :
      Registry Store
      → Result Uuid
      → Time
      → Readings
      → String
      → Duration
      → Payload
      → Action Store (Unit {0})
  enqueue_in p new_id called clock name duration payload =
      enqueue_at p new_id clock name (add_duration called duration) payload

  unfoldable pub enqueue_now :
      Registry Store → Result Uuid → Time → Readings → String → Payload → Action Store (Unit {0})
  enqueue_now p new_id called clock name payload = enqueue_at p new_id clock name called payload
