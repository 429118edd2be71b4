-- ===== src/Processor/Definitions/Laws.antt =====
-- `DefineJob` of process.go, and `EnqueueAt` of a job defined by it, over the in-memory adapter.
use xwork.Prelude.{
  true, ◌||◌, none, List, [], ◌∷◌, ◌++◌, String, ◌≡◌, refl, arith, nat_eq, string_eq, ◌==◌, ltb,
  if◌then◌else◌, Bool-cases, inl, inr,
}
use xwork.Prelude.Result.{ok}
use xwork.GoMap.{lookup, set}
use xwork.GoMap.Laws.{lookup-set_self}
use xwork.Payload.{Payload, IsPayload}
use xwork.Text.{Platform}
use xwork.Job.{Uuid, Time, ScheduledJob}
use xwork.Memory.State.{MemoryState}
use xwork.Memory.Adapter.{memory_adapter}
use xwork.Memory.Inserts.{insert_to_queue-new, insert_to_scheduled-new}
use xwork.Processor.Moves.{enqueue, enqueued_from_scheduled}
use xwork.Processor.Work.{JobHandler}
use xwork.Processor.Definitions.{
  Registry, Readings, has_queue, define_job, queues_to_process, or_default, enqueue_at,
}

has_queue-append :
    (q queue : String) (qs : List String)
    → has_queue q (qs ++ queue ∷ []) ≡ (has_queue q qs || (queue == q))
unfolding has_queue
has_queue-append q queue [] = ground arith
has_queue-append q queue (r ∷ qs) = ground (arith, has_queue-append q queue qs)

string_same : (q : String) → (q == q) ≡ true
string_same q = (string_eq.same_iff q q).1 refl

or_default_lem :
    (q : String) (qs fallback : List String)
    → has_queue q qs ≡ true
    → has_queue q (or_default qs fallback) ≡ true
unfolding has_queue
or_default_lem q [] fallback h = cc
or_default_lem q (r ∷ qs) fallback h = h

registered :
    (queue name : String) {Store : Type 0} (handler : JobHandler Store) (p : Registry Store)
    → has_queue queue (queues_to_process (define_job queue name handler p) []) ≡ true
unfolding define_job queues_to_process
registered queue name handler p = elim (Bool-cases (has_queue queue p.registered_queues)) [
  | inl there ↦ rw there (or_default_lem queue p.registered_queues _ there)
  | inr new ↦ rw new (
      or_default_lem queue (p.registered_queues ++ queue ∷ []) _
        (ground (arith, has_queue-append queue queue p.registered_queues, string_same queue)))
]

-- A job whose name is defined, as `EnqueueAt` makes it.
abbrev pub new_job : Uuid → String → String → Payload → Time → Time → ScheduledJob
new_job id name queue payload at scheduled_at = record {
  id = id;
  name = name;
  queue = queue;
  payload = payload;
  enqueue_at = at;
  scheduled_at = scheduled_at;
}

abbrev pub put : Readings → ScheduledJob → MemoryState → MemoryState
put clock job s =
    if ltb job.enqueue_at clock.checked
    then record s { enqueued = set job.id (enqueued_from_scheduled clock.enqueued job) s.enqueued }
    else record s { scheduled = set job.id job s.scheduled }

module _ (platform : Platform) where
  enqueued :
      (p : Registry MemoryState) (queue name : String) (handler : JobHandler MemoryState)
      (id : Uuid) (clock : Readings) (at : Time) (payload : Payload) (s : MemoryState)
      → IsPayload payload
      → lookup id s.scheduled ≡ none
      → lookup id s.enqueued ≡ none
      → enqueue_at
          (memory_adapter platform)
          (define_job queue name handler p)
          (ok id)
          clock
          name
          at
          payload
          s
        ≡ (ok tt, put clock (new_job id name queue payload at clock.scheduled) s)
  unfolding enqueue_at define_job enqueue
  enqueued p queue name handler id clock at payload s fit free empty =
      let job = new_job id name queue payload at clock.scheduled in
      let found =
        lookup-set_self name (record { name = name; queue = queue; handler = handler })
          p.job_definitions in
      elim (Bool-cases (ltb at clock.checked)) [
        | inl past ↦
            rw (found, enqueue_at)
              (rw
                (past, insert_to_queue-new (enqueued_from_scheduled clock.enqueued job) s fit empty)
                refl)
        | inr later ↦
            rw (found, enqueue_at) (rw (later, insert_to_scheduled-new job s fit free) refl)
      ]

  pub enqueue_at-define_job :
      (p : Registry MemoryState) (queue name : String) (handler : JobHandler MemoryState)
      (id : Uuid) (clock : Readings) (at : Time) (payload : Payload) (s : MemoryState)
      → IsPayload payload
      → lookup id s.scheduled ≡ none
      → lookup id s.enqueued ≡ none
      → let defined = define_job queue name handler p in
        (enqueue_at (memory_adapter platform) defined (ok id) clock name at payload s
          ≡ (ok tt, put clock (new_job id name queue payload at clock.scheduled) s))
        × (has_queue queue (queues_to_process defined []) ≡ true)
  enqueue_at-define_job p queue name handler id clock at payload s fit free empty = (
    enqueued p queue name handler id clock at payload s fit free empty,
    registered queue name handler p,
  )
