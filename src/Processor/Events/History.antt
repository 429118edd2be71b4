-- ===== src/Processor/Events/History.antt =====
-- Whole histories of the processor.
use xwork.Prelude.{ℕ, ◌+◌, ◌≤◌, List, [], ◌∷◌, ◌≡◌, refl, arith}
use xwork.Text.{Platform}
use xwork.Job.{Uuid}
use xwork.Memory.State.{MemoryState, new_memory_state}
use xwork.Memory.Invariant.{new_memory_state-IsValid}
use xwork.GoMap.{lookup}
use xwork.Processor.Events.{places, Event, occur, occur_all, EnabledAll, IsExclusive, made, dropped}
use xwork.Processor.Events.Places.{occur-Balance}
use xwork.Processor.Events.Valid.{occur-IsExclusive}

abbrev pub made_by_all : List Event → Uuid → ℕ
made_by_all [] id = 0
made_by_all (e ∷ es) id = made e id + made_by_all es id

abbrev pub dropped_by_all : List Event → Uuid → ℕ
dropped_by_all [] id = 0
dropped_by_all (e ∷ es) id = dropped e id + dropped_by_all es id

pub new_memory_state-IsExclusive : IsExclusive new_memory_state
unfolding lookup
new_memory_state-IsExclusive = record { valid = new_memory_state-IsValid; once = λ id. omega arith }

places-new_memory_state : (id : Uuid) → places id new_memory_state ≡ 0
unfolding lookup
places-new_memory_state id = refl

module _ (platform : Platform) where
  pub occur_all-IsExclusive :
      (es : List Event) (s : MemoryState)
      → IsExclusive s
      → EnabledAll platform es s
      → IsExclusive (occur_all platform es s)
  unfolding occur_all
  occur_all-IsExclusive [] s x h = x
  occur_all-IsExclusive (e ∷ es) s x h =
      occur_all-IsExclusive es (occur platform e s) (occur-IsExclusive platform e s x h.0) h.1

  occur_all-places :
      (es : List Event) (s : MemoryState) (id : Uuid)
      → IsExclusive s
      → EnabledAll platform es s
      → places id (occur_all platform es s) + dropped_by_all es id ≡ places id s + made_by_all es id
  unfolding occur_all
  occur_all-places [] s id x h = omega arith
  occur_all-places (e ∷ es) s id x h = omega (
    arith,
    occur-Balance platform s x id e h.0,
    occur_all-places es (occur platform e s) id (occur-IsExclusive platform e s x h.0) h.1,
  )

  -- In every history that starts with an empty store and in which each event is enabled where it
  -- occurs (a job that is enqueued has a new id, one that the poller of the schedule enqueues is
  -- scheduled still, and one that is settled or failed as an orphan is in processing still), an
  -- id has one entry at most in all the tables together, and the entries that it has, with those
  -- dropped when it failed with its retries used up, are as many as were enqueued under it.
  pub no_job_lost :
      (es : List Event) (id : Uuid)
      → EnabledAll platform es new_memory_state
      → (places id (occur_all platform es new_memory_state) ≤ 1)
        × (places id (occur_all platform es new_memory_state) + dropped_by_all es id
            ≡ made_by_all es id)
  no_job_lost es id h =
      let x = occur_all-IsExclusive es new_memory_state new_memory_state-IsExclusive h in
      let b = occur_all-places es new_memory_state id new_memory_state-IsExclusive h in
      (x.once id, omega (arith, b, places-new_memory_state id))
