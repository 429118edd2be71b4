-- ===== src/Memory/Heap/Traffic.antt =====
-- Callers and the store at work on one heap: what is done in which order, what it returns, and what
-- it is on values. A caller can write to every job and map that was not allocated for the store.
use xwork.Prelude.{ℕ, ◌<◌, Bool, false, Option, none, some, List, [], ◌∷◌, String, ◌≡◌, nat_eq}
use xwork.Prelude.Result.{Result, ok, err}
use mathlib.Core.Option as Opt
use xwork.GoMap.{Map}
use xwork.Payload.{Any}
use xwork.Job.{Uuid, FailedJob}
use xwork.Memory.State.{MemoryState, new_memory_state}
use xwork.Memory.Finished as Finished
use xwork.Memory.Heap.{
  Struct, Heap, Space, allocate, write, Shared, insert_to_failed, get_failed, claim_failed,
  delete_from_failed,
}

-- the job that an address stands for, and the state that the map of the store stands for
abbrev pub job_at : Heap → ℕ → FailedJob
job_at h p = record (h.jobs.cell p).fields {
  payload = Opt.map h.payloads.cell (h.jobs.cell p).payload;
}

unfoldable pub values_of : Heap → Map Uuid ℕ → Map Uuid FailedJob
values_of h [] = []
values_of h ((id, p) ∷ m) = (id, job_at h p) ∷ values_of h m

abbrev pub view : Shared → MemoryState
view c = record new_memory_state { failed = values_of c.heap c.failed }

pub data Deed : Type 0 where
  -- a caller makes a map or a job, or writes to one
  makes_payload : Map String Any → Deed
  makes_job : Struct → Deed
  writes_payload : ℕ → Map String Any → Deed
  writes_job : ℕ → Struct → Deed
  -- a caller calls the store
  inserts : ℕ → Deed
  gets claims deletes : Uuid → Deed

-- what is returned, read at once
abbrev pub Answer : Type 0
Answer = Result (Option FailedJob)

abbrev silent : Answer
silent = ok none

abbrev without_job : Result (Unit {0}) × Shared → Answer × Shared
without_job (ok u, c) = (silent, c)
without_job (err e, c) = (err e, c)

abbrev with_job : Result (Option ℕ) × Shared → Answer × Shared
with_job (ok found, c) = (ok (Opt.map (job_at c.heap) found), c)
with_job (err e, c) = (err e, c)

unfoldable pub do_deed : Deed → Shared → Answer × Shared
do_deed (Deed.makes_payload payload) c = (
  silent,
  record c { heap = record c.heap { payloads = (allocate false payload c.heap.payloads).1 } },
)
do_deed (Deed.makes_job job) c =
    (silent, record c { heap = record c.heap { jobs = (allocate false job c.heap.jobs).1 } })
do_deed (Deed.writes_payload r payload) c =
    (silent, record c { heap = record c.heap { payloads = write r payload c.heap.payloads } })
do_deed (Deed.writes_job p job) c =
    (silent, record c { heap = record c.heap { jobs = write p job c.heap.jobs } })
do_deed (Deed.inserts p) c = without_job (insert_to_failed p c)
do_deed (Deed.gets id) c = with_job (get_failed id c)
do_deed (Deed.claims id) c = with_job (claim_failed id c)
do_deed (Deed.deletes id) c = without_job (delete_from_failed id c)

-- An address that is in use, for the store or for a caller.
abbrev pub IsFor {ℓ} : {V : Type ℓ} → Bool → Space V → ℕ → Type 0
IsFor of_store cells r = (r < cells.next) × (cells.of_store r ≡ of_store)

abbrev pub IsPayloadFor {ℓ} : {V : Type ℓ} → Bool → Space V → Option ℕ → Type 0
IsPayloadFor of_store cells none = Unit {0}
IsPayloadFor of_store cells (some r) = IsFor of_store cells r

-- A caller works with the callers' addresses only.
abbrev pub IsDeed : Deed → Heap → Type 0
IsDeed (Deed.makes_job job) h = IsPayloadFor false h.payloads job.payload
IsDeed (Deed.writes_payload r payload) h = IsFor false h.payloads r
IsDeed (Deed.writes_job p job) h = IsFor false h.jobs p × IsPayloadFor false h.payloads job.payload
IsDeed (Deed.inserts p) h = IsFor false h.jobs p
IsDeed _ h = Unit {0}

abbrev pub AreDeeds : List Deed → Shared → Type 0
AreDeeds [] c = Unit {0}
AreDeeds (deed ∷ deeds) c = IsDeed deed c.heap × AreDeeds deeds (do_deed deed c).1

unfoldable pub do_deeds : List Deed → Shared → List Answer × Shared
do_deeds [] c = ([], c)
do_deeds (deed ∷ deeds) c =
    let (answer, c') = do_deed deed c in
    let (answers, c'') = do_deeds deeds c' in (answer ∷ answers, c'')

-- A deed on values. Only an insertion reads the heap: the job as it is then.
abbrev on_values : Result (Unit {0}) × MemoryState → Answer × MemoryState
on_values (ok u, s) = (silent, s)
on_values (err e, s) = (err e, s)

unfoldable pub value_deed : Deed → Heap → MemoryState → Answer × MemoryState
value_deed (Deed.inserts p) h s = on_values (Finished.insert_to_failed (job_at h p) s)
value_deed (Deed.gets id) h s = Finished.get_failed id s
value_deed (Deed.claims id) h s = Finished.claim_failed id s
value_deed (Deed.deletes id) h s = on_values (Finished.delete_from_failed id s)
value_deed _ h s = (silent, s)

unfoldable pub value_deeds : List Deed → Shared → MemoryState → List Answer × MemoryState
value_deeds [] c s = ([], s)
value_deeds (deed ∷ deeds) c s =
    let (answer, s') = value_deed deed c.heap s in
    let (answers, s'') = value_deeds deeds (do_deed deed c).1 s' in (answer ∷ answers, s'')

-- no job and no map yet
abbrev pub nothing_shared : FailedJob → Shared
nothing_shared blank = record {
  heap = record {
    jobs = record {
      next = 0;
      cell = λ p. record { fields = blank; payload = none };
      of_store = λ p. false;
    };
    payloads = record { next = 0; cell = λ r. []; of_store = λ r. false };
  };
  failed = [];
}
