-- ===== src/Memory/Heap.antt =====
-- The failed jobs of storage/memory.go with pointers: the jobs and payload maps of the callers and
-- those of the store in one heap. The other tables are kept in the same way.
pub mod Traffic
pub mod Apart
pub mod Calls
pub mod Laws
use xwork.Prelude.{
  ℕ, suc, Bool, true, false, Option, none, some, List, [], ◌∷◌, String, eqb, if◌then◌else◌, nat_eq,
  string_eq,
}
use xwork.Prelude.Result.{Result, ok, err, duplicate_job}
use mathlib.Core.Option as Opt
use xwork.GoMap.{Map, lookup, set, delete, contains, rebuild}
use xwork.Payload.{Any}
use xwork.Job.{Uuid, FailedJob}

-- Cells at addresses, of which those from `next` on are free. `of_store` says whom one was allocated
-- for, the store or a caller.
pub record Space {ℓ} (V : Type ℓ) : Type ℓ where
  pub next : ℕ
  pub cell : ℕ → V
  pub of_store : ℕ → Bool

abbrev pub put {ℓ} : {V : Type ℓ} → ℕ → V → (ℕ → V) → ℕ → V
put p v f q = if eqb q p then v else f q

abbrev pub allocate {ℓ} : {V : Type ℓ} → Bool → V → Space V → ℕ × Space V
allocate of_store v cells = (
  cells.next,
  record {
    next = suc cells.next;
    cell = put cells.next v cells.cell;
    of_store = put cells.next of_store cells.of_store;
  },
)

abbrev pub write {ℓ} : {V : Type ℓ} → ℕ → V → Space V → Space V
write p v cells = record cells { cell = put p v cells.cell }

-- A `FailedJob` as it lies in the heap: its payload is nil or the address of a map. The payload in
-- `fields` is not used.
pub record Struct : Type 0 where
  pub fields : FailedJob
  pub payload : Option ℕ

pub record Heap : Type 0 where
  pub jobs : Space Struct
  pub payloads : Space (Map String Any)

-- `clonePayload`
unfoldable pub clone_payload :
    Bool → Option ℕ → Space (Map String Any) → Option ℕ × Space (Map String Any)
clone_payload of_store none payloads = (none, payloads)
clone_payload of_store (some r) payloads =
    let (copy, payloads') =
      allocate of_store (rebuild (λ value. value) (payloads.cell r)) payloads in
    (some copy, payloads')

-- `cloneFailedJob`, from `cloned := *job` on
abbrev pub copy_job : Bool → Struct → Heap → ℕ × Heap
copy_job of_store job h =
    let (payload, payloads) = clone_payload of_store job.payload h.payloads in
    let (copy, jobs) =
      allocate of_store (record { fields = job.fields; payload = payload }) h.jobs in
    (copy, record { jobs = jobs; payloads = payloads })

unfoldable pub clone_failed_job : Bool → ℕ → Heap → ℕ × Heap
clone_failed_job of_store p h = copy_job of_store (h.jobs.cell p) h

-- the heap, and the map of the store
pub record Shared : Type 0 where
  pub heap : Heap
  pub failed : Map Uuid ℕ

unfoldable pub insert_to_failed : ℕ → Shared → Result (Unit {0}) × Shared
insert_to_failed p c =
    let id = (c.heap.jobs.cell p).fields.id in
    if contains id c.failed
    then (err duplicate_job, c)
    else (let (stored, h) = clone_failed_job true p c.heap in
        (ok tt, record { heap = h; failed = set id stored c.failed }))

unfoldable pub get_failed : Uuid → Shared → Result (Option ℕ) × Shared
get_failed id c = elim (lookup id c.failed) [
  | none ↦ (ok none, c)
  | some stored ↦
      let (job, h) = clone_failed_job false stored c.heap in (ok (some job), record c { heap = h })
]

unfoldable pub claim_failed : Uuid → Shared → Result (Option ℕ) × Shared
claim_failed id c = elim (lookup id c.failed) [
  | none ↦ (ok none, c)
  | some stored ↦
      let (job, h) = clone_failed_job false stored c.heap in
      (ok (some job), record { heap = h; failed = delete id c.failed })
]

unfoldable pub delete_from_failed : Uuid → Shared → Result (Unit {0}) × Shared
delete_from_failed id c = (ok tt, record c { failed = delete id c.failed })
