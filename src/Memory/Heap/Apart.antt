-- ===== src/Memory/Heap/Apart.antt =====
-- What belongs to the store and what to the callers is kept apart.
use xwork.Prelude.{
  ℕ, Bool, true, false, Option, none, some, List, [], ◌∷◌, ◌≡◌, refl, ap, subst, arith, eqb, inl,
  inr, Bool-cases, nat_eq, string_eq, String,
}
use xwork.Prelude.Result.{Result, ok, err}
use mathlib.Core.Option as Opt
use xwork.GoMap.{Map, rebuild}
use xwork.Payload as Payload
use xwork.Payload.{Any}
use xwork.Job.{Uuid}
use xwork.Memory.State as State
use xwork.Memory.Heap.{
  Struct, Heap, Space, allocate, write, put, Shared, get_failed, claim_failed, clone_payload,
  clone_failed_job,
}
use xwork.Memory.Heap.Traffic.{IsFor, IsPayloadFor, job_at, values_of, Deed, do_deed}

-- a change that keeps addresses in use, for whom they are, and leaves the store's cells alone
pub record Leaves {V : Type 0} (a b : Space V) : Type 0 where
  pub grows : (owner : Bool) (r : ℕ) → IsFor owner a r → IsFor owner b r
  pub same : (r : ℕ) → IsFor true a r → b.cell r ≡ a.cell r

module _ {V : Type 0} (a : Space V) where
  pub self-Leaves : Leaves a a
  self-Leaves = record { grows = λ owner r h. h; same = λ r h. refl }

  pub allocate-Leaves : (owner : Bool) (v : V) → Leaves a (allocate owner v a).1
  allocate-Leaves owner v = record { grows = λ other r h. ground arith; same = λ r h. ground arith }

  -- the new address
  pub allocate-IsFor :
      (owner : Bool) (v : V) → IsFor owner (allocate owner v a).1 (allocate owner v a).0
  allocate-IsFor owner v = ground arith

  pub write-Leaves : (r : ℕ) (v : V) → IsFor false a r → Leaves a (write r v a)
  write-Leaves r v mine = record { grows = λ owner q h. h; same = λ q h. ground arith }

payload_grows :
    {V : Type 0} (a b : Space V)
    → Leaves a b
    → (owner : Bool) (payload : Option ℕ) → IsPayloadFor owner a payload
    → IsPayloadFor owner b payload
payload_grows a b leaves owner none h = tt
payload_grows a b leaves owner (some r) h = leaves.grows owner r h

abbrev pub HeapLeaves : Heap → Heap → Type 0
HeapLeaves h h' = Leaves h.jobs h'.jobs × Leaves h.payloads h'.payloads

-- a job and its payload, for the store or for a caller
abbrev pub IsJobFor : Bool → Heap → ℕ → Type 0
IsJobFor owner h p = IsFor owner h.jobs p × IsPayloadFor owner h.payloads (h.jobs.cell p).payload

abbrev pub AllStored : Heap → Map Uuid ℕ → Type 0
AllStored h [] = Unit {0}
AllStored h ((id, p) ∷ m) = IsJobFor true h p × AllStored h m

-- What the callers' jobs have for payloads stays theirs.
abbrev pub Called : Space Struct → Space (Map String Any) → Type 0
Called jobs payloads =
    (q : ℕ) → IsFor false jobs q → IsPayloadFor false payloads (jobs.cell q).payload

-- The map of the store has addresses of the store, and a caller's job has a caller's payload.
pub record IsApart (c : Shared) : Type 0 where
  pub stored : AllStored c.heap c.failed
  pub called : Called c.heap.jobs c.heap.payloads

-- A pointer that the store gives away is one of the callers, and so is its payload.
abbrev pub IsGivenBy : Result (Option ℕ) × Shared → Type 0
IsGivenBy (ok none, c) = Unit {0}
IsGivenBy (ok (some p), c) = IsJobFor false c.heap p
IsGivenBy (err e, c) = Unit {0}

abbrev pub IsGiven : Deed → Shared → Type 0
IsGiven (Deed.gets id) c = IsGivenBy (get_failed id c)
IsGiven (Deed.claims id) c = IsGivenBy (claim_failed id c)
IsGiven _ c = Unit {0}

abbrev pub AreGiven : List Deed → Shared → Type 0
AreGiven [] c = Unit {0}
AreGiven (deed ∷ deeds) c = IsGiven deed c × AreGiven deeds (do_deed deed c).1

module _ (h h' : Heap) (leaves : HeapLeaves h h') where
  same_payload :
      (payload : Option ℕ)
      → IsPayloadFor true h.payloads payload
      → Opt.map h'.payloads.cell payload ≡ Opt.map h.payloads.cell payload
  same_payload none u = refl
  same_payload (some r) mine = ap some (leaves.1.same r mine)

  pub same_job : (p : ℕ) → IsJobFor true h p → (job_at h' p ≡ job_at h p) × IsJobFor true h' p
  same_job p (mine, payload_mine) =
      let cell = leaves.0.same p mine in
      let payload = same_payload (h.jobs.cell p).payload payload_mine in
      (
        rw (cell, payload) refl,
        (
          leaves.0.grows true p mine,
          rw cell (
              payload_grows h.payloads h'.payloads leaves.1 true (h.jobs.cell p).payload
                payload_mine),
        ),
      )

  -- what the store has stays as it was
  pub same_values :
      (m : Map Uuid ℕ) → AllStored h m → (values_of h' m ≡ values_of h m) × AllStored h' m
  unfolding values_of
  same_values [] u = (refl, tt)
  same_values ((id, p) ∷ m) (job, rest) =
      let (same, job') = same_job p job in
      let (others, rest') = same_values m rest in (rw (same, others) refl, (job', rest'))

put_self : {V : Type 0} (p : ℕ) (v : V) (f : ℕ → V) → put p v f p ≡ v
put_self p v f = ground arith

module _ (jobs : Space Struct) (payloads payloads' : Space (Map String Any))
    (leaves : Leaves payloads payloads') where
  pub grown-Called : Called jobs payloads → Called jobs payloads'
  grown-Called before q mine =
      payload_grows payloads payloads' leaves false (jobs.cell q).payload (before q mine)

  pub allocated-Called :
      (owner : Bool) (job : Struct)
      → IsPayloadFor owner payloads' job.payload
      → Called jobs payloads
      → Called (allocate owner job jobs).1 payloads'
  allocated-Called owner job fits before q mine = elim (Bool-cases (eqb q jobs.next)) [
    | inl new ↦
        let callers : owner ≡ false = rw new at mine.1 in
        rw new (subst (λ o. IsPayloadFor o payloads' job.payload) callers fits)
    | inr old ↦ let used : IsFor false jobs q = ground arith in rw old (grown-Called before q used)
  ]

  pub written-Called :
      (p : ℕ) (job : Struct)
      → IsPayloadFor false payloads' job.payload
      → Called jobs payloads
      → Called (write p job jobs) payloads'
  written-Called p job fits before q mine = elim (Bool-cases (eqb q p)) [
    | inl written ↦ rw written fits
    | inr other ↦ rw other (grown-Called before q mine)
  ]

-- A payload that was copied: it is a new map with the same entries, and nothing else has changed.
copied_payload :
    (owner : Bool) (payload : Option ℕ) (payloads : Space (Map String Any))
    → let copy = clone_payload owner payload payloads in
      Leaves payloads copy.1
      × IsPayloadFor owner copy.1 copy.0
      × (Opt.map (copy.1).cell copy.0 ≡ Payload.clone_payload (Opt.map payloads.cell payload))
unfolding clone_payload Payload.clone_payload
copied_payload owner none payloads = (self-Leaves payloads, tt, refl)
copied_payload owner (some r) payloads =
    let content = rebuild (λ value. value) (payloads.cell r) in
    (
      allocate-Leaves payloads owner content,
      allocate-IsFor payloads owner content,
      ap some (put_self payloads.next content payloads.cell),
    )

-- A job that was copied: it is a job of the new owner with the same value, and the rest is as before.
module _ (owner : Bool) (p : ℕ) (h : Heap) where
  abbrev copy : ℕ × Heap
  copy = clone_failed_job owner p h

  abbrev cloned : Struct
  cloned = record {
    fields = (h.jobs.cell p).fields;
    payload = (clone_payload owner (h.jobs.cell p).payload h.payloads).0;
  }

  pub clone-Leaves : HeapLeaves h copy.1
  unfolding clone_failed_job
  clone-Leaves = (
    allocate-Leaves h.jobs owner cloned,
    (copied_payload owner (h.jobs.cell p).payload h.payloads).0,
  )

  pub clone-IsJobFor : IsJobFor owner copy.1 copy.0
  unfolding clone_failed_job
  clone-IsJobFor = (
    allocate-IsFor h.jobs owner cloned,
    rw (put_self h.jobs.next cloned h.jobs.cell)
        (copied_payload owner (h.jobs.cell p).payload h.payloads).1,
  )

  pub job_at-clone : job_at copy.1 copy.0 ≡ State.clone_failed_job (job_at h p)
  unfolding clone_failed_job State.clone_failed_job
  job_at-clone =
      let (leaves, mine, same) = copied_payload owner (h.jobs.cell p).payload h.payloads in
      rw (put_self h.jobs.next cloned h.jobs.cell, same) refl

  -- a caller's job has a caller's payload still
  pub clone-Called : Called h.jobs h.payloads → Called copy.1.jobs copy.1.payloads
  unfolding clone_failed_job
  clone-Called before =
      let (leaves, mine, same) = copied_payload owner (h.jobs.cell p).payload h.payloads in
      allocated-Called h.jobs h.payloads copy.1.payloads leaves owner cloned mine before
