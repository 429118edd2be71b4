-- ===== src/Memory/Heap/Calls.antt =====
-- The calls of the failed jobs with pointers, and on values, where the id is there and where not.
use xwork.Prelude.{
  ℕ, true, false, none, some, [], ◌∷◌, ◌≡◌, refl, arith, nat_eq, string_eq, ◌==◌, inl, inr,
  Bool-cases,
}
use xwork.Prelude.Result.{ok, err, duplicate_job}
use mathlib.Core.Option as Opt
use xwork.GoMap.{Map, lookup, set, delete}
use xwork.Job.{Uuid}
use xwork.Memory.State as State
use xwork.Memory.State.{MemoryState, new_memory_state}
use xwork.Memory.Finished as Finished
use xwork.Memory.Heap.{Heap, Shared, clone_failed_job, insert_to_failed, get_failed, claim_failed}
use xwork.Memory.Heap.Traffic.{Deed, job_at, values_of, view, do_deed, value_deed}
use xwork.Memory.Heap.Apart.{AllStored}

module _ (h : Heap) where
  pub lookup-values_of :
      (id : Uuid) (m : Map Uuid ℕ) → lookup id (values_of h m) ≡ Opt.map (job_at h) (lookup id m)
  unfolding lookup values_of
  lookup-values_of id [] = refl
  lookup-values_of id ((j, p) ∷ m) = elim (Bool-cases (j == id)) [
    | inl h ↦ rw h refl
    | inr h ↦ rw h (lookup-values_of id m)
  ]

  pub values_of-delete :
      (id : Uuid) (m : Map Uuid ℕ) → values_of h (delete id m) ≡ delete id (values_of h m)
  unfolding delete values_of
  values_of-delete id [] = refl
  values_of-delete id ((j, p) ∷ m) = elim (Bool-cases (j == id)) [
    | inl h ↦ rw h (values_of-delete id m)
    | inr h ↦ rw (h, values_of-delete id m) refl
  ]

  pub delete-AllStored : (id : Uuid) (m : Map Uuid ℕ) → AllStored h m → AllStored h (delete id m)
  unfolding delete
  delete-AllStored id [] u = tt
  delete-AllStored id ((j, p) ∷ m) (job, rest) = elim (Bool-cases (j == id)) [
    | inl h ↦ rw h (delete-AllStored id m rest)
    | inr h ↦ rw h (job, delete-AllStored id m rest)
  ]

module _ (c : Shared) where
  -- the calls of the store, where the id is not there and where it is
  pub gets-none :
      (id : Uuid)
      → lookup id c.failed ≡ none
      → (do_deed (Deed.gets id) c ≡ (ok none, c))
        × (value_deed (Deed.gets id) c.heap (view c) ≡ (ok none, view c))
  unfolding do_deed value_deed get_failed Finished.get_failed
  gets-none id gone = (ground (arith, gone), rw (lookup-values_of c.heap id c.failed, gone) refl)

  pub gets-some :
      (id : Uuid) (p : ℕ)
      → lookup id c.failed ≡ some p
      → let copy = clone_failed_job false p c.heap in
        (do_deed (Deed.gets id) c ≡ (ok (some (job_at copy.1 copy.0)), record c { heap = copy.1 }))
        × (value_deed (Deed.gets id) c.heap (view c)
            ≡ (ok (some (State.clone_failed_job (job_at c.heap p))), view c))
  unfolding do_deed value_deed get_failed Finished.get_failed
  gets-some id p there =
      (ground (arith, there), rw (lookup-values_of c.heap id c.failed, there) refl)

  pub claims-none :
      (id : Uuid)
      → lookup id c.failed ≡ none
      → (do_deed (Deed.claims id) c ≡ (ok none, c))
        × (value_deed (Deed.claims id) c.heap (view c) ≡ (ok none, view c))
  unfolding do_deed value_deed claim_failed Finished.claim_failed
  claims-none id gone =
      let absent : lookup id (values_of c.heap c.failed) ≡ none =
        rw (lookup-values_of c.heap id c.failed, gone) refl in
      (ground (arith, gone), ground (arith, absent))

  pub claims-some :
      (id : Uuid) (p : ℕ)
      → lookup id c.failed ≡ some p
      → let copy = clone_failed_job false p c.heap in
        (do_deed (Deed.claims id) c ≡ (
          ok (some (job_at copy.1 copy.0)),
          record { heap = copy.1; failed = delete id c.failed },
        ))
        × (value_deed (Deed.claims id) c.heap (view c) ≡ (
          ok (some (State.clone_failed_job (job_at c.heap p))),
          record new_memory_state { failed = delete id (values_of c.heap c.failed) },
        ))
  unfolding do_deed value_deed claim_failed Finished.claim_failed
  claims-some id p there =
      let present : lookup id (values_of c.heap c.failed) ≡ some (job_at c.heap p) =
        rw (lookup-values_of c.heap id c.failed, there) refl in
      (ground (arith, there), ground (arith, present))

  pub inserts-some :
      (p q : ℕ)
      → lookup (job_at c.heap p).id c.failed ≡ some q
      → (do_deed (Deed.inserts p) c ≡ (err duplicate_job, c))
        × (value_deed (Deed.inserts p) c.heap (view c) ≡ (err duplicate_job, view c))
  unfolding do_deed value_deed insert_to_failed Finished.insert_to_failed
  inserts-some p q there =
      let present : lookup (job_at c.heap p).id (values_of c.heap c.failed)
          ≡ some (job_at c.heap q) =
        rw (lookup-values_of c.heap (job_at c.heap p).id c.failed, there) refl in
      (ground (arith, there), ground (arith, present))

  pub inserts-none :
      (p : ℕ)
      → lookup (job_at c.heap p).id c.failed ≡ none
      → let copy = clone_failed_job true p c.heap in
        let id = (job_at c.heap p).id in
        (do_deed (Deed.inserts p) c
          ≡ (ok none, record { heap = copy.1; failed = set id copy.0 c.failed }))
        × (value_deed (Deed.inserts p) c.heap (view c) ≡ (
          ok none,
          record new_memory_state {
            failed = set id (State.clone_failed_job (job_at c.heap p)) (values_of c.heap c.failed);
          },
        ))
  unfolding do_deed value_deed insert_to_failed Finished.insert_to_failed
  inserts-none p gone =
      let absent : lookup (job_at c.heap p).id (values_of c.heap c.failed) ≡ none =
        rw (lookup-values_of c.heap (job_at c.heap p).id c.failed, gone) refl in
      (ground (arith, gone), ground (arith, absent))
