-- ===== src/Memory/Heap/Laws.antt =====
-- The pointers of storage/memory.go against the values of the model: callers cannot reach into the
-- store.
use xwork.Prelude.{
  ℕ, true, false, none, some, List, [], ◌∷◌, ◌≡◌, refl, ap, ◌∙◌, sym, subst, arith, nat_eq,
  string_eq, inl, inr, Option-cases,
}
use xwork.Prelude.Result.{ok}
use xwork.GoMap.{lookup, set, delete}
use xwork.Job.{Uuid, FailedJob}
use xwork.Memory.State.{MemoryState, new_memory_state}
use xwork.Memory.Finished as Finished
use xwork.Memory.Heap.{Heap, Shared, clone_failed_job, get_failed, claim_failed, delete_from_failed}
use xwork.Memory.Heap.Traffic.{
  Deed, Answer, job_at, values_of, view, do_deed, do_deeds, IsDeed, AreDeeds, value_deed,
  value_deeds, nothing_shared,
}
use xwork.Memory.Heap.Apart.{
  self-Leaves, allocate-Leaves, write-Leaves, HeapLeaves, IsApart, Called, IsGivenBy, IsGiven,
  AreGiven, same_values, grown-Called, allocated-Called, written-Called, clone-Leaves,
  clone-IsJobFor, clone-Called, job_at-clone,
}
use xwork.Memory.Heap.Calls.{
  values_of-delete, delete-AllStored, gets-none, gets-some, claims-none, claims-some, inserts-some,
  inserts-none,
}

-- the same answer, the state for what the store has, and things kept apart
abbrev Agrees : Answer × Shared → Answer × MemoryState → Type 0
Agrees r t = (r.0 ≡ t.0) × (view r.1 ≡ t.1) × IsApart r.1

module _ (c : Shared) (apart : IsApart c) where
  -- a caller writes to its own, or makes something
  unseen :
      (h : Heap) (answer : Answer)
      → HeapLeaves c.heap h
      → Called h.jobs h.payloads
      → Agrees (answer, record c { heap = h }) (answer, view c)
  unseen h answer leaves called =
      let (same, stored) = same_values c.heap h leaves c.failed apart.stored in
      (
        refl,
        ap (λ m. record new_memory_state { failed = m }) same,
        record { stored = stored; called = called },
      )

  outcome :
      (r r' : Answer × Shared) (t t' : Answer × MemoryState)
      → r ≡ r'
      → t ≡ t'
      → Agrees r' t'
      → Agrees r t
  outcome r r' t t' e e' agrees = rw (e, e') agrees

  inserts-Agrees :
      (p : ℕ) → Agrees (do_deed (Deed.inserts p) c) (value_deed (Deed.inserts p) c.heap (view c))
  unfolding set values_of
  inserts-Agrees p = elim (Option-cases (lookup (job_at c.heap p).id c.failed)) [
    | inr (q, there) ↦
        let (e, e') = inserts-some c p q there in outcome _ _ _ _ e e' (refl, refl, apart)
    | inl gone ↦
        let (e, e') = inserts-none c p gone in
        let id = (job_at c.heap p).id in
        let copy = clone_failed_job true p c.heap in
        let rest = delete-AllStored c.heap id c.failed apart.stored in
        let (same, stored) =
          same_values c.heap copy.1 (clone-Leaves true p c.heap) (delete id c.failed) rest in
        outcome _ _ _ _ e e' (
          refl,
          rw (job_at-clone true p c.heap, same, values_of-delete c.heap id c.failed) refl,
          record {
            stored = (clone-IsJobFor true p c.heap, stored);
            called = clone-Called true p c.heap apart.called;
          },
        )
  ]

  gets-Agrees :
      (id : Uuid) → Agrees (do_deed (Deed.gets id) c) (value_deed (Deed.gets id) c.heap (view c))
  gets-Agrees id = elim (Option-cases (lookup id c.failed)) [
    | inl gone ↦ let (e, e') = gets-none c id gone in outcome _ _ _ _ e e' (refl, refl, apart)
    | inr (p, there) ↦
        let (e, e') = gets-some c id p there in
        let copy = clone_failed_job false p c.heap in
        let (answer, same, now) =
          unseen copy.1 (ok none) (clone-Leaves false p c.heap)
            (clone-Called false p c.heap apart.called) in
        outcome _ _ _ _ e e' (ap (λ job. ok (some job)) (job_at-clone false p c.heap), same, now)
  ]

  claims-Agrees :
      (id : Uuid)
      → Agrees (do_deed (Deed.claims id) c) (value_deed (Deed.claims id) c.heap (view c))
  claims-Agrees id = elim (Option-cases (lookup id c.failed)) [
    | inl gone ↦ let (e, e') = claims-none c id gone in outcome _ _ _ _ e e' (refl, refl, apart)
    | inr (p, there) ↦
        let (e, e') = claims-some c id p there in
        let copy = clone_failed_job false p c.heap in
        let (same, stored) =
          same_values c.heap copy.1 (clone-Leaves false p c.heap) (delete id c.failed)
            (delete-AllStored c.heap id c.failed apart.stored) in
        outcome _ _ _ _ e e' (
          ap (λ job. ok (some job)) (job_at-clone false p c.heap),
          ap (λ m. record new_memory_state { failed = m })
              (same ∙ values_of-delete c.heap id c.failed),
          record { stored = stored; called = clone-Called false p c.heap apart.called },
        )
  ]

  deed-Agrees :
      (deed : Deed) → IsDeed deed c.heap → Agrees (do_deed deed c) (value_deed deed c.heap (view c))
  unfolding do_deed value_deed delete_from_failed Finished.delete_from_failed
  deed-Agrees (Deed.makes_payload payload) u =
      let leaves = allocate-Leaves c.heap.payloads false payload in
      unseen _ (ok none) (self-Leaves c.heap.jobs, leaves)
        (grown-Called c.heap.jobs c.heap.payloads _ leaves apart.called)
  deed-Agrees (Deed.makes_job job) fits =
      unseen _ (ok none) (allocate-Leaves c.heap.jobs false job, self-Leaves c.heap.payloads)
        (allocated-Called c.heap.jobs c.heap.payloads c.heap.payloads (self-Leaves c.heap.payloads)
          false job fits apart.called)
  deed-Agrees (Deed.writes_payload r payload) mine =
      let leaves = write-Leaves c.heap.payloads r payload mine in
      unseen _ (ok none) (self-Leaves c.heap.jobs, leaves)
        (grown-Called c.heap.jobs c.heap.payloads _ leaves apart.called)
  deed-Agrees (Deed.writes_job p job) (mine, fits) =
      unseen _ (ok none) (write-Leaves c.heap.jobs p job mine, self-Leaves c.heap.payloads)
        (written-Called c.heap.jobs c.heap.payloads c.heap.payloads (self-Leaves c.heap.payloads) p
          job fits apart.called)
  deed-Agrees (Deed.inserts p) mine = inserts-Agrees p
  deed-Agrees (Deed.gets id) u = gets-Agrees id
  deed-Agrees (Deed.claims id) u = claims-Agrees id
  deed-Agrees (Deed.deletes id) u = (
    refl,
    ap (λ m. record new_memory_state { failed = m }) (values_of-delete c.heap id c.failed),
    record { stored = delete-AllStored c.heap id c.failed apart.stored; called = apart.called },
  )

  gets-IsGiven : (id : Uuid) → IsGiven (Deed.gets id) c
  unfolding get_failed
  gets-IsGiven id = elim (Option-cases (lookup id c.failed)) [
    | inl gone ↦
        let e : get_failed id c ≡ (ok none, c) = ground (arith, gone) in
        subst (λ r. IsGivenBy r) (sym e) tt
    | inr (p, there) ↦
        let copy = clone_failed_job false p c.heap in
        let e : get_failed id c ≡ (ok (some copy.0), record c { heap = copy.1 }) =
          ground (arith, there) in
        subst (λ r. IsGivenBy r) (sym e) (clone-IsJobFor false p c.heap)
  ]

  claims-IsGiven : (id : Uuid) → IsGiven (Deed.claims id) c
  unfolding claim_failed
  claims-IsGiven id = elim (Option-cases (lookup id c.failed)) [
    | inl gone ↦
        let e : claim_failed id c ≡ (ok none, c) = ground (arith, gone) in
        subst (λ r. IsGivenBy r) (sym e) tt
    | inr (p, there) ↦
        let copy = clone_failed_job false p c.heap in
        let e : claim_failed id c
            ≡ (ok (some copy.0), record { heap = copy.1; failed = delete id c.failed }) =
          ground (arith, there) in
        subst (λ r. IsGivenBy r) (sym e) (clone-IsJobFor false p c.heap)
  ]

  deed-IsGiven : (deed : Deed) → IsGiven deed c
  deed-IsGiven (Deed.gets id) = gets-IsGiven id
  deed-IsGiven (Deed.claims id) = claims-IsGiven id
  deed-IsGiven (Deed.makes_payload payload) = tt
  deed-IsGiven (Deed.makes_job job) = tt
  deed-IsGiven (Deed.writes_payload r payload) = tt
  deed-IsGiven (Deed.writes_job p job) = tt
  deed-IsGiven (Deed.inserts p) = tt
  deed-IsGiven (Deed.deletes id) = tt

-- From a heap where what belongs to the store and what to the callers is apart, callers do any
-- deeds in any order: they make jobs and payload maps, write to those that are theirs, at any time,
-- and insert, get, claim and delete failed jobs. Then every call returns a job with the value, or
-- the error, that the method on values gives; the store has in the end the values that the methods
-- on values leave, where an insertion takes the job as it is at the call; what belongs to the store
-- is still apart; and every pointer that is returned, and its payload, is one of the callers.
pub do_deeds-value_deeds :
    (deeds : List Deed) (c : Shared)
    → IsApart c
    → AreDeeds deeds c
    → ((do_deeds deeds c).0 ≡ (value_deeds deeds c (view c)).0)
      × (view (do_deeds deeds c).1 ≡ (value_deeds deeds c (view c)).1)
      × IsApart (do_deeds deeds c).1
      × AreGiven deeds c
unfolding do_deeds value_deeds
do_deeds-value_deeds [] c apart u = (refl, refl, apart, tt)
do_deeds-value_deeds (deed ∷ deeds) c apart (fits, rest) =
    let (answer, same, after) = deed-Agrees c apart deed fits in
    let (answers, final, apart', given) =
      do_deeds-value_deeds deeds (do_deed deed c).1 after rest in
    (
      rw (answer, sym same, answers) refl,
      rw (sym same) final,
      apart',
      (deed-IsGiven c apart deed, given),
    )

pub nothing_shared-IsApart : (blank : FailedJob) → IsApart (nothing_shared blank)
nothing_shared-IsApart blank = record { stored = tt; called = λ p mine. tt }
