-- ===== src/Memory/Unique.antt =====
-- Lists of jobs in which no id occurs twice, as the loops over a table build them.
use xwork.Prelude.{
  Bool, none, some, List, [], ◌∷◌, ◌≡◌, ◌≢◌, refl, sym, subst, arith, nat_eq, keep, All, In,
  Bool-cases, inl, inr, ltb, Option-cases,
}
use xwork.Prelude.Sort.{sort_slice, insert_sorted}
use xwork.GoMap.{Map, lookup, values, Distinct}
use xwork.Payload.{Payload}
use xwork.Job.{Uuid, Time, ProcessingJob}
use xwork.Memory.State.{clone_processing_job}
use xwork.Memory.Processing.{stale}
use xwork.Memory.Stored.{Stored, In-values, lookup-Stored}

abbrev pub Unique : {V : Type 0} → (V → Uuid) → List V → Type 0
Unique id [] = Unit
Unique id (x ∷ xs) = All (λ y. id y ≢ id x) xs × Unique id xs

module _ {V : Type 0} where
  pub In-All : (P : V → Type 0) (xs : List V) → ((x : V) → In x xs → P x) → All P xs
  In-All P [] h = tt
  In-All P (x ∷ xs) h = (h x (inl refl), In-All P xs (λ y i. h y (inr i)))

  pub All-In : (P : V → Type 0) (xs : List V) → All P xs → (x : V) → In x xs → P x
  All-In P [] h x i = absurd i
  All-In P (y ∷ ys) h x (inl e) = subst P e h.0
  All-In P (y ∷ ys) h x (inr i) = All-In P ys h.1 x i

  All-keep : (P : V → Type 0) (p : V → Bool) (xs : List V) → All P xs → All P (keep p xs)
  unfolding keep
  All-keep P p [] h = tt
  All-keep P p (x ∷ xs) h = elim (Bool-cases (p x)) [
    | inl pass ↦ rw pass (h.0, All-keep P p xs h.1)
    | inr stop ↦ rw stop (All-keep P p xs h.1)
  ]

  All-insert_sorted :
      (P : V → Type 0) (less : V → V → Bool) (x : V) (xs : List V)
      → P x
      → All P xs
      → All P (insert_sorted less x xs)
  unfolding insert_sorted
  All-insert_sorted P less x [] h hs = (h, tt)
  All-insert_sorted P less x (y ∷ ys) h hs = elim (Bool-cases (less y x)) [
    | inl before ↦ rw before (hs.0, All-insert_sorted P less x ys h hs.1)
    | inr after ↦ rw after (h, hs)
  ]

  All-sort_slice :
      (P : V → Type 0) (less : V → V → Bool) (xs : List V) → All P xs → All P (sort_slice less xs)
  unfolding sort_slice
  All-sort_slice P less [] h = tt
  All-sort_slice P less (x ∷ xs) h =
      All-insert_sorted P less x (sort_slice less xs) h.0 (All-sort_slice P less xs h.1)

  module _ (id : V → Uuid) where
    pub Unique-keep : (p : V → Bool) (xs : List V) → Unique id xs → Unique id (keep p xs)
    unfolding keep
    Unique-keep p [] u = tt
    Unique-keep p (x ∷ xs) u = elim (Bool-cases (p x)) [
      | inl pass ↦ rw pass (All-keep (λ y. id y ≢ id x) p xs u.0, Unique-keep p xs u.1)
      | inr stop ↦ rw stop (Unique-keep p xs u.1)
    ]

    Unique-insert_sorted :
        (less : V → V → Bool) (x : V) (xs : List V)
        → All (λ y. id y ≢ id x) xs
        → Unique id xs
        → Unique id (insert_sorted less x xs)
    unfolding insert_sorted
    Unique-insert_sorted less x [] new u = (tt, tt)
    Unique-insert_sorted less x (y ∷ ys) new u = elim (Bool-cases (less y x)) [
      | inl before ↦ rw before (
        All-insert_sorted (λ z. id z ≢ id y) less x ys (λ e. new.0 (sym e)) u.0,
        Unique-insert_sorted less x ys new.1 u.1,
      )
      | inr after ↦ rw after (new, u)
    ]

    pub Unique-sort_slice :
        (less : V → V → Bool) (xs : List V) → Unique id xs → Unique id (sort_slice less xs)
    unfolding sort_slice
    Unique-sort_slice less [] u = tt
    Unique-sort_slice less (x ∷ xs) u =
        Unique-insert_sorted less x (sort_slice less xs)
          (All-sort_slice (λ y. id y ≢ id x) less xs u.0) (Unique-sort_slice less xs u.1)

    pub Unique-values :
        (payload : V → Payload) (m : Map Uuid V) → Stored id payload m → Unique id (values m)
    Unique-values payload [] d = tt
    Unique-values payload ((k, v) ∷ m) d = (
      In-All (λ y. id y ≢ id v) (values m) (λ y i. other y ((In-values id payload y m d.3).0 i)),
      Unique-values payload m d.3,
    )
      where
        other : (y : V) → lookup (id y) m ≡ some y → id y ≢ id v
        other y there e = ground (arith, there, e, d.0, d.1)

-- no key of the heartbeats is an id of a job of another key
stale-fresh :
    (timestamp : Time) (k : Uuid) (processing : Map Uuid ProcessingJob) (m : Map Uuid Time)
    → Stored (λ (j : ProcessingJob). j.id) (λ j. j.payload) processing
    → lookup k m ≡ none
    → All (λ (j : ProcessingJob). j.id ≢ k) (stale timestamp processing m)
unfolding stale lookup clone_processing_job
stale-fresh timestamp k processing [] d h = tt
stale-fresh timestamp k processing ((id, beat) ∷ rest) d h =
    elim (Option-cases (lookup id processing)) [
      | inl gone ↦ rw gone (ground (arith, stale-fresh timestamp k processing rest d, h))
      | inr (job, there) ↦
          let same : job.id ≡ id =
            (lookup-Stored (λ (j : ProcessingJob). j.id) (λ j. j.payload) id job processing d
              there).0 in
          rw there (ground (arith, stale-fresh timestamp k processing rest d, h, same))
    ]

pub Unique-stale :
    (timestamp : Time) (processing : Map Uuid ProcessingJob) (m : Map Uuid Time)
    → Stored (λ (j : ProcessingJob). j.id) (λ j. j.payload) processing
    → Distinct m
    → Unique (λ (j : ProcessingJob). j.id) (stale timestamp processing m)
unfolding stale clone_processing_job
Unique-stale timestamp processing [] d u = tt
Unique-stale timestamp processing ((id, beat) ∷ rest) d u =
    elim (Option-cases (lookup id processing)) [
      | inl gone ↦ rw gone (ground (arith, Unique-stale timestamp processing rest d u.1))
      | inr (job, there) ↦
          let same : job.id ≡ id =
            (lookup-Stored (λ (j : ProcessingJob). j.id) (λ j. j.payload) id job processing d
              there).0 in
          let fresh : All (λ (j : ProcessingJob). j.id ≢ job.id) (stale timestamp processing rest) =
            subst (λ i. All (λ (j : ProcessingJob). j.id ≢ i) (stale timestamp processing rest))
              (sym same) (stale-fresh timestamp id processing rest d u.0) in
          rw there (elim (Bool-cases (ltb beat timestamp)) [
            | inl old ↦ rw old (fresh, Unique-stale timestamp processing rest d u.1)
            | inr young ↦ rw young (Unique-stale timestamp processing rest d u.1)
          ])
    ]
