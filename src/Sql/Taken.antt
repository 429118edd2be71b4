-- ===== src/Sql/Taken.antt =====
-- `DeleteFromQueue` of storage/sql.go takes a job as the one of storage/memory.go does.
use xwork.Prelude.{
  Option, none, some, List, [], ◌∷◌, map, String, ◌≡◌, refl, sym, ap, ◌∙◌, subst, nat_eq, string_eq,
  In, inl, inr,
}
use text.Mathlib.TextEquality.{eq_iff}
use xwork.Prelude.Result.{Result, ok, lift}
use xwork.GoMap.{lookup, delete, values}
use xwork.Job.{Uuid, EnqueuedJob}
use xwork.Memory.State.{MemoryState}
use xwork.Memory.Stored.{lookup-Stored, In-values}
use xwork.Memory.Queue.Oldest.{Claims}
use xwork.Sql.Driver.{Value, Driver, Json}
use xwork.Sql.Scan.{scan_enqueued, scan_optional}
use xwork.Sql.Queue.{delete_from_queue}
use xwork.Sql.Engine.{Table, Stored, columns_of}
use xwork.Sql.Engine.Writes.{projected, without_row}
use xwork.Sql.Engine.Oldest.{TakesOldest, IsOldest, taken, take_text}
use xwork.Sql.Stored.{stored_enqueued, scan_enqueued-stored}
use xwork.Sql.Listing.{Holds}
use xwork.Sql.Rows.{without_row-values, In-delete}
use xwork.Sql.Steps.{bind_ok}
use xwork.Sql.Moves.Match.{Relates}
use xwork.Sql.Moves.Parts.{enqueued_part}

In-map :
    {A B : Type 0} (f : A → B) (y : B) (xs : List A)
    → In y (map f xs)
    → (x : A) × In x xs × (f x ≡ y)
In-map f y [] h = absurd h
In-map f y (x ∷ xs) (inl e) = (x, inl refl, e)
In-map f y (x ∷ xs) (inr h) = let (z, there, e) = In-map f y xs h in (z, inr there, e)

map-In : {A B : Type 0} (f : A → B) (x : A) (xs : List A) → In x xs → In (f x) (map f xs)
map-In f x [] h = absurd h
map-In f x (y ∷ xs) (inl e) = inl (ap f e)
map-In f x (y ∷ xs) (inr h) = inr (map-In f x xs h)

-- An outcome that `Claims` allows on the state that the tables held before, and tables that hold the
-- state which it leaves.
abbrev pub IsTaken :
    {Db : Type 0}
    → Json
    → (Db → Table → List Stored)
    → String
    → MemoryState
    → Result (Option EnqueuedJob) × Db
    → Type 0
IsTaken json tables queue s r =
    (t : MemoryState) × Claims queue s (r.0, t) × Holds json (tables r.1) t

module _ (json : Json) (driver : Driver) (tables : driver.Db → Table → List Stored) (queue : String)
    (s : MemoryState) (db : driver.Db) (related : Relates json (tables db) s) where
  abbrev rows : List Stored
  rows = map (stored_enqueued json) (values s.enqueued)

  -- the jobs of the table are those of the map
  there_iff :
      (id : Uuid) (job : EnqueuedJob)
      → lookup id s.enqueued ≡ some job
      → In (stored_enqueued json job) rows
  there_iff id job there =
      let own =
        (lookup-Stored (λ (j : EnqueuedJob). j.id) (λ j. j.payload) id job s.enqueued
          related.1.enqueued there).0 in
      map-In (stored_enqueued json) job (values s.enqueued) (
        (In-values (λ (j : EnqueuedJob). j.id) (λ j. j.payload) job s.enqueued related.1.enqueued).1
          (subst (λ k. lookup k s.enqueued ≡ some job) (sym own) there))

  took_none :
      (db' : driver.Db)
      → IsOldest queue rows none
      → tables db' ≡ tables db
      → IsTaken json tables queue s (ok none, db')
  took_none db' oldest same = (
    s,
    (
      refl,
      λ id job there h.
          let other = oldest (stored_enqueued json job) (there_iff id job there) in
          let this = (eq_iff job.queue queue).1 h in cc,
    ),
    subst (λ t. Holds json t s) (sym same) related.0,
  )

  took_job :
      (db' : driver.Db) (job : EnqueuedJob)
      → In job (values s.enqueued)
      → IsOldest queue rows (some (stored_enqueued json job))
      → tables db' ≡ taken (some (stored_enqueued json job)) (tables db)
      → IsTaken json tables queue s (ok (some job), db')
  took_job db' job there (row_there, own_queue, first) same = (
    record s { enqueued = delete job.id s.enqueued },
    (
      (In-values (λ (j : EnqueuedJob). j.id) (λ j. j.payload) job s.enqueued related.1.enqueued).0
          there,
      (eq_iff job.queue queue).0 own_queue,
      λ id other found h.
          first (stored_enqueued json other) (there_iff id other found)
            ((eq_iff other.queue queue).1 h),
      refl,
    ),
    subst (λ t. Holds json t (record s { enqueued = delete job.id s.enqueued })) (sym same)
        ((enqueued_part json).put-Holds (tables db) s _ (delete job.id s.enqueued) related.0
          (ap (without_row job.id) related.0.enqueued
            ∙ without_row-values (λ (j : EnqueuedJob). j.id) (λ j. j.payload) (stored_enqueued json)
                (λ j. refl) job.id s.enqueued related.1.enqueued)
          (λ other h. related.0.enqueued_kept other (In-delete job.id other s.enqueued h))),
  )

  -- the taken row, once it is scanned
  abbrev scan_of : Option Stored → Result (Option EnqueuedJob)
  scan_of found =
      scan_optional (scan_enqueued json driver.scan_error)
        (projected (columns_of Table.xwork_queue) found)

  scanned_job :
      (db' : driver.Db) (job : EnqueuedJob)
      → In job (values s.enqueued)
      → IsOldest queue rows (some (stored_enqueued json job))
      → tables db' ≡ taken (some (stored_enqueued json job)) (tables db)
      → IsTaken json tables queue s (scan_of (some (stored_enqueued json job)), db')
  scanned_job db' job there oldest same =
      let kept = related.0.enqueued_kept job there in
      let e : scan_of (some (stored_enqueued json job)) ≡ ok (some job) =
        rw (scan_enqueued-stored json driver.scan_error job kept) refl in
      subst (λ r. IsTaken json tables queue s (r, db')) (sym e) (took_job db' job there oldest same)

  scanned :
      (found : Option Stored) (db' : driver.Db)
      → IsOldest queue rows found
      → tables db' ≡ taken found (tables db)
      → IsTaken json tables queue s (scan_of found, db')
  scanned none db' oldest same = took_none db' oldest same
  scanned (some row) db' (row_there, own_queue, first) same =
      let (job, there, is_row) = In-map (stored_enqueued json) row (values s.enqueued) row_there in
      subst
        (λ r.
          IsOldest queue rows (some r)
          → tables db' ≡ taken (some r) (tables db)
          → IsTaken json tables queue s (scan_of (some r), db'))
        is_row (scanned_job db' job there) (row_there, own_queue, first) same

  -- For a database that answers the statement of `DeleteFromQueue` with an oldest row of the
  -- queue, whichever of those, and deletes it, or with none where the queue has none, and whose
  -- tables hold the jobs of a well-formed state: `DeleteFromQueue` over the SQL adapter returns
  -- what `Claims`, the specification of the in-memory one, allows on that state, and leaves
  -- tables that hold the state which `Claims` says is left.
  pub delete_from_queue-IsTaken :
      TakesOldest driver tables
      → IsTaken json tables queue s (delete_from_queue json driver queue db)
  unfolding delete_from_queue
  delete_from_queue-IsTaken takes =
      let (found, db', e, oldest, same) = takes queue db in
      subst (λ r. IsTaken json tables queue s r)
        (sym (
          bind_ok (driver.query_row take_text (Value.text queue ∷ []))
            (λ row. lift (scan_optional (scan_enqueued json driver.scan_error) row)) db _ db' e))
        (scanned found db' (subst (λ rs. IsOldest queue rs found) related.0.enqueued oldest) same)
