-- ===== src/Sql/Moves/Match.antt =====
-- Outcomes of a method over storage/sql.go and over storage/memory.go that fit together.
use xwork.Prelude.{false, List, String, ◌≡◌, refl, sym, ◌∙◌, subst}
use xwork.Prelude.Result.{Action, Error, Result, ok, err, ◌>>=◌, is_panic, external, duplicate_job}
use xwork.Memory.State as Mem
use xwork.Memory.State.{MemoryState}
use xwork.Memory.Invariant.{IsValid, transact_lem}
use xwork.Sql.Driver.{Driver, Json}
use xwork.Sql.Adapter.{transact}
use xwork.Sql.Transactions.{transact-IsEnded, IsEnded}
use xwork.Sql.Engine.{Table, Stored}
use xwork.Sql.Engine.Writes.{Serves}
use xwork.Sql.Listing.{Holds}
use xwork.Sql.Steps.{Keeps}

-- The error over SQL for an error of the in-memory adapter: the text that the driver has for a
-- violated primary key of some table, where the in-memory adapter has `duplicateJobError`.
abbrev pub IsDriverError : (Table → String) → Error → Error → Type 0
IsDriverError violation duplicate_job x = (t : Table) × (x ≡ external (violation t))
IsDriverError violation e x = x ≡ e

-- the result in memory, and the one over SQL
abbrev pub Tells : {A : Type 0} → (Table → String) → Result A → Result A → Type 0
Tells violation (ok a) r = r ≡ ok a
Tells violation (err e) (ok a) = ⊥
Tells violation (err e) (err x) = IsDriverError violation e x

abbrev pub IsCalm : {A : Type 0} → Result A → Type 0
IsCalm (ok a) = Unit {0}
IsCalm (err e) = is_panic e ≡ false

-- Tables that hold the jobs of a well-formed state.
abbrev pub Relates : Json → (Table → List Stored) → MemoryState → Type 0
Relates json rows s = Holds json rows s × IsValid s

module _ (json : Json) (driver : Driver) (tables saved : driver.Db → Table → List Stored)
    (violation : Table → String) where
  -- The same result but for the driver's errors, which is no panic, and tables for the state.
  abbrev pub Matches : {A : Type 0} → Result A × driver.Db → Result A × MemoryState → Type 0
  Matches p q = Tells violation q.0 p.0 × IsCalm p.0 × Relates json (tables p.1) q.1

  -- Two actions that do so on every state and tables for it.
  abbrev pub Fits : {A : Type 0} → Action driver.Db A → Action MemoryState A → Type 0
  Fits f g = (db : driver.Db) (s : MemoryState) → Relates json (tables db) s → Matches (f db) (g s)

  module _ {A B : Type 0} (k : A → Action driver.Db B) (l : A → Action MemoryState B) where
    go_on :
        (p : Result A × driver.Db) (q : Result A × MemoryState)
        → Matches p q
        → ((a : A) → q.0 ≡ ok a → Relates json (tables p.1) q.1 → Matches (k a p.1) (l a q.1))
        → Matches
            (((λ (db : driver.Db). (p.0, db)) >>= k) p.1)
            (((λ (s : MemoryState). (q.0, s)) >>= l) q.1)
    go_on (ok a, db) (ok b, s) (same, calm, related) rest =
        let e : a ≡ b = cc in subst (λ x. Matches (k x db) (l b s)) (sym e) (rest b refl related)
    go_on (ok a, db) (err x, s) (same, calm, related) rest = absurd same
    go_on (err x, db) (ok b, s) (same, calm, related) rest = absurd cc
    go_on (err x, db) (err y, s) (same, calm, related) rest = (same, calm, related)

    -- one action after another
    pub bind-Matches :
        (f : Action driver.Db A) (g : Action MemoryState A) (db : driver.Db) (s : MemoryState)
        → Matches (f db) (g s)
        → ((a : A)
            → (g s).0 ≡ ok a
            → Relates json (tables (f db).1) (g s).1
            → Matches (k a (f db).1) (l a (g s).1))
        → Matches ((f >>= k) db) ((g >>= l) s)
    bind-Matches f g db s m rest = go_on (f db) (g s) m rest

  module _ (serves : Serves driver tables saved) where
    finish :
        {A : Type 0} (db : driver.Db) (s : MemoryState) (p r : Result A × driver.Db)
        (q : Result A × MemoryState)
        → Relates json (tables db) s
        → Matches p q
        → IsEnded tables db p r
        → Matches r (Mem.commit s q)
    finish db s (ok a, inside) r (ok b, t) related (same, calm, now) (result, left) = (
      result ∙ same,
      subst (λ x. IsCalm x) (sym result) tt,
      subst (λ x. Relates json x t) (sym left) now,
    )
    finish db s (ok a, inside) r (err y, t) related (same, calm, now) ended = absurd same
    finish db s (err x, inside) r (ok b, t) related (same, calm, now) ended = absurd cc
    finish db s (err x, inside) r (err y, t) related (same, calm, now) (result, left) = (
      subst (λ z. Tells violation (err y) z) (sym result) same,
      subst (λ z. IsCalm z) (sym result) calm,
      subst (λ z. Relates json z s) (sym (rw calm at left)) related,
    )

    -- a transaction
    pub transact-Matches :
        {A : Type 0} (f : Action driver.Db A) (g : Action MemoryState A)
        → Keeps saved f
        → (db : driver.Db) (s : MemoryState) → Relates json (tables db) s
        → ((inside : driver.Db) → tables inside ≡ tables db → Matches (f inside) (g s))
        → Matches (transact driver f db) (Mem.transact g s)
    transact-Matches f g keeps db s related run =
        let (inside, same, ended) = transact-IsEnded driver tables saved serves f keeps db in
        rw (transact_lem g s related.1)
          (finish db s (f inside) (transact driver f db) (g s) related (run inside same) ended)
