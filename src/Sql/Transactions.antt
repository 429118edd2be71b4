-- ===== src/Sql/Transactions.antt =====
-- `Transact` of storage/sql.go: all of a transaction or nothing of it.
use xwork.Prelude.{List, ◌≡◌, refl, ◌∙◌, Bool-cases, inl, inr, if◌then◌else◌}
use xwork.Prelude.Result.{Action, Result, ok, err, is_panic}
use xwork.Sql.Driver.{Driver}
use xwork.Sql.Engine.{Table, Stored}
use xwork.Sql.Engine.Writes.{Serves}
use xwork.Sql.Adapter.{transact, end_transaction}

-- What a transaction leaves, by what its function returned: the tables as the function left them,
-- or as they were before; after a panic the transaction is open still.
abbrev pub IsEnded :
    {Db A : Type 0} → (Db → Table → List Stored) → Db → Result A × Db → Result A × Db → Type 0
IsEnded tables before (ok a, inside) r = (r.0 ≡ ok a) × (tables r.1 ≡ tables inside)
IsEnded tables before (err e, inside) r =
    (r.0 ≡ err e) × (tables r.1 ≡ (if is_panic e then tables inside else tables before))

module _ (driver : Driver) (tables saved : driver.Db → Table → List Stored)
    (serves : Serves driver tables saved) where
  ended :
      {A : Type 0} (db : driver.Db) (p : Result A × driver.Db)
      → saved p.1 ≡ tables db
      → IsEnded tables db p (end_transaction driver p)
  ended db (ok a, inside) from =
      let (after, committed, same) = serves.commits inside in rw committed (refl, same)
  ended db (err e, inside) from =
      let (after, rolled_back, same) = serves.rolls_back inside in
      elim (Bool-cases (is_panic e)) [
        | inl panics ↦ rw panics (refl, refl)
        | inr calm ↦ rw (calm, rolled_back) (refl, same ∙ from)
      ]

  -- For a database that runs transactions as SQL says, and a function that leaves alone what was
  -- there at the beginning of the transaction, `Transact` runs the function on the tables as they
  -- are. It returns what the function returns; after a success the tables are as the function
  -- left them, after an error they are as before, and after a panic they are as at the panic, the
  -- transaction being open.
  pub transact-IsEnded :
      {A : Type 0} (f : Action driver.Db A)
      → ((db : driver.Db) → saved (f db).1 ≡ saved db)
      → (db : driver.Db)
      → (inside : driver.Db) × (tables inside ≡ tables db)
        × IsEnded tables db (f inside) (transact driver f db)
  unfolding transact
  transact-IsEnded f keeps db =
      let (inside, begun, same, kept) = serves.begins db in
      (inside, same, rw begun (ended db (f inside) (keeps inside ∙ kept)))
