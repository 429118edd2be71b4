-- ===== src/Sql/Moves/Part.antt =====
-- One table of the database and the map of the in-memory store that it stands for: what an
-- insertion and a deletion of storage/sql.go do on both.
use xwork.Prelude.{
  none, some, List, [], ◌∷◌, map, String, ◌≡◌, refl, sym, ap, ◌∙◌, subst, nat_eq, In, inl, inr,
}
use xwork.Prelude.Result.{Action, ok, err, ◌>>=◌, ◌>>◌, lift, pure, external}
use mathlib.Core.Option as Opt
use xwork.GoMap.{Map, lookup, set, delete, values}
use xwork.GoMap.Laws.{delete_absent}
use xwork.Payload.{Payload}
use xwork.Job.{Uuid}
use xwork.Memory.State.{MemoryState}
use xwork.Memory.Invariant.{IsValid}
use xwork.Memory.Stored.{Stored}
use xwork.Sql.Driver.{Value, Driver, Json}
use xwork.Sql.Scan.{value}
use xwork.Sql.Engine as Engine
use xwork.Sql.Engine.{Table, columns_of}
use xwork.Sql.Engine.Writes.{find_row, without_row, with_row, with_rows, row_of}
use xwork.Sql.Engine.Inserts.{Writes, count_inserted, insert_text, delete_text}
use xwork.Sql.Stored.{IsKept, payload_cell}
use xwork.Sql.Listing.{Holds}
use xwork.Sql.Rows.{find_row-values, without_row-values, In-delete}
use xwork.Sql.Steps.{Keeps, bind-Keeps, bind_ok}

pub record Part (json : Json) (J : Type 0) : Type 0 where
  pub table : Table
  pub id : J → Uuid
  pub payload : J → Payload
  pub row : J → Engine.Stored
  -- the arguments of the insertion after the id, for the written payload
  pub cells : J → Value → List Value
  pub jobs : MemoryState → Map Uuid J
  pub put : Map Uuid J → MemoryState → MemoryState
  pub has_id : (job : J) → row job "id" ≡ Value.uuid (id job)
  pub sends_row :
      (job : J)
      → row_of
          (columns_of table)
          (Value.uuid (id job) ∷ cells job (payload_cell json (payload job)))
        ≡ row job
  pub keeps_ids : (s : MemoryState) → IsValid s → Stored id payload (jobs s)
  pub holds :
      (rows : Table → List Engine.Stored) (s : MemoryState)
      → Holds json rows s
      → rows table ≡ map row (values (jobs s))
  pub keeps :
      (rows : Table → List Engine.Stored) (s : MemoryState)
      → Holds json rows s
      → (job : J) → In job (values (jobs s))
      → IsKept json (payload job)
  pub put-Holds :
      (rows : Table → List Engine.Stored) (s : MemoryState) (new : List Engine.Stored)
      (m : Map Uuid J)
      → Holds json rows s
      → new ≡ map row (values m)
      → ((job : J) → In job (values m) → IsKept json (payload job))
      → Holds json (with_rows table new rows) (put m s)
  pub put-jobs : (s : MemoryState) → put (jobs s) s ≡ s

module _ {J : Type 0} (json : Json) (driver : Driver)
    (tables saved : driver.Db → Table → List Engine.Stored) (violation : Table → String)
    (writes : Writes driver tables saved violation) (part : Part json J) where
  open part use {table, id, payload, row, cells, jobs, put}

  -- the shapes of the insertions and deletions
  abbrev pub insertion : J → Action driver.Db (Unit {0})
  insertion job = lift (value json (payload job)) >>= λ written.
      driver.exec (insert_text table) (Value.uuid (id job) ∷ cells job written) >> pure tt

  abbrev pub deletion : Uuid → Action driver.Db (Unit {0})
  deletion k = driver.exec (delete_text table) (Value.uuid k ∷ []) >> pure tt

  pub insertion-Keeps : (job : J) → Keeps saved (insertion job)
  insertion-Keeps job =
      bind-Keeps saved (lift (value json (payload job))) _ (λ db. refl)
        (λ written.
          bind-Keeps saved
            (driver.exec (insert_text table) (Value.uuid (id job) ∷ cells job written))
            (λ n. pure tt)
            (λ db.
              let (db', e, changed, same) = writes.inserts table (id job) (cells job written) db in
              ap (λ r. saved r.1) e ∙ same)
            (λ n db. refl))

  pub deletion-Keeps : (k : Uuid) → Keeps saved (deletion k)
  deletion-Keeps k =
      bind-Keeps saved (driver.exec (delete_text table) (Value.uuid k ∷ [])) (λ n. pure tt)
        (λ db.
          let (db', affected, e, changed, same) = writes.deletes table k db in
          ap (λ r. saved r.1) e ∙ same)
        (λ n db. refl)

  module _ (db : driver.Db) (s : MemoryState) (held : Holds json (tables db) s)
      (v : IsValid s) where
    pub deletion-Holds :
        (k : Uuid)
        → (db' : driver.Db) × (deletion k db ≡ (ok tt, db'))
          × Holds json (tables db') (put (delete k (jobs s)) s)
    deletion-Holds k =
        let (db', affected, e, changed, same) = writes.deletes table k db in
        let left : without_row k (tables db table) ≡ map row (values (delete k (jobs s))) =
          ap (without_row k) (part.holds (tables db) s held)
          ∙ without_row-values id payload row part.has_id k (jobs s) (part.keeps_ids s v) in
        (
          db',
          bind_ok (driver.exec (delete_text table) (Value.uuid k ∷ [])) (λ n. pure tt) db _ db' e,
          subst (λ t. Holds json t (put (delete k (jobs s)) s)) (sym changed)
              (part.put-Holds (tables db) s _ (delete k (jobs s)) held left
                (λ job h. part.keeps (tables db) s held job (In-delete k job (jobs s) h))),
        )

    found_row : (k : Uuid) → find_row k (tables db table) ≡ Opt.map row (lookup k (jobs s))
    found_row k =
        ap (find_row k) (part.holds (tables db) s held)
        ∙ find_row-values id payload row part.has_id k (jobs s) (part.keeps_ids s v)

    module _ (job : J) (kept : IsKept json (payload job)) where
      -- what is sent for the payload, and what the database answers
      sent :
          (db' : driver.Db) × (insertion job db ≡ (
            ((λ (t : driver.Db).
                  (count_inserted (violation table) (find_row (id job) (tables db table)), t))
                >> pure tt)
              db'))
          × (tables db'
              ≡ with_rows table
                  (with_row (row job) (find_row (id job) (tables db table)) (tables db table))
                  (tables db))
      unfolding value
      sent =
          let (text, written, read) = kept in
          let cell : payload_cell json (payload job) ≡ Value.bytes text = rw written refl in
          let (db', e, changed, same) =
            writes.inserts table (id job) (cells job (Value.bytes text)) db in
          (
            db',
            bind_ok (lift (value json (payload job)))
                  (λ w.
                    driver.exec (insert_text table) (Value.uuid (id job) ∷ cells job w) >> pure tt)
                  db (Value.bytes text) db (rw written refl)
                ∙ ap (λ p. ((λ (t : driver.Db). p) >> pure tt) db) e,
            changed
                ∙ ap
                    (λ r.
                      with_rows table
                        (with_row r (find_row (id job) (tables db table)) (tables db table))
                        (tables db))
                    (ap (λ w. row_of (columns_of table) (Value.uuid (id job) ∷ cells job w))
                        (sym cell)
                      ∙ part.sends_row job),
          )

      -- a new id: the row is added
      pub insertion-free :
          lookup (id job) (jobs s) ≡ none
          → (db' : driver.Db) × (insertion job db ≡ (ok tt, db'))
            × Holds json (tables db') (put (set (id job) job (jobs s)) s)
      unfolding set
      insertion-free free =
          let (db', e, changed) = sent in
          let found : find_row (id job) (tables db table) ≡ none =
            found_row (id job) ∙ ap (Opt.map row) free in
          let rows : row job ∷ tables db table
              ≡ map row (values ((id job, job) ∷ delete (id job) (jobs s))) =
            rw (delete_absent (id job) (jobs s) free)
              (ap (λ rs. row job ∷ rs) (part.holds (tables db) s held)) in
          (
            db',
            e ∙ rw found refl,
            subst (λ t. Holds json t (put ((id job, job) ∷ delete (id job) (jobs s)) s))
                (sym (changed ∙ rw found refl))
                (part.put-Holds (tables db) s _ _ held rows (λ other h. elim h [
                  | inl same ↦ subst (λ j. IsKept json (payload j)) same kept
                  | inr h ↦
                      part.keeps (tables db) s held other (In-delete (id job) other (jobs s) h)
                ])),
          )

      -- an id that is there: the row is refused
      pub insertion-taken :
          (other : J)
          → lookup (id job) (jobs s) ≡ some other
          → (db' : driver.Db) × (insertion job db ≡ (err (external (violation table)), db'))
            × Holds json (tables db') s
      insertion-taken other there =
          let (db', e, changed) = sent in
          let found : find_row (id job) (tables db table) ≡ some (row other) =
            found_row (id job) ∙ ap (Opt.map row) there in
          (
            db',
            e ∙ rw found refl,
            subst (λ t. Holds json t s) (sym (changed ∙ rw found refl))
                (subst (λ t. Holds json (with_rows table (tables db table) (tables db)) t)
                  (part.put-jobs s)
                  (part.put-Holds (tables db) s (tables db table) (jobs s) held
                    (part.holds (tables db) s held) (part.keeps (tables db) s held))),
          )
