-- ===== src/Sql/Rows.antt =====
-- The rows that stand for the jobs of a table: finding one by its id, and taking it away.
use xwork.Prelude.{[], ◌∷◌, map, ◌≡◌, refl, arith, nat_eq, ◌==◌, In, inl, inr, Bool-cases}
use mathlib.Core.Option as Opt
use xwork.GoMap.{Map, lookup, delete, values}
use xwork.Payload.{Payload}
use xwork.Job.{Uuid}
use xwork.Memory.Stored
use xwork.Sql.Driver.{Value}
use xwork.Sql.Engine as Engine
use xwork.Sql.Engine.Writes.{find_row, without_row}

module _ {J : Type 0} (id : J → Uuid) (payload : J → Payload) (row : J → Engine.Stored)
    (has_id : (job : J) → row job "id" ≡ Value.uuid (id job)) where
  pub find_row-values :
      (k : Uuid) (m : Map Uuid J)
      → Stored.Stored id payload m
      → find_row k (map row (values m)) ≡ Opt.map row (lookup k m)
  unfolding find_row lookup
  find_row-values k [] d = refl
  find_row-values k ((j, job) ∷ m) (fresh, same, good, d) =
      rw (has_id job, same, find_row-values k m d)
        (elim (Bool-cases (j == k)) [ inl h ↦ rw h refl | inr h ↦ rw h refl ])

  pub without_row-values :
      (k : Uuid) (m : Map Uuid J)
      → Stored.Stored id payload m
      → without_row k (map row (values m)) ≡ map row (values (delete k m))
  unfolding without_row delete
  without_row-values k [] d = refl
  without_row-values k ((j, job) ∷ m) (fresh, same, good, d) =
      rw (has_id job, same, without_row-values k m d)
        (elim (Bool-cases (j == k)) [ inl h ↦ rw h refl | inr h ↦ rw h refl ])

pub In-delete :
    {J : Type 0} (k : Uuid) (job : J) (m : Map Uuid J)
    → In job (values (delete k m))
    → In job (values m)
unfolding delete
In-delete k job [] h = h
In-delete k job ((j, other) ∷ m) h = ground (arith, In-delete k job m)
