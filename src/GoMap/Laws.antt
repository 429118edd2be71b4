-- ===== src/GoMap/Laws.antt =====
-- The laws of Go's maps.
use mathlib.Core.Option as Opt
use xwork.Prelude.{none, some, [], ◌∷◌, ◌≡◌, refl, ap, arith, if◌then◌else◌, Eq, ◌==◌}
use xwork.GoMap.{Map, lookup, delete, set, rebuild, Distinct}

module _ {ℓ κ} {K : Type ℓ} {V : Type κ} ⦃e : Eq K⦄ where
  pub lookup-delete :
      (j k : K) (m : Map K V) → lookup j (delete k m) ≡ (if k == j then none else lookup j m)
  unfolding lookup delete
  lookup-delete j k [] = ground arith
  lookup-delete j k ((i, v) ∷ m) =
      ground (arith, lookup-delete j k m, e.same_iff k j, e.same_iff i k, e.same_iff i j)

  pub lookup-set :
      (j k : K) (v : V) (m : Map K V)
      → lookup j (set k v m) ≡ (if k == j then some v else lookup j m)
  unfolding lookup set
  lookup-set j k v m = ground (arith, lookup-delete j k m)

  pub lookup-delete_self : (k : K) (m : Map K V) → lookup k (delete k m) ≡ none
  lookup-delete_self k m = ground (arith, lookup-delete k k m, e.same_iff k k)

  pub lookup-set_self : (k : K) (v : V) (m : Map K V) → lookup k (set k v m) ≡ some v
  lookup-set_self k v m = ground (arith, lookup-set k k v m, e.same_iff k k)

  pub delete-Distinct : (k : K) (m : Map K V) → Distinct m → Distinct (delete k m)
  unfolding delete
  delete-Distinct k [] d = tt
  delete-Distinct k ((j, v) ∷ m) d =
      ground (arith, delete-Distinct k m d.1, lookup-delete j k m, e.same_iff k j)

  pub set-Distinct : (k : K) (v : V) (m : Map K V) → Distinct m → Distinct (set k v m)
  unfolding set
  set-Distinct k v m d = (lookup-delete_self k m, delete-Distinct k m d)

  -- Deleting a missing key changes nothing.
  pub delete_absent : (k : K) (m : Map K V) → lookup k m ≡ none → delete k m ≡ m
  unfolding lookup delete
  delete_absent k [] h = refl
  delete_absent k ((j, v) ∷ m) h = ground (arith, delete_absent k m)

  pub lookup-rebuild {μ} :
      {W : Type μ} (f : W → V) (k : K) (m : Map K W)
      → lookup k (rebuild f m) ≡ Opt.map f (lookup k m)
  unfolding rebuild lookup
  lookup-rebuild f k [] = refl
  lookup-rebuild f k ((j, w) ∷ m) =
      ground (arith, lookup-set k j (f w) (rebuild f m), lookup-rebuild f k m)

module _ {ℓ κ} {K : Type ℓ} {V : Type κ} ⦃e : Eq K⦄ where
  -- Copying a map entry by entry gives the same map.
  pub rebuild-Distinct :
      (f : V → V) (m : Map K V) → Distinct m → ((v : V) → f v ≡ v) → rebuild f m ≡ m
  unfolding rebuild set
  rebuild-Distinct f [] d h = refl
  rebuild-Distinct f ((k, v) ∷ m) d h =
      rw (rebuild-Distinct f m d.1 h, h v) (ap (◌∷◌ (k, v)) (delete_absent k m d.0))
