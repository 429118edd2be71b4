-- ===== src/GoMap.antt =====
-- Go's `map[K]V`, with the operations that the program uses. A map is the list of its entries; a
-- `range` visits them in the order of the list. Go leaves that order open, and so do the theorems:
-- they hold for every list.
pub mod Laws
use xwork.Prelude.{
  ℕ, Bool, true, false, Option, none, some, List, [], ◌∷◌, map, ◌≡◌, if◌then◌else◌, Eq, ◌==◌,
}

abbrev pub Map {ℓ κ} : Type ℓ → Type κ → Type (ℓ ⊔ κ)
Map K V = List (K × V)

module _ {ℓ κ} {K : Type ℓ} {V : Type κ} ⦃e : Eq K⦄ where
  -- `v, ok := m[k]`
  unfoldable pub lookup : K → Map K V → Option V
  lookup k [] = none
  lookup k ((j, v) ∷ m) = if j == k then some v else lookup k m

  -- `_, ok := m[k]`
  abbrev pub contains : K → Map K V → Bool
  contains k m = elim (lookup k m) [ none ↦ false | some _ ↦ true ]

  -- `delete(m, k)`
  unfoldable pub delete : K → Map K V → Map K V
  delete k [] = []
  delete k ((j, v) ∷ m) = let rest = delete k m in if j == k then rest else (j, v) ∷ rest

  -- `m[k] = v`
  unfoldable pub set : K → V → Map K V → Map K V
  set k v m = (k, v) ∷ delete k m

  -- `for k, v := range m { cloned[k] = f(v) }` into a new map
  unfoldable pub rebuild {μ} : {W : Type μ} → (W → V) → Map K W → Map K V
  rebuild f [] = []
  rebuild f ((k, w) ∷ m) = set k (f w) (rebuild f m)

  -- A list that stands for a map: no key occurs twice.
  abbrev pub Distinct : Map K V → Type κ
  Distinct [] = Unit
  Distinct ((k, v) ∷ m) = (lookup k m ≡ none) × Distinct m

-- the values, as a `range` visits them
abbrev pub values {ℓ κ} : {K : Type ℓ} {V : Type κ} → Map K V → List V
values m = map (λ e. e.1) m
