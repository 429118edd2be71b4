-- ===== src/AtomicMap.antt =====
-- `AtomicMap` of atomic_map.go, a map behind a mutex. Each method holds the lock to its end, so
-- concurrent calls are a sequence of these steps.
use xwork.Prelude.{ℕ, Option, String, string_eq, [], ◌∷◌, length}
use xwork.GoMap

pub record AtomicMap {ℓ} (T : Type ℓ) : Type ℓ where
  pub m : GoMap.Map String T

abbrev pub new_atomic_map {ℓ} : {T : Type ℓ} → AtomicMap T
new_atomic_map = record { m = [] }

module _ {ℓ} {T : Type ℓ} where
  unfoldable pub get : AtomicMap T → String → Option T
  get a key = GoMap.lookup key a.m

  unfoldable pub set : AtomicMap T → String → T → AtomicMap T
  set a key value = record { m = GoMap.set key value a.m }

  unfoldable pub delete : AtomicMap T → String → AtomicMap T
  delete a key = record { m = GoMap.delete key a.m }

  -- the loop of `Each`; what `f` works on is passed along
  unfoldable pub each_entry {κ} : {S : Type κ} → (String → T → S → S) → GoMap.Map String T → S → S
  each_entry f [] s = s
  each_entry f ((key, value) ∷ m) s = each_entry f m (f key value s)

  abbrev pub each {κ} : {S : Type κ} → AtomicMap T → (String → T → S → S) → S → S
  each a f s = each_entry f a.m s

  unfoldable pub size : AtomicMap T → ℕ
  size a = length a.m
