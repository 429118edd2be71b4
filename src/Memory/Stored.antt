-- ===== src/Memory/Stored.antt =====
-- The tables of the in-memory adapter: maps from the id of a job to the job.
use xwork.Prelude.{
  Bool, none, some, [], ◌∷◌, map, keep, In, Bool-cases, ◌↔◌, inl, inr, ◌≡◌, refl, ap, arith, nat_eq,
  string_eq,
}
use xwork.GoMap.{Map, lookup, set, delete, rebuild, Distinct, values}
use xwork.GoMap.Laws.{lookup-delete, lookup-delete_self, delete_absent}
use xwork.Payload.{Payload, IsPayload}
use xwork.Job.{Uuid}

-- A table that a sequence of calls can leave: no id twice, each job under its own id, and each
-- payload a Go map.
abbrev pub Stored : {V : Type 0} → (V → Uuid) → (V → Payload) → Map Uuid V → Type 0
Stored id payload [] = Unit {0}
Stored id payload ((k, v) ∷ m) =
    (lookup k m ≡ none) × (id v ≡ k) × IsPayload (payload v) × Stored id payload m

module _ {V : Type 0} (id : V → Uuid) (payload : V → Payload) where
  pub Stored-Distinct : (m : Map Uuid V) → Stored id payload m → Distinct m
  Stored-Distinct [] h = tt
  Stored-Distinct ((k, v) ∷ m) h = (h.0, Stored-Distinct m h.3)

  pub lookup-Stored :
      (k : Uuid) (v : V) (m : Map Uuid V)
      → Stored id payload m
      → lookup k m ≡ some v
      → (id v ≡ k) × IsPayload (payload v)
  unfolding lookup
  lookup-Stored k v [] h e = cc
  lookup-Stored k v ((j, w) ∷ m) h e = ground (arith, lookup-Stored k v m h.3)

  pub delete-Stored :
      (k : Uuid) (m : Map Uuid V) → Stored id payload m → Stored id payload (delete k m)
  unfolding delete
  delete-Stored k [] h = tt
  delete-Stored k ((j, v) ∷ m) h = ground (arith, delete-Stored k m h.3, lookup-delete j k m)

  pub set-Stored :
      (k : Uuid) (v : V) (m : Map Uuid V)
      → id v ≡ k
      → IsPayload (payload v)
      → Stored id payload m
      → Stored id payload (set k v m)
  unfolding set
  set-Stored k v m e p h = (lookup-delete_self k m, e, p, delete-Stored k m h)

  -- Copying a table entry by entry gives the same table.
  pub rebuild-Stored :
      (f : V → V)
      → ((v : V) → IsPayload (payload v) → f v ≡ v)
      → (m : Map Uuid V) → Stored id payload m
      → rebuild f m ≡ m
  unfolding rebuild set
  rebuild-Stored f h [] d = refl
  rebuild-Stored f h ((k, v) ∷ m) d =
      rw (rebuild-Stored f h m d.3, h v d.2) (ap (◌∷◌ (k, v)) (delete_absent k m d.0))

  -- A loop that copies the jobs which pass a test gives those jobs.
  pub map-clone-keep :
      (f : V → V)
      → ((v : V) → IsPayload (payload v) → f v ≡ v)
      → (p : V → Bool) → (m : Map Uuid V) → Stored id payload m
      → map f (keep p (values m)) ≡ keep p (values m)
  unfolding keep
  map-clone-keep f h p [] d = refl
  map-clone-keep f h p ((k, v) ∷ m) d = elim (Bool-cases (p v)) [
    | inl pass ↦ rw (pass, h v d.2, map-clone-keep f h p m d.3)
    | inr stop ↦ rw (stop, map-clone-keep f h p m d.3)
  ]

  pub map-clone :
      (f : V → V)
      → ((v : V) → IsPayload (payload v) → f v ≡ v)
      → (m : Map Uuid V) → Stored id payload m
      → map f (values m) ≡ values m
  map-clone f h [] d = refl
  map-clone f h ((k, v) ∷ m) d = rw (h v d.2, map-clone f h m d.3)

  In→lookup :
      (v : V) (k : Uuid) (w : V) (m : Map Uuid V)
      → Stored id payload ((k, w) ∷ m)
      → (In v (values m) → lookup (id v) m ≡ some v)
      → In v (values ((k, w) ∷ m))
      → lookup (id v) ((k, w) ∷ m) ≡ some v
  unfolding lookup
  In→lookup v k w m d ih (inl e) = ground arith
  In→lookup v k w m d ih (inr h) = ground (arith, ih h)

  -- The values of a table are the jobs that a lookup by their own id finds.
  pub In-values :
      (v : V) (m : Map Uuid V) → Stored id payload m → In v (values m) ↔ (lookup (id v) m ≡ some v)
  unfolding lookup
  In-values v [] d = (λ h. absurd h, λ h. cc)
  In-values v ((k, w) ∷ m) d =
      (λ h. In→lookup v k w m d (In-values v m d.3).0 h, λ h. ground (arith, In-values v m d.3))
