-- ===== src/Sql/Steps.antt =====
-- Steps of the methods of storage/sql.go: a call that succeeds, and calls that leave the state at the
-- beginning of the transaction alone.
use xwork.Prelude.{◌≡◌, ap, ◌∙◌}
use xwork.Prelude.Result.{Action, Result, ok, err, ◌>>=◌}

pub bind_ok :
    {S A B : Type 0} (m : Action S A) (f : A → Action S B) (s : S) (a : A) (t : S)
    → m s ≡ (ok a, t)
    → (m >>= f) s ≡ f a t
bind_ok m f s a t e =
    ap (λ (p : Result _ × _). elim p.0 [ ok b ↦ f b p.1 | err e ↦ (err e, p.1) ]) e

-- The action does not change what `saved` reads.
abbrev pub Keeps : {S X A : Type 0} → (S → X) → Action S A → Type 0
Keeps {S} saved m = (s : S) → saved (m s).1 ≡ saved s

pub bind-Keeps :
    {S X A B : Type 0} (saved : S → X) (m : Action S A) (f : A → Action S B)
    → Keeps saved m
    → ((a : A) → Keeps saved (f a))
    → Keeps saved (m >>= f)
bind-Keeps {S} {A = A} saved m f first then s = go (m s).0 (m s).1 (first s)
  where
    go : (r : Result A) (t : S) → saved t ≡ saved s → saved (((λ _. (r, t)) >>= f) s).1 ≡ saved s
    go (ok a) t e = then a t ∙ e
    go (err x) t e = e
