-- ===== src/Prelude/Result.antt =====
-- Go's `(value, error)` results, with a panic as a third outcome, and the state-passing monad of
-- methods that mutate a store. What a method has written before it fails stays written.
use mathlib.Core.Bool.{Bool, true, false}
use Prim.Native.String.{String, ◌++◌ as ◌<>◌}

-- The errors that the code tells apart, and `external` for any other (of a handler, a
-- driver, a library), with its text. Three are panics of the runtime;
-- `joined` is `errors.Join` of two.
pub data Error : Type 0 where
  already_enqueued duplicate_job unknown_job_type orphan_job : Error
  job_definition_not_found failed_job_not_found failed_job_claim_unsupported : Error
  external : String → Error
  unsupported_job_type : String → Error
  slice_bounds_out_of_range nil_dereference makeslice_cap_out_of_range : Error
  joined : Error → Error → Error

pub data Result {ℓ} (A : Type ℓ) : Type ℓ where
  ok : A → Result A
  err : Error → Result A

abbrev pub Action : Type 0 → Type 0 → Type 0
Action S A = S → Result A × S

module _ {S A : Type 0} where
  abbrev pub pure : A → Action S A
  pure a s = (ok a, s)

  abbrev pub fails : Error → Action S A
  fails e s = (err e, s)

infixl 5 ◌>>=◌ ◌>>◌
abbrev pub ◌>>=◌ : {S A B : Type 0} → Action S A → (A → Action S B) → Action S B
◌>>=◌ m f s = let (r, s') = m s in elim r [ ok a ↦ f a s' | err e ↦ (err e, s') ]

abbrev pub ◌>>◌ : {S A B : Type 0} → Action S A → Action S B → Action S B
m >> k = m >>= λ _. k

-- a result that no state takes part in
abbrev pub lift : {S A : Type 0} → Result A → Action S A
lift r s = (r, s)

-- Panics of the runtime, which no `if err != nil` sees.
unfoldable pub is_panic : Error → Bool
is_panic slice_bounds_out_of_range = true
is_panic nil_dereference = true
is_panic makeslice_cap_out_of_range = true
is_panic _ = false

-- `err.Error()`
pub error_text : Error → String
error_text already_enqueued = "job is already enqueued"
error_text duplicate_job = "duplicate job id"
error_text unknown_job_type = "unknown job type"
error_text orphan_job = "orphan job"
error_text job_definition_not_found = "job definition not found"
error_text failed_job_not_found = "failed job not found"
error_text failed_job_claim_unsupported = "failed job claim is not supported"
error_text (external text) = text
-- `%q`, for a text in which nothing has to be escaped
error_text (unsupported_job_type raw) = "unsupported job type \"" <> raw <> "\""
error_text slice_bounds_out_of_range = "runtime error: slice bounds out of range"
error_text nil_dereference = "runtime error: invalid memory address or nil pointer dereference"
error_text makeslice_cap_out_of_range = "runtime error: makeslice: cap out of range"
error_text (joined first second) = error_text first <> "\n" <> error_text second
