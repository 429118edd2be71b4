-- ===== src/Payload.antt =====
-- `JobPayload`, a Go map that may be nil, and `clonePayload` of storage/memory.go.
use xwork.Prelude.{String, Option, none, some, ◌≡◌, refl, ap, string_eq}
use xwork.Prelude.Result.{Error, Result, ok, err}
use xwork.GoMap.{Map, rebuild, Distinct}
use xwork.GoMap.Laws.{rebuild-Distinct}

abbrev pub Any : Type 0
Any = String

abbrev pub Payload : Type 0
Payload = Option (Map String Any)

unfoldable pub clone_payload : Payload → Payload
clone_payload none = none
clone_payload (some payload) = some (rebuild (λ value. value) payload)

-- A payload is a Go map: no key occurs twice.
abbrev pub IsPayload : Payload → Type 0
IsPayload none = Unit
IsPayload (some payload) = Distinct payload

-- Cloning a payload gives a payload with the same entries.
pub clone_payload_lem : (p : Payload) → IsPayload p → clone_payload p ≡ p
unfolding clone_payload
clone_payload_lem none h = refl
clone_payload_lem (some m) h = ap some (rebuild-Distinct (λ v. v) m h (λ v. refl))

-- `Bind`, with `json.Marshal` and with `json.Unmarshal` into a value of the type, which starts as the
-- zero value and may be filled in part when there is an error.
unfoldable pub bind {ℓ} :
    {T : Type ℓ}
    → (Payload → Result String)
    → (String → T → T × Option Error)
    → T
    → Payload
    → T × Option Error
bind marshal unmarshal zero payload = elim (marshal payload) [
  | err e ↦ (zero, some e)
  | ok json_bytes ↦ unmarshal json_bytes zero
]
