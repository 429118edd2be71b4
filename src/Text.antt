-- ===== src/Text.antt =====
-- Go's strings as the code works with them: comparison by `<`, `strings.ToLower`,
-- `strings.TrimSpace` and `strings.Contains`. The tables of Unicode and the text form of a UUID
-- (github.com/gofrs/uuid) are not the program's: they are the fields of a `Platform`, and so is `json.Marshal`.
pub mod Order
use Prim.Native.Char.{code}
use Prim.Native.String.{String}
use xwork.Prelude.{
  ℕ, Bool, true, false, ◌&&◌, ◌||◌, List, [], ◌∷◌, map, Option, ltb, eqb, if◌then◌else◌,
}

pub record Platform : Type 0 where
  -- `unicode.ToLower` and `unicode.IsSpace` of a code point
  pub to_lower : ℕ → ℕ
  pub is_space : ℕ → Bool
  -- `uuid.UUID.String`
  pub uuid_string : ℕ → String
  -- `json.Marshal` of the object with a "message" and perhaps a "stacktrace"
  pub marshal_error : String → Option (List ℕ) → Option String

-- The code points of a text.
abbrev pub codes : String → List ℕ
codes String.[] = []
codes (String.◌∷◌ c s) = code c ∷ codes s

-- `a < b`. The order of the UTF-8 bytes is the order of the code points.
unfoldable pub text_less : List ℕ → List ℕ → Bool
text_less [] [] = false
text_less [] (b ∷ bs) = true
text_less (a ∷ as') [] = false
text_less (a ∷ as') (b ∷ bs) = let rest = text_less as' bs in if eqb a b then rest else ltb a b

unfoldable pub is_prefix : List ℕ → List ℕ → Bool
is_prefix [] text = true
is_prefix (a ∷ as') [] = false
is_prefix (a ∷ as') (b ∷ bs) = eqb a b && is_prefix as' bs

-- `strings.Contains(text, needle)`
unfoldable pub contains_text : List ℕ → List ℕ → Bool
contains_text [] needle = is_prefix needle []
contains_text (c ∷ cs) needle = is_prefix needle (c ∷ cs) || contains_text cs needle

module _ (platform : Platform) where
  open platform use {to_lower, is_space}

  trim_left : List ℕ → List ℕ
  trim_left [] = []
  trim_left (c ∷ cs) = let rest = trim_left cs in if is_space c then rest else c ∷ cs

  -- drops the spaces at the end
  trim_right : List ℕ → List ℕ
  trim_right [] = []
  trim_right (c ∷ cs) = elim (trim_right cs) [
    | [] ↦ if is_space c then [] else c ∷ []
    | d ∷ ds ↦ c ∷ d ∷ ds
  ]

  -- `strings.TrimSpace`
  unfoldable pub trim_space : List ℕ → List ℕ
  unfolding trim_left trim_right
  trim_space text = trim_right (trim_left text)

  -- the same on the text itself
  unfoldable pub trim_start : String → String
  trim_start String.[] = String.[]
  trim_start (String.◌∷◌ c s) =
      let rest = trim_start s in if is_space (code c) then rest else String.◌∷◌ c s

  unfoldable pub trim_end : String → String
  trim_end String.[] = String.[]
  trim_end (String.◌∷◌ c s) = elim (trim_end s) [
    | String.[] ↦ if is_space (code c) then String.[] else String.◌∷◌ c String.[]
    | String.◌∷◌ d ds ↦ String.◌∷◌ c (String.◌∷◌ d ds)
  ]

  abbrev pub trim_string : String → String
  trim_string text = trim_end (trim_start text)

  -- `strings.ToLower`
  abbrev pub lower_text : List ℕ → List ℕ
  lower_text = map to_lower

  -- `a.String() < b.String()`
  abbrev pub uuid_less : ℕ → ℕ → Bool
  uuid_less a b = text_less (codes (platform.uuid_string a)) (codes (platform.uuid_string b))
