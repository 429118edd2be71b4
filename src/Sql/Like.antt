-- ===== src/Sql/Like.antt =====
-- The `LIKE` of SQL with a backslash as its escape character, and the pattern that `listJobs` of
-- storage/sql.go makes of a search text.
use xwork.Prelude.{
  ℕ, Bool, true, false, ◌&&◌, ◌||◌, List, [], ◌∷◌, ◌++◌, map, ◌≡◌, refl, ap, ◌∙◌, arith, eqb,
  if◌then◌else◌, Bool-cases, inl, inr,
}
use xwork.Text.{is_prefix, contains_text}
use xwork.Sql.Query.{is_wildcard, escape_like, containing}

-- A part of a pattern: `%`, `_`, or a character that stands for itself.
pub data Part : Type 0 where
  any_run any_one : Part
  exact : ℕ → Part

abbrev part : ℕ → Part
part c = if eqb c 37 then any_run else if eqb c 95 then any_one else exact c

-- The parts of a pattern; the flag says that the character before was the escape character.
unfoldable pub parts_from : Bool → List ℕ → List Part
parts_from escaped [] = []
parts_from true (c ∷ cs) = exact c ∷ parts_from false cs
parts_from false (c ∷ cs) =
    let rest = parts_from (eqb c 92) cs in if eqb c 92 then rest else part c ∷ rest

unfoldable pub at_some_end : (List ℕ → Bool) → List ℕ → Bool
at_some_end matches [] = matches []
at_some_end matches (c ∷ cs) = matches (c ∷ cs) || at_some_end matches cs

unfoldable pub match_parts : List Part → List ℕ → Bool
match_parts [] [] = true
match_parts [] (c ∷ cs) = false
match_parts (any_run ∷ ps) text = at_some_end (match_parts ps) text
match_parts (any_one ∷ ps) [] = false
match_parts (any_one ∷ ps) (c ∷ cs) = match_parts ps cs
match_parts (exact d ∷ ps) [] = false
match_parts (exact d ∷ ps) (c ∷ cs) = eqb d c && match_parts ps cs

-- `text LIKE pattern ESCAPE '\'`
abbrev pub like : List ℕ → List ℕ → Bool
like pattern text = match_parts (parts_from false pattern) text

-- the parts of a text that stands for itself, and then a run
abbrev ending : List ℕ → List Part
ending needle = map exact needle ++ any_run ∷ []

parts_from-escape_like :
    (needle : List ℕ) → parts_from false (escape_like needle ++ 37 ∷ []) ≡ ending needle
unfolding escape_like parts_from
parts_from-escape_like [] = refl
parts_from-escape_like (c ∷ cs) = elim (Bool-cases (is_wildcard c)) [
  | inl wild ↦ rw wild (ap (λ ps. exact c ∷ ps) (parts_from-escape_like cs))
  | inr plain ↦ ground (arith, plain, parts_from-escape_like cs)
]

match_parts-run : (text : List ℕ) → at_some_end (match_parts []) text ≡ true
unfolding at_some_end match_parts
match_parts-run [] = refl
match_parts-run (c ∷ cs) = match_parts-run cs

match_parts-ending :
    (needle text : List ℕ) → match_parts (ending needle) text ≡ is_prefix needle text
unfolding match_parts is_prefix
match_parts-ending [] text = match_parts-run text
match_parts-ending (d ∷ ds) [] = refl
match_parts-ending (d ∷ ds) (c ∷ cs) = ap (λ b. eqb d c && b) (match_parts-ending ds cs)

at_some_end-ending :
    (needle text : List ℕ)
    → at_some_end (match_parts (ending needle)) text ≡ contains_text text needle
unfolding at_some_end contains_text
at_some_end-ending needle [] = match_parts-ending needle []
at_some_end-ending needle (c ∷ cs) =
    rw (match_parts-ending needle (c ∷ cs), at_some_end-ending needle cs) refl

-- For any search text, the pattern that is made of it matches, under `LIKE ... ESCAPE '\\'`,
-- exactly the texts that contain it.
pub like-containing :
    (needle text : List ℕ) → like (containing needle) text ≡ contains_text text needle
unfolding parts_from match_parts
like-containing needle text =
    ap (λ ps. at_some_end (match_parts ps) text) (parts_from-escape_like needle)
    ∙ at_some_end-ending needle text
