-- ===== src/Tests/Oldest.antt =====
-- The oldest row of a queue, for the database of the witnesses.
use xwork.Prelude.{
  ℕ, true, false, Option, none, some, List, [], ◌∷◌, String, ◌≡◌, refl, subst, ap, arith, leb,
  if◌then◌else◌, inl, inr, Bool-cases, string_eq,
}
use xwork.Sql.Engine.{Stored, instant_of}
use xwork.Sql.Engine.Oldest.{IsOldest, is_text}

-- a row of the queue that was enqueued first
abbrev earlier : Stored → Option Stored → Option Stored
earlier row none = some row
earlier row (some other) =
    if leb (instant_of (row "enqueued_at")) (instant_of (other "enqueued_at"))
    then some row
    else some other

unfoldable pub oldest_row : String → List Stored → Option Stored
oldest_row queue [] = none
oldest_row queue (row ∷ rows) =
    let rest = oldest_row queue rows in
    if is_text queue (row "queue") then earlier row rest else rest

abbrev at_of : Stored → ℕ
at_of row = instant_of (row "enqueued_at")

-- a row of the queue in front of others
in_front :
    (queue : String) (row : Stored) (rows : List Stored) (rest : Option Stored)
    → is_text queue (row "queue") ≡ true
    → IsOldest queue rows rest
    → IsOldest queue (row ∷ rows) (earlier row rest)
in_front queue row rows none own others = (
  inl refl,
  own,
  λ other there mine. elim there [
    | inl e ↦ let same = ap at_of e in omega arith
    | inr h ↦ let no = others other h in absurd cc
  ],
)
in_front queue row rows (some best) own (there, best_own, first) =
    elim (Bool-cases (leb (at_of row) (at_of best))) [
      | inl sooner ↦ rw sooner (
        inl refl,
        own,
        λ other found mine. elim found [
          | inl e ↦ let same = ap at_of e in omega arith
          | inr h ↦ let later = first other h mine in ground arith
        ],
      )
      | inr later ↦ rw later (
        inr there,
        best_own,
        λ other found mine. elim found [
          | inl e ↦ let same = ap at_of e in ground arith
          | inr h ↦ first other h mine
        ],
      )
    ]

-- a row of another queue in front of others
beside :
    (queue : String) (row : Stored) (rows : List Stored) (rest : Option Stored)
    → is_text queue (row "queue") ≡ false
    → IsOldest queue rows rest
    → IsOldest queue (row ∷ rows) rest
beside queue row rows none foreign others = λ other found. elim found [
  | inl e ↦ subst (λ r. is_text queue (r "queue") ≡ false) e foreign
  | inr h ↦ others other h
]
beside queue row rows (some best) foreign (there, best_own, first) = (
  inr there,
  best_own,
  λ other found mine. elim found [
    | inl e ↦ let no = subst (λ r. is_text queue (r "queue") ≡ false) e foreign in absurd cc
    | inr h ↦ first other h mine
  ],
)

pub oldest_row-IsOldest :
    (queue : String) (rows : List Stored) → IsOldest queue rows (oldest_row queue rows)
unfolding oldest_row
oldest_row-IsOldest queue [] = λ row h. absurd h
oldest_row-IsOldest queue (row ∷ rows) =
    let rest = oldest_row-IsOldest queue rows in
    elim (Bool-cases (is_text queue (row "queue"))) [
      | inl own ↦ rw own (in_front queue row rows (oldest_row queue rows) own rest)
      | inr foreign ↦ rw foreign (beside queue row rows (oldest_row queue rows) foreign rest)
    ]
