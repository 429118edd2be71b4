-- ===== src/Server/Lookahead.antt =====
-- The look-ahead of `listLegacyJobs` of server.go against `paginateWithMore` of storage/memory.go.
use xwork.Prelude.{
  ℕ, zero, suc, [], ◌∷◌, ◌≤◌, sym, take_all, ◌+◌, ◌<◌, ◌^◌, Bool, List, ◌≡◌, refl, arith, ltb, leb,
  length, take, drop, Bool-cases, inl, inr, length-take, length-drop, ap, ◌∙◌,
}
use xwork.Prelude.Result.{Result, ok, err}
use xwork.Memory.Paging.{paginate, paginate_with_more}
use xwork.Memory.Paging.Laws.{paginate_lem, paginate_with_more_lem}
use native.Mathlib.Nat.{suc-add}
use xwork.Server.{trim_lookahead}

-- the page of a list that was asked for one job more than the limit
abbrev pub with_lookahead : {A : Type 0} → ℕ → Result (List A) → Result (List A × Bool)
with_lookahead limit (ok jobs) = ok (trim_lookahead jobs limit)
with_lookahead limit (err e) = err e

take-take : {A : Type 0} (n : ℕ) (xs : List A) → take n (take (n + 1) xs) ≡ take n xs
unfolding take
take-take zero xs = refl
take-take (suc n) [] = rw (suc-add n 1) refl
take-take (suc n) (x ∷ xs) = rw (suc-add n 1) (ap (◌∷◌ x) (take-take n xs))

take_short : {A : Type 0} (n : ℕ) (xs : List A) → length xs ≤ n → take (n + 1) xs ≡ take n xs
take_short n xs h = take_all (n + 1) xs (omega (arith, h)) ∙ sym (take_all n xs h)

trim_lookahead-take :
    {A : Type 0} (limit : ℕ) (xs : List A)
    → trim_lookahead (take (limit + 1) xs) limit ≡ (take limit xs, ltb limit (length xs))
unfolding trim_lookahead
trim_lookahead-take limit xs = elim (Bool-cases (leb (length xs) limit)) [
  | inl short ↦
      ground (arith, short, length-take (limit + 1) xs, take_short limit xs (ground (arith, short)))
  | inr long ↦ ground (arith, long, length-take (limit + 1) xs, take-take limit xs)
]

-- For a list shorter than 2^63 and offset + limit + 1 below 2^63, `trimLookahead` of a page of
-- limit + 1 items gives the page and the answer whether there are more that `paginateWithMore`
-- gives for the limit.
pub trim_lookahead-paginate :
    {A : Type 0} (items : List A) (limit offset : ℕ)
    → length items < 2 ^ 63
    → offset + (limit + 1) < 2 ^ 63
    → with_lookahead limit (paginate items (limit + 1) offset)
      ≡ paginate_with_more items limit offset
trim_lookahead-paginate items limit offset small fits =
    rw
      (
        paginate_lem items (limit + 1) offset small (omega arith) fits,
        paginate_with_more_lem items limit offset small (omega arith),
      )
      (ap ok (
        trim_lookahead-take limit (drop offset items)
        ∙ ap (λ (more : Bool). (take limit (drop offset items), more))
            (ground (arith, length-drop offset items))))
