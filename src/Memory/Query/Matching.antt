-- ===== src/Memory/Query/Matching.antt =====
-- The jobs of one table that match a query, in the order of `ListJobs`, and a page of them.
use xwork.Prelude.{
  ℕ, suc, ◌+◌, ◌<◌, ◌≤◌, ◌^◌, Bool, true, some, List, [], ◌∷◌, map, ◌≡◌, refl, ◌↔◌, ap, ◌∙◌, arith,
  nat_eq, ltb, eqb, if◌then◌else◌, keep, In, In-keep, length, take, drop,
}
use xwork.Prelude.Result.{Result, ok}
use xwork.Prelude.Sort.{sort_slice, insert_sorted}
use xwork.Prelude.Sort.Laws.{IsOrder, IsSorted, sort_slice-IsSorted, In-sort_slice}
use xwork.GoMap.{Map, lookup, values}
use xwork.Payload.{Payload, IsPayload}
use xwork.Text.{text_less}
use xwork.Text.Order.{text_less_asym, text_less_trans_not}
use xwork.Job.{Uuid, Time, Jobs}
use xwork.Memory.State.{MemoryState}
use xwork.Memory.Paging.{paginate_with_more}
use xwork.Memory.Paging.Laws.{paginate_with_more_lem}
use xwork.Memory.Stored.{Stored, map-clone-keep, In-values}

-- The orders of `ListJobs`: by a time, the latest or the earliest first, and by the text of the id
-- where the times are equal.
module _ {J : Type 0} (time : J → Time) (text : J → List ℕ) where
  pub latest_first-IsOrder : IsOrder (λ (a b : J).
      if eqb (time a) (time b) then text_less (text a) (text b) else ltb (time b) (time a))
  latest_first-IsOrder = record {
    asym = λ a b h. ground (arith, text_less_asym (text a) (text b));
    trans_not = λ a b c h k. ground (arith, text_less_trans_not (text a) (text b) (text c));
  }

  pub earliest_first-IsOrder : IsOrder (λ (a b : J).
      if eqb (time a) (time b) then text_less (text a) (text b) else ltb (time a) (time b))
  earliest_first-IsOrder = record {
    asym = λ a b h. ground (arith, text_less_asym (text a) (text b));
    trans_not = λ a b c h k. ground (arith, text_less_trans_not (text a) (text b) (text c));
  }

-- The answer is a page of all jobs of one table that match, sorted; `has_more` says whether there
-- are more of them behind the page.
abbrev pub IsPage :
    {J : Type 0}
    → (List J → Jobs)
    → (J → J → Bool)
    → (J → Uuid)
    → (J → Bool)
    → Map Uuid J
    → ℕ
    → ℕ
    → MemoryState
    → Result (Jobs × Bool) × MemoryState
    → Type 0
IsPage {J} jobs less id matches table limit offset s r =
    (all : List J) × (r
      ≡ (ok (jobs (take limit (drop offset all)), ltb (offset + limit) (length all)), s))
    × IsSorted less all
    × ((job : J) → In job all ↔ ((lookup (id job) table ≡ some job) × (matches job ≡ true)))

pub length-keep : {A : Type 0} (p : A → Bool) (xs : List A) → length (keep p xs) ≤ length xs
unfolding keep
length-keep p [] = omega arith
length-keep p (x ∷ xs) = ground (arith, length-keep p xs)

length-insert_sorted :
    {A : Type 0} (less : A → A → Bool) (x : A) (xs : List A)
    → length (insert_sorted less x xs) ≡ suc (length xs)
unfolding insert_sorted
length-insert_sorted less x [] = refl
length-insert_sorted less x (y ∷ ys) = ground (arith, length-insert_sorted less x ys)

pub length-sort_slice :
    {A : Type 0} (less : A → A → Bool) (xs : List A) → length (sort_slice less xs) ≡ length xs
unfolding sort_slice
length-sort_slice less [] = refl
length-sort_slice less (x ∷ xs) =
    length-insert_sorted less x (sort_slice less xs) ∙ ap suc (length-sort_slice less xs)

pub length-values : {V : Type 0} (m : Map Uuid V) → length (values m) ≡ length m
length-values [] = refl
length-values ((k, v) ∷ m) = ap suc (length-values m)

module _ {J : Type 0} (less : J → J → Bool) (order : IsOrder less) (id : J → Uuid)
    (payload : J → Payload) (clone : J → J)
    (clone_lem : (job : J) → IsPayload (payload job) → clone job ≡ job) (matches : J → Bool)
    (table : Map Uuid J) (stored : Stored id payload table) where
  unfoldable pub matching : List J
  matching = sort_slice less (map clone (keep matches (values table)))

  matching_lem : matching ≡ sort_slice less (keep matches (values table))
  unfolding matching
  matching_lem =
      ap (λ (xs : List J). sort_slice less xs)
        (map-clone-keep id payload clone clone_lem matches table stored)

  matching-IsSorted : IsSorted less matching
  unfolding matching
  matching-IsSorted = sort_slice-IsSorted less order _

  In-matching :
      (job : J) → In job matching ↔ ((lookup (id job) table ≡ some job) × (matches job ≡ true))
  In-matching job = rw matching_lem (
    λ h. ground (
      arith,
      In-sort_slice less job (keep matches (values table)),
      In-keep matches job (values table),
      In-values id payload job table stored,
    ),
    λ h. ground (
      arith,
      In-sort_slice less job (keep matches (values table)),
      In-keep matches job (values table),
      In-values id payload job table stored,
    ),
  )

  length-matching : length matching ≤ length table
  length-matching = rw matching_lem (
      omega (
        arith,
        length-sort_slice less (keep matches (values table)),
        length-keep matches (values table),
        length-values table,
      ))

  page_of_matching :
      (limit offset : ℕ)
      → length table < 2 ^ 63
      → offset + limit < 2 ^ 63
      → paginate_with_more matching limit offset
        ≡ ok (take limit (drop offset matching), ltb (offset + limit) (length matching))
  page_of_matching limit offset small fits =
      paginate_with_more_lem matching limit offset (omega (arith, length-matching)) fits

  pub matching-IsPage :
      (jobs : List J → Jobs) (page : Result (List J × Bool) → Result (Jobs × Bool))
      → ((xs : List J) (more : Bool) → page (ok (xs, more)) ≡ ok (jobs xs, more))
      → (limit offset : ℕ) (s : MemoryState) → length table < 2 ^ 63
      → offset + limit < 2 ^ 63
      → IsPage jobs less id matches table limit offset s
          (page (paginate_with_more matching limit offset), s)
  matching-IsPage jobs page page_ok limit offset s small fits = (
    matching,
    ap (λ (q : Result (List J × Bool)). (page q, s)) (page_of_matching limit offset small fits)
        ∙ ap (λ (q : Result (Jobs × Bool)). (q, s)) (page_ok _ _),
    matching-IsSorted,
    In-matching,
  )
