-- ===== src/Memory/Paging.antt =====
-- `paginate`, `paginateWithMore` and `normalizeJobQueryLimit` of storage/memory.go, with the
-- machine arithmetic of `int` (64 bits) and the bounds check of a slice expression.
pub mod Laws
use xwork.Prelude.{
  ℕ, ◌+◌, ◌-◌, ◌%◌, ◌^◌, Bool, true, false, ◌&&◌, ◌||◌, List, [], arith, ltb, leb, eqb,
  if◌then◌else◌, length, take, drop,
}
use xwork.Prelude.Result.{Result, ok, err, slice_bounds_out_of_range}

-- `int(a) + int(b)` of two `uint` values, as the 64 bits of the sum
abbrev pub add_int : ℕ → ℕ → ℕ
add_int a b = (a + b) % 2 ^ 64

-- The 64 bits `n` stand for a negative `int`.
abbrev pub is_negative : ℕ → Bool
is_negative n = leb (2 ^ 63) n

-- `items[start:end]`
abbrev pub slice {ℓ} : {A : Type ℓ} → List A → ℕ → ℕ → Result (List A)
slice items start end =
    if is_negative end || ltb end start || ltb (length items) end
    then err slice_bounds_out_of_range
    else ok (take (end - start) (drop start items))

module _ {ℓ} {A : Type ℓ} where
  -- the end of the page: `end`, or the length where that is smaller
  abbrev page_end : List A → ℕ → ℕ
  page_end items end =
      if is_negative end then end else if ltb (length items) end then length items else end

  abbrev page_from : List A → ℕ → ℕ → Result (List A)
  page_from items limit offset = slice items offset (page_end items (add_int offset limit))

  unfoldable pub paginate : List A → ℕ → ℕ → Result (List A)
  paginate items limit offset =
      if leb (length items) offset
      then ok []
      else page_from items (if eqb limit 0 then 100 else limit) offset

  abbrev with_more : Bool → Result (List A) → Result (List A × Bool)
  with_more has_more (ok page) = ok (page, has_more)
  with_more has_more (err e) = err e

  unfoldable pub paginate_with_more : List A → ℕ → ℕ → Result (List A × Bool)
  paginate_with_more items limit offset =
      let end = add_int offset limit in
      if leb (length items) offset
      then ok ([], false)
      else with_more (is_negative end || ltb end (length items))
          (slice items offset (page_end items end))

unfoldable pub normalize_job_query_limit : ℕ → ℕ
normalize_job_query_limit limit = if eqb limit 0 then 25 else if ltb 100 limit then 100 else limit
