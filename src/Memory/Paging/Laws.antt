-- ===== src/Memory/Paging/Laws.antt =====
-- What the pages of storage/memory.go hold, and when cutting one panics.
use xwork.Prelude.{
  ℕ, zero, suc, ◌+◌, ◌-◌, ◌≤◌, ◌<◌, ◌^◌, Bool, Option, none, some, inl, inr, List, [], ◌∷◌, ◌++◌,
  ◌≡◌, refl, ap, ◌∙◌, sym, ◌↔◌, arith, ltb, if◌then◌else◌, Bool-cases, length, take, drop, take_all,
  length-drop, drop_all,
}
use native.Mathlib.Nat.{suc-add}
use xwork.Prelude.Result.{Result, ok, err, slice_bounds_out_of_range}
use xwork.Memory.Paging.{paginate, paginate_with_more, normalize_job_query_limit}

-- A page never holds more than 100 jobs, and never asks for none.
pub normalize_job_query_limit_bounds :
    (limit : ℕ) → (1 ≤ normalize_job_query_limit limit) × (normalize_job_query_limit limit ≤ 100)
unfolding normalize_job_query_limit
normalize_job_query_limit_bounds limit = ground arith

module _ {A : Type 0} where
  take_past : (m n : ℕ) (xs : List A) → length xs ≤ m → length xs ≤ n → take m xs ≡ take n xs
  take_past m n xs h k = take_all m xs h ∙ sym (take_all n xs k)

  -- the page that starts inside the list, when the sum of offset and limit is an `int`
  take_rest :
      (offset limit : ℕ) (items : List A)
      → length items ≤ offset + limit
      → take (length items - offset) (drop offset items) ≡ take limit (drop offset items)
  take_rest offset limit items h =
      take_past _ _ (drop offset items) (omega (arith, length-drop offset items))
        (omega (arith, length-drop offset items))

  -- the page that starts past the end
  page_past :
      (offset limit : ℕ) (items : List A)
      → length items ≤ offset
      → take limit (drop offset items) ≡ []
  unfolding take
  page_past offset limit items h = rw (drop_all offset items h) (take_nil limit)
    where
      take_nil : (k : ℕ) → take {A = A} k [] ≡ []
      take_nil zero = refl
      take_nil (suc k) = refl

  pub paginate_lem :
      (items : List A) (limit offset : ℕ)
      → length items < 2 ^ 63
      → 0 < limit
      → offset + limit < 2 ^ 63
      → paginate items limit offset ≡ ok (take limit (drop offset items))
  unfolding paginate
  paginate_lem items limit offset small pos fits =
      ground (arith, take_rest offset limit items, page_past offset limit items)

  -- Where neither the list's length nor offset + limit reaches 2^63, the page is the `limit`
  -- items after the first `offset`, and there is more exactly when offset + limit is less than
  -- the length.
  pub paginate_with_more_lem :
      (items : List A) (limit offset : ℕ)
      → length items < 2 ^ 63
      → offset + limit < 2 ^ 63
      → paginate_with_more items limit offset
        ≡ ok (take limit (drop offset items), ltb (offset + limit) (length items))
  unfolding paginate_with_more
  paginate_with_more_lem items limit offset small fits =
      ground (arith, take_rest offset limit items, page_past offset limit items)

  -- For a list shorter than 2^63 and a limit that is a `uint` and not 0, cutting a page panics
  -- exactly when the page starts inside the list and offset + limit is 2^63 or more.
  pub paginate_panics_iff :
      (items : List A) (limit offset : ℕ)
      → length items < 2 ^ 63
      → 0 < limit
      → limit < 2 ^ 64
      → (paginate items limit offset ≡ err slice_bounds_out_of_range)
        ↔ ((offset < length items) × (2 ^ 63 ≤ offset + limit))
  unfolding paginate
  paginate_panics_iff items limit offset small pos word = (λ h. ground arith, λ h. ground arith)

  -- A client that walks the pages, asking for the next as long as there is more: `none` where it
  -- would ask for more pages than the fuel allows.
  abbrev append_pages : List A → Option (Result (List A)) → Option (Result (List A))
  append_pages page none = none
  append_pages page (some (ok rest)) = some (ok (page ++ rest))
  append_pages page (some (err e)) = some (err e)

  abbrev and_then : Option (Result (List A)) → Result (List A × Bool) → Option (Result (List A))
  and_then rest (ok (page, has_more)) = if has_more then append_pages page rest else some (ok page)
  and_then rest (err e) = some (err e)

  pub walk : ℕ → List A → ℕ → ℕ → Option (Result (List A))
  walk zero items limit offset = none
  walk (suc fuel) items limit offset =
      and_then (walk fuel items limit (offset + limit)) (paginate_with_more items limit offset)

  drop-drop : (m n : ℕ) (xs : List A) → drop n (drop m xs) ≡ drop (m + n) xs
  unfolding drop
  drop-drop zero n xs = ap (λ (k : ℕ). drop k xs) (omega arith)
  drop-drop (suc m) n [] = drop_all n [] (omega arith) ∙ sym (drop_all (suc m + n) [] (omega arith))
  drop-drop (suc m) n (x ∷ xs) = rw (suc-add m n) (drop-drop m n xs)

  take-append-drop : (n : ℕ) (xs : List A) → take n xs ++ drop n xs ≡ xs
  unfolding take drop
  take-append-drop (suc n) [] = refl
  take-append-drop (suc n) (x ∷ xs) = ap (◌∷◌ x) (take-append-drop n xs)
  take-append-drop zero xs = refl

  page-append-rest :
      (limit offset : ℕ) (items : List A)
      → take limit (drop offset items) ++ drop (offset + limit) items ≡ drop offset items
  page-append-rest limit offset items =
      rw (← drop-drop offset limit items) (take-append-drop limit (drop offset items))

  last_page :
      (limit offset : ℕ) (items : List A)
      → length items ≤ offset + limit
      → take limit (drop offset items) ≡ drop offset items
  last_page limit offset items h =
      take_all limit (drop offset items) (omega (arith, length-drop offset items))

  -- Walking from an offset yields the rest of the list, every item once and in order. The fuel
  -- that is enough is the number of items left.
  walk_lem :
      (fuel : ℕ) (items : List A) (limit offset : ℕ)
      → length items + 100 < 2 ^ 63
      → 0 < limit
      → limit ≤ 100
      → offset ≤ length items
      → length items - offset < fuel
      → walk fuel items limit offset ≡ some (ok (drop offset items))
  unfolding walk
  walk_lem zero items limit offset small pos most inside enough = absurd (omega arith)
  walk_lem (suc fuel) items limit offset small pos most inside enough =
      elim (Bool-cases (ltb (offset + limit) (length items))) [
        | inl more ↦
            rw
              (
                paginate_with_more_lem items limit offset (omega arith) (omega arith),
                more,
                walk_lem fuel items limit (offset + limit) small pos most (ground (arith, more))
                    (ground (arith, more)),
              )
              (ap (λ page. some (ok page)) (page-append-rest limit offset items))
        | inr last ↦
            rw (paginate_with_more_lem items limit offset (omega arith) (omega arith), last)
              (ap (λ page. some (ok page)) (last_page limit offset items (ground (arith, last))))
      ]

  -- For a list with fewer than 2^63 - 100 items and any limit in the request, a client that
  -- starts at offset 0 and asks for the next page while there is more stops by itself after at
  -- most one page more than there are items, and has read all items in order.
  pub pages_complete :
      (items : List A) (limit : ℕ)
      → length items + 100 < 2 ^ 63
      → walk (suc (length items)) items (normalize_job_query_limit limit) 0 ≡ some (ok items)
  unfolding drop
  pages_complete items limit small =
      walk_lem (suc (length items)) items (normalize_job_query_limit limit) 0 small
        (normalize_job_query_limit_bounds limit).0 (normalize_job_query_limit_bounds limit).1
        (omega arith) (omega arith)
