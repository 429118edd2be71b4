-- ===== src/Sql/Page.antt =====
-- The page that `collectJobRows` of storage/sql.go makes of the rows that the engine gives.
use xwork.Prelude.{
  ℕ, zero, suc, ◌+◌, ◌≤◌, Bool, none, List, [], ◌∷◌, map, ◌≡◌, refl, ap, ◌∙◌, arith, ltb,
  Bool-cases, inl, inr, length, take, drop, keep, In, In-keep, length-take, length-drop, take_all,
}
use xwork.Prelude.Result.{Result, ok}
use xwork.Prelude.Sort.{sort_slice, insert_sorted}
use xwork.Prelude.Sort.Laws.{In-sort_slice}
use xwork.Sql.Driver.{Row, Value}
use xwork.Sql.Scan.{scan_all}
use xwork.Sql.Query.{cut_page, collect_job_rows}
use xwork.Sql.Engine.{Select, Stored, run_select, all_hold, before, argument, whole_of}
use xwork.Text.{Platform}

module _ {A B : Type 0} (f : A → B) where
  take-map : (n : ℕ) (xs : List A) → take n (map f xs) ≡ map f (take n xs)
  unfolding take
  take-map zero [] = refl
  take-map zero (x ∷ xs) = refl
  take-map (suc n) [] = refl
  take-map (suc n) (x ∷ xs) = ap (λ ys. f x ∷ ys) (take-map n xs)

  drop-map : (n : ℕ) (xs : List A) → drop n (map f xs) ≡ map f (drop n xs)
  unfolding drop
  drop-map zero [] = refl
  drop-map zero (x ∷ xs) = refl
  drop-map (suc n) [] = refl
  drop-map (suc n) (x ∷ xs) = drop-map n xs

  keep-map :
      (p : B → Bool) (q : A → Bool) (xs : List A)
      → ((x : A) → p (f x) ≡ q x)
      → keep p (map f xs) ≡ map f (keep q xs)
  unfolding keep
  keep-map p q [] same = refl
  keep-map p q (x ∷ xs) same = elim (Bool-cases (q x)) [
    | inl h ↦ rw (same x, h) (ap (λ ys. f x ∷ ys) (keep-map p q xs same))
    | inr h ↦ rw (same x, h) (keep-map p q xs same)
  ]

  insert_sorted-map :
      (less : B → B → Bool) (x : A) (xs : List A)
      → insert_sorted less (f x) (map f xs) ≡ map f (insert_sorted (λ a b. less (f a) (f b)) x xs)
  unfolding insert_sorted
  insert_sorted-map less x [] = refl
  insert_sorted-map less x (y ∷ ys) = elim (Bool-cases (less (f y) (f x))) [
    | inl h ↦ rw h (ap (λ zs. f y ∷ zs) (insert_sorted-map less x ys))
    | inr h ↦ rw h refl
  ]

  sort_slice-map :
      (less : B → B → Bool) (xs : List A)
      → sort_slice less (map f xs) ≡ map f (sort_slice (λ a b. less (f a) (f b)) xs)
  unfolding sort_slice
  sort_slice-map less [] = refl
  sort_slice-map less (x ∷ xs) =
      ap (λ ys. insert_sorted less (f x) ys) (sort_slice-map less xs)
      ∙ insert_sorted-map less x (sort_slice (λ a b. less (f a) (f b)) xs)

map-map :
    {A B C : Type 0} (f : A → B) (g : B → C) (xs : List A)
    → map g (map f xs) ≡ map (λ x. g (f x)) xs
map-map f g [] = refl
map-map f g (x ∷ xs) = ap (λ ys. g (f x) ∷ ys) (map-map f g xs)

module _ {A : Type 0} where
  In-take : (x : A) (n : ℕ) (xs : List A) → In x (take n xs) → In x xs
  unfolding take
  In-take x zero [] h = h
  In-take x zero (y ∷ ys) h = absurd h
  In-take x (suc n) [] h = h
  In-take x (suc n) (y ∷ ys) (inl e) = inl e
  In-take x (suc n) (y ∷ ys) (inr h) = inr (In-take x n ys h)

  In-drop : (x : A) (n : ℕ) (xs : List A) → In x (drop n xs) → In x xs
  unfolding drop
  In-drop x zero [] h = h
  In-drop x zero (y ∷ ys) h = h
  In-drop x (suc n) [] h = h
  In-drop x (suc n) (y ∷ ys) h = inr (In-drop x n ys h)

  take-take : (n m : ℕ) (xs : List A) → n ≤ m → take n (take m xs) ≡ take n xs
  unfolding take
  take-take zero m xs h = refl
  take-take (suc n) zero xs h = absurd (omega arith)
  take-take (suc n) (suc m) [] h = refl
  take-take (suc n) (suc m) (x ∷ xs) h = ap (λ ys. x ∷ ys) (take-take n m xs (omega arith))

  -- Asking for one job more than the page holds tells whether there are more.
  cut_page_lem :
      (limit offset : ℕ) (all : List A)
      → cut_page limit (take (limit + 1) (drop offset all))
        ≡ (take limit (drop offset all), ltb (offset + limit) (length all))
  cut_page_lem limit offset all = ground (
    arith,
    length-take (limit + 1) (drop offset all),
    length-drop offset all,
    take-take limit (limit + 1) (drop offset all),
    take_all (limit + 1) (drop offset all),
    take_all limit (drop offset all),
  )

  scan_all-map :
      (scan_row : Row → Result A) (row : A → Row) (xs : List A)
      → ((x : A) → In x xs → scan_row (row x) ≡ ok x)
      → scan_all scan_row (map row xs) ≡ ok xs
  unfolding scan_all
  scan_all-map scan_row row [] good = refl
  scan_all-map scan_row row (x ∷ xs) good =
      rw (good x (inl refl), scan_all-map scan_row row xs (λ y h. good y (inr h))) refl

-- The rows for a statement on the rows of a table of jobs, and the page made of them.
module _ (platform : Platform) {J : Type 0} (stored : J → Stored) (scan_row : Row → Result J)
    (q : Select) (args : List Value) (matches : J → Bool) (jobs : List J)
    (same : (job : J) → all_hold platform args q.conditions (stored job) ≡ matches job)
    (reads : (job : J) → In job jobs → scan_row (map (stored job) q.columns) ≡ ok job)
    (limit offset : ℕ) (asked : whole_of (argument q.limit args) ≡ limit + 1)
    (from : whole_of (argument q.offset args) ≡ offset) where
  abbrev sorted : List J
  sorted =
      sort_slice (λ a b. before platform q.latest_first q.time (stored a) (stored b))
        (keep matches jobs)

  -- the rows of the table that the statement asks for, before they are projected on the columns
  found_lem :
      take (limit + 1) (
        drop offset (
          sort_slice
            (before platform q.latest_first q.time)
            (keep (all_hold platform args q.conditions) (map stored jobs))))
      ≡ map stored (take (limit + 1) (drop offset sorted))
  found_lem =
      ap
        (λ rows.
          take (limit + 1) (drop offset (sort_slice (before platform q.latest_first q.time) rows)))
        (keep-map stored (all_hold platform args q.conditions) matches jobs same)
      ∙ ap (λ rows. take (limit + 1) (drop offset rows))
          (sort_slice-map stored (before platform q.latest_first q.time) (keep matches jobs))
      ∙ ap (take (limit + 1)) (drop-map stored offset sorted)
      ∙ take-map stored (limit + 1) (drop offset sorted)

  run_select-map :
      run_select platform q args (map stored jobs)
      ≡ map (λ job. map (stored job) q.columns) (take (limit + 1) (drop offset sorted))
  run_select-map =
      rw (asked, from)
        (ap (map (λ (found : Stored). map found q.columns)) found_lem
          ∙ map-map stored (λ found. map found q.columns) (take (limit + 1) (drop offset sorted)))

  reads_all :
      (job : J)
      → In job (take (limit + 1) (drop offset sorted))
      → scan_row (map (stored job) q.columns) ≡ ok job
  reads_all job h =
      reads job
        ((In-keep matches job jobs).0 (
          (In-sort_slice _ job (keep matches jobs)).0
            (In-drop job offset sorted (In-take job (limit + 1) (drop offset sorted) h)))).0

  pub collect_job_rows_lem :
      collect_job_rows
        (record { rows = run_select platform q args (map stored jobs); failure = none })
        limit
        scan_row
      ≡ ok (take limit (drop offset sorted), ltb (offset + limit) (length sorted))
  unfolding collect_job_rows
  collect_job_rows_lem =
      rw
        (
          run_select-map,
          scan_all-map scan_row (λ job. map (stored job) q.columns)
              (take (limit + 1) (drop offset sorted)) reads_all,
        )
        (ap ok (cut_page_lem limit offset sorted))
