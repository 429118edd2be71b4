-- ===== src/Prelude/Sort/Laws.antt =====
-- `sort_slice` sorts, and loses and adds nothing.
use mathlib.Core.List.{Perm}
use mathlib.Core.List.Perm
use xwork.Prelude.Tests.{Bool-cases}
use xwork.Prelude.Lists.{All, In}
use mathlib.Core.Path.{◌≡◌}
use mathlib.Core.Logic.{◌⊎◌, ◌↔◌, inl, inr}
use mathlib.Core.Bool.{Bool, true, false}
use mathlib.Core.List.{List, [], ◌∷◌}
use native.Mathlib.Omega.{arith}
use xwork.Prelude.Sort.{insert_sorted, sort_slice}

-- What `sort.Slice` asks of its `less`: a strict weak order.
pub record IsOrder {ℓ} {A : Type ℓ} (less : A → A → Bool) : Type ℓ where
  pub asym : (a b : A) → less a b ≡ true → less b a ≡ false
  pub trans_not : (a b c : A) → less b a ≡ false → less c b ≡ false → less c a ≡ false

module _ {ℓ} {A : Type ℓ} (less : A → A → Bool) where
  -- No later element is less than an earlier one.
  abbrev pub IsSorted : List A → Type ℓ
  IsSorted [] = Unit
  IsSorted (x ∷ xs) = All (λ y. less y x ≡ false) xs × IsSorted xs

  insert_sorted-perm : (x : A) (xs : List A) → Perm (insert_sorted less x xs) (x ∷ xs)
  unfolding insert_sorted
  insert_sorted-perm x [] = Perm.refl _
  insert_sorted-perm x (y ∷ ys) = elim (Bool-cases (less y x)) [
    | inl h ↦ rw h (Perm.trans (Perm.cons y (insert_sorted-perm x ys)) (Perm.swap x y ys))
    | inr h ↦ rw h (Perm.refl _)
  ]

  pub sort_slice-perm : (xs : List A) → Perm (sort_slice less xs) xs
  unfolding sort_slice
  sort_slice-perm [] = Perm.refl _
  sort_slice-perm (x ∷ xs) =
      Perm.trans (insert_sorted-perm x (sort_slice less xs)) (Perm.cons x (sort_slice-perm xs))

  module _ (order : IsOrder less) where
    All-insert_sorted :
        (z x : A) (xs : List A)
        → less x z ≡ false
        → All (λ y. less y z ≡ false) xs
        → All (λ y. less y z ≡ false) (insert_sorted less x xs)
    unfolding insert_sorted
    All-insert_sorted z x [] h all = (h, tt)
    All-insert_sorted z x (y ∷ ys) h all = ground (arith, All-insert_sorted z x ys h all.1)

    All-trans :
        (x y : A) (ys : List A)
        → less y x ≡ false
        → All (λ z. less z y ≡ false) ys
        → All (λ z. less z x ≡ false) ys
    All-trans x y [] h all = tt
    All-trans x y (z ∷ zs) h all = (order.trans_not x y z h all.0, All-trans x y zs h all.1)

    insert_sorted-IsSorted :
        (x : A) (xs : List A) → IsSorted xs → IsSorted (insert_sorted less x xs)
    unfolding insert_sorted
    insert_sorted-IsSorted x [] s = (tt, tt)
    insert_sorted-IsSorted x (y ∷ ys) s = elim (Bool-cases (less y x)) [
      | inl h ↦
          rw h (All-insert_sorted y x ys (order.asym y x h) s.0, insert_sorted-IsSorted x ys s.1)
      | inr h ↦ rw h ((h, All-trans x y ys h s.0), s)
    ]

    pub sort_slice-IsSorted : (xs : List A) → IsSorted (sort_slice less xs)
    unfolding sort_slice
    sort_slice-IsSorted [] = tt
    sort_slice-IsSorted (x ∷ xs) =
        insert_sorted-IsSorted x (sort_slice less xs) (sort_slice-IsSorted xs)

module _ {A : Type 0} (less : A → A → Bool) where
  In-insert_sorted : (z x : A) (xs : List A) → In z (insert_sorted less x xs) ↔ ((x ≡ z) ⊎ In z xs)
  unfolding insert_sorted
  In-insert_sorted z x [] = (λ h. h, λ h. h)
  In-insert_sorted z x (y ∷ ys) =
      (λ h. ground (arith, In-insert_sorted z x ys), λ h. ground (arith, In-insert_sorted z x ys))

  -- Sorting keeps the elements.
  pub In-sort_slice : (z : A) (xs : List A) → In z (sort_slice less xs) ↔ In z xs
  unfolding sort_slice
  In-sort_slice z [] = (λ h. h, λ h. h)
  In-sort_slice z (x ∷ xs) = (
    λ h. ground (arith, In-insert_sorted z x (sort_slice less xs), In-sort_slice z xs),
    λ h. ground (arith, In-insert_sorted z x (sort_slice less xs), In-sort_slice z xs),
  )
