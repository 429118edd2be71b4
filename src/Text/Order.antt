-- ===== src/Text/Order.antt =====
-- `<` on texts is a strict total order.
use xwork.Prelude.{Bool-cases, subst, inl, inr, ℕ, true, false, List, [], ◌∷◌, ◌≡◌, refl, arith}
use xwork.Text.{text_less}

pub text_less_irrefl : (a : List ℕ) → text_less a a ≡ false
unfolding text_less
text_less_irrefl [] = refl
text_less_irrefl (x ∷ a) = ground (arith, text_less_irrefl a)

pub text_less_asym : (a b : List ℕ) → text_less a b ≡ true → text_less b a ≡ false
unfolding text_less
text_less_asym [] [] h = refl
text_less_asym [] (y ∷ b) h = refl
text_less_asym (x ∷ a) [] h = cc
text_less_asym (x ∷ a) (y ∷ b) h = ground (arith, text_less_asym a b)

pub text_less_trans :
    (a b c : List ℕ) → text_less a b ≡ true → text_less b c ≡ true → text_less a c ≡ true
unfolding text_less
text_less_trans [] [] c h k = cc
text_less_trans [] (y ∷ b) [] h k = cc
text_less_trans [] (y ∷ b) (z ∷ c) h k = refl
text_less_trans (x ∷ a) [] c h k = cc
text_less_trans (x ∷ a) (y ∷ b) [] h k = cc
text_less_trans (x ∷ a) (y ∷ b) (z ∷ c) h k = ground (arith, text_less_trans a b c)

-- Two texts of which neither is less are the same.
pub text_less_total : (a b : List ℕ) → text_less a b ≡ false → text_less b a ≡ false → a ≡ b
unfolding text_less
text_less_total [] [] h k = refl
text_less_total [] (y ∷ b) h k = cc
text_less_total (x ∷ a) [] h k = cc
text_less_total (x ∷ a) (y ∷ b) h k = ground (arith, text_less_total a b)

-- Not to come before is transitive too.
pub text_less_trans_not :
    (a b c : List ℕ) → text_less b a ≡ false → text_less c b ≡ false → text_less c a ≡ false
text_less_trans_not a b c h k = elim (Bool-cases (text_less c a)) [
  | inr not_higher ↦ not_higher
  | inl higher ↦ elim (Bool-cases (text_less a b)) [
    | inl below ↦ absurd (ground (arith, text_less_trans c a b higher below, k))
    | inr level ↦
        let same : a ≡ b = text_less_total a b level h in
        absurd (ground (arith, subst (λ t. text_less c t ≡ true) same higher, k))
  ]
]
