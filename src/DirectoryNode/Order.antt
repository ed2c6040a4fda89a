-- ===== src/DirectoryNode/Order.antt =====
-- The order of Python's `str`: lexicographic by code points.
use limnifs_py.Prelude.{
  ℕ, ◌<◌, ◌≡◌, ◌↔◌, ◌⊎◌, inl, inr, Bool, true, false, ◌&&◌, ◌||◌, List, [], ◌∷◌, arith, ltb, ◌==◌,
}

-- `a < b`
unfoldable pub text_lt : List ℕ → List ℕ → Bool
text_lt [] [] = false
text_lt [] (y ∷ ys) = true
text_lt (x ∷ xs) [] = false
text_lt (x ∷ xs) (y ∷ ys) = ltb x y || (x == y && text_lt xs ys)

infix 4 ◌≺◌
abbrev pub ◌≺◌ : List ℕ → List ℕ → Type 0
[] ≺ [] = ⊥
[] ≺ (y ∷ ys) = Unit
(x ∷ xs) ≺ [] = ⊥
(x ∷ xs) ≺ (y ∷ ys) = (x < y) ⊎ ((x ≡ y) × (xs ≺ ys))

pub text_lt_iff : (a b : List ℕ) → (text_lt a b ≡ true) ↔ (a ≺ b)
unfolding text_lt
text_lt_iff [] [] = ground arith
text_lt_iff [] (y ∷ ys) = ground arith
text_lt_iff (x ∷ xs) [] = ground arith
text_lt_iff (x ∷ xs) (y ∷ ys) = ground (arith, text_lt_iff xs ys)

pub ≺_trans : (a b c : List ℕ) → a ≺ b → b ≺ c → a ≺ c
≺_trans a [] c p q = absurd (not_below a p)
  where
    not_below : (t : List ℕ) → t ≺ [] → ⊥
    not_below [] h = h
    not_below (x ∷ xs) h = h
≺_trans [] (y ∷ ys) [] p q = q
≺_trans [] (y ∷ ys) (z ∷ zs) p q = tt
≺_trans (x ∷ xs) (y ∷ ys) [] p q = q
≺_trans (x ∷ xs) (y ∷ ys) (z ∷ zs) (inl p) (inl q) = inl (omega arith)
≺_trans (x ∷ xs) (y ∷ ys) (z ∷ zs) (inl p) (inr q) = inl (omega (arith, q.0))
≺_trans (x ∷ xs) (y ∷ ys) (z ∷ zs) (inr p) (inl q) = inl (omega (arith, p.0))
≺_trans (x ∷ xs) (y ∷ ys) (z ∷ zs) (inr p) (inr q) =
    inr (omega (arith, p.0, q.0), ≺_trans xs ys zs p.1 q.1)

pub ≺_irrefl : (a : List ℕ) → a ≺ a → ⊥
≺_irrefl [] h = h
≺_irrefl (x ∷ xs) (inl h) = omega arith
≺_irrefl (x ∷ xs) (inr h) = ≺_irrefl xs h.1
