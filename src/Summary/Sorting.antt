-- ===== src/Summary/Sorting.antt =====
-- `sorted` on the keys of the summary.
use mathlib.Core.List.{Perm}
use mathlib.Core.List.Perm
use limnifs_py.Prelude.{
  ℕ, ◌≡◌, refl, sym, subst, inl, inr, Bool, true, false, List, [], ◌∷◌, arith, All, Bool-cases,
}
use limnifs_py.DirectoryNode.Order.{text_lt}
use limnifs_py.Summary.{insert, sorted, number_below, node_below}

-- A strict order in which two entries may stand side by side.
pub record IsKeyOrder {ℓ} {A : Type ℓ} (below : A → A → Bool) : Type ℓ where
  pub asym : (a b : A) → below a b ≡ true → below b a ≡ false
  pub chain : (a b c : A) → below b a ≡ false → below c b ≡ false → below c a ≡ false

module _ {ℓ} {A : Type ℓ} (below : A → A → Bool) where
  -- No entry is below an earlier one.
  abbrev pub IsSorted : List A → Type ℓ
  IsSorted [] = Unit
  IsSorted (x ∷ xs) = All (λ y. below y x ≡ false) xs × IsSorted xs

  insert-past :
      (a x : A) (xs : List A) → below x a ≡ true → insert below a (x ∷ xs) ≡ x ∷ insert below a xs
  unfolding insert
  insert-past a x xs h = rw h

  insert-here : (a x : A) (xs : List A) → below x a ≡ false → insert below a (x ∷ xs) ≡ a ∷ x ∷ xs
  unfolding insert
  insert-here a x xs h = rw h

  insert-perm : (a : A) (xs : List A) → Perm (insert below a xs) (a ∷ xs)
  unfolding insert
  insert-perm a [] = Perm.rfl
  insert-perm a (x ∷ xs) = elim (Bool-cases (below x a)) [
    | inl past ↦
        rw (insert-past a x xs past)
          (Perm.trans (Perm.cons x (insert-perm a xs)) (Perm.swap a x xs))
    | inr here ↦ rw (insert-here a x xs here) Perm.rfl
  ]

  pub sorted-perm : (xs : List A) → Perm (sorted below xs) xs
  unfolding sorted
  sorted-perm [] = Perm.rfl
  sorted-perm (x ∷ xs) = Perm.trans (insert-perm x (sorted below xs)) (Perm.cons x (sorted-perm xs))

  All-insert {κ} :
      (P : A → Type κ) (a : A) (xs : List A) → P a → All P xs → All P (insert below a xs)
  unfolding insert
  All-insert P a [] p h = (p, tt)
  All-insert P a (x ∷ xs) p h = elim (Bool-cases (below x a)) [
    | inl past ↦ subst (All P) (sym (insert-past a x xs past)) (h.0, All-insert P a xs p h.1)
    | inr here ↦ subst (All P) (sym (insert-here a x xs here)) (p, h)
  ]

  module _ (order : IsKeyOrder below) where
    above :
        (a x : A) (xs : List A)
        → below x a ≡ false
        → All (λ y. below y x ≡ false) xs
        → All (λ y. below y a ≡ false) xs
    above a x [] h all = tt
    above a x (y ∷ xs) h all = (order.chain a x y h all.0, above a x xs h all.1)

    insert-IsSorted : (a : A) (xs : List A) → IsSorted xs → IsSorted (insert below a xs)
    unfolding insert
    insert-IsSorted a [] h = (tt, tt)
    insert-IsSorted a (x ∷ xs) h = elim (Bool-cases (below x a)) [
      | inl past ↦ subst IsSorted (sym (insert-past a x xs past)) (
        All-insert (λ y. below y x ≡ false) a xs (order.asym x a past) h.0,
        insert-IsSorted a xs h.1,
      )
      | inr here ↦ subst IsSorted (sym (insert-here a x xs here)) ((here, above a x xs here h.0), h)
    ]

    pub sorted-IsSorted : (xs : List A) → IsSorted (sorted below xs)
    unfolding sorted
    sorted-IsSorted [] = tt
    sorted-IsSorted (x ∷ xs) = insert-IsSorted x (sorted below xs) (sorted-IsSorted xs)

pub number_below-IsKeyOrder : IsKeyOrder number_below
number_below-IsKeyOrder = record { asym = λ a b h. ground arith; chain = λ a b c h k. ground arith }

text_lt_asym : (a b : List ℕ) → text_lt a b ≡ true → text_lt b a ≡ false
unfolding text_lt
text_lt_asym [] [] h = cc
text_lt_asym [] (y ∷ ys) h = refl
text_lt_asym (x ∷ xs) [] h = cc
text_lt_asym (x ∷ xs) (y ∷ ys) h = ground (arith, text_lt_asym xs ys)

text_lt_chain : (a b c : List ℕ) → text_lt b a ≡ false → text_lt c b ≡ false → text_lt c a ≡ false
unfolding text_lt
text_lt_chain [] [] [] h k = refl
text_lt_chain [] [] (z ∷ zs) h k = refl
text_lt_chain [] (y ∷ ys) [] h k = cc
text_lt_chain [] (y ∷ ys) (z ∷ zs) h k = refl
text_lt_chain (x ∷ xs) [] c h k = cc
text_lt_chain (x ∷ xs) (y ∷ ys) [] h k = cc
text_lt_chain (x ∷ xs) (y ∷ ys) (z ∷ zs) h k = ground (arith, text_lt_chain xs ys zs)

pub node_below-IsKeyOrder : IsKeyOrder node_below
node_below-IsKeyOrder = record {
  asym = λ a b h. ground (arith, text_lt_asym a.first b.first);
  chain = λ a b c h k. ground (arith, text_lt_chain a.first b.first c.first);
}
