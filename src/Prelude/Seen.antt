-- ===== src/Prelude/Seen.antt =====
-- Equality tests, the `seen` sets that the parsers keep, and lists without repetition.
use mathlib.Core.Path.{◌≡◌, refl}
use mathlib.Core.Logic.{◌≢◌, ◌↔◌, inl, inr}
use mathlib.Core.Bool.{Bool, true, false, ◌||◌}
use mathlib.Core.List.{List, [], ◌∷◌}
use native.Mathlib.Omega.{arith}
use Prim.Native.Nat.{ℕ}
use limnifs_py.Prelude.Tests.{◌==◌, ==_iff, Bool-cases, bytes_eq, bytes_eq_iff}
use limnifs_py.Prelude.Lists.{All}

-- `a == b` as the program tests it.
pub record Eq {ℓ} (A : Type ℓ) : Type ℓ where
  pub beq : A → A → Bool
  pub beq_iff : (a b : A) → (beq a b ≡ true) ↔ (a ≡ b)

-- `x in seen`
module _ {ℓ} {A : Type ℓ} ⦃eq : Eq A⦄ where
  unfoldable pub contains : A → List A → Bool
  contains a [] = false
  contains a (x ∷ xs) = eq.beq x a || contains a xs

module _ {ℓ} {A : Type ℓ} where
  -- No element stands twice.
  abbrev pub Distinct : List A → Type ℓ
  Distinct [] = Unit
  Distinct (x ∷ xs) = All (λ y. x ≢ y) xs × Distinct xs

  abbrev pub NotIn : List A → A → Type ℓ
  NotIn seen a = All (λ x. x ≢ a) seen

module _ {ℓ} {A : Type ℓ} ⦃eq : Eq A⦄ where
  pub contains→NotIn : (a : A) (xs : List A) → contains a xs ≡ false → NotIn xs a
  unfolding contains
  contains→NotIn a [] h = tt
  contains→NotIn a (x ∷ xs) h =
      ((λ e. cc (h, (eq.beq_iff x a).1 e)), contains→NotIn a xs (ground arith))

  pub NotIn→contains : (a : A) (xs : List A) → NotIn xs a → contains a xs ≡ false
  unfolding contains
  NotIn→contains a [] h = refl
  NotIn→contains a (x ∷ xs) h = elim (Bool-cases (eq.beq x a)) [
    | inl same ↦ absurd (h.0 ((eq.beq_iff x a).0 same))
    | inr other ↦ rw other (NotIn→contains a xs h.1)
  ]

instance abbrev pub nat_eq : Eq ℕ
nat_eq = record { beq = ◌==◌; beq_iff = ==_iff }

instance abbrev pub text_eq : Eq (List ℕ)
text_eq = record { beq = bytes_eq; beq_iff = bytes_eq_iff }
