-- ===== src/Prelude/Find.antt =====
-- The first entry with a key: `for x in xs: if x.key == k: return x`, else `None`.
use mathlib.Core.Path.{◌≡◌, sym, ap, ◌∙◌}
use mathlib.Core.Logic.{◌≢◌, ◌⊎◌, ◌↔◌, inl, inr}
use mathlib.Core.Option.{Option, none, some}
use mathlib.Core.List.{List, [], ◌∷◌, map}
use native.Mathlib.Omega.{arith}
use limnifs_py.Prelude.Tests.{Bool-cases, if◌then◌else◌}
use mathlib.Core.Bool.{true}
use limnifs_py.Prelude.Lists.{All}
use limnifs_py.Prelude.Seen.{Eq, Distinct}

-- Nothing stands in the empty list.
pub data Nowhere {ℓ} : Type ℓ where

module _ {ℓ} {A : Type ℓ} where
  -- `a` stands in the list.
  abbrev pub In : A → List A → Type ℓ
  In a [] = Nowhere {ℓ}
  In a (x ∷ xs) = (a ≡ x) ⊎ In a xs

module _ {ℓ κ} {A : Type ℓ} {K : Type κ} ⦃eq : Eq K⦄ (key : A → K) where
  unfoldable pub find_first : K → List A → Option A
  find_first k [] = none
  find_first k (x ∷ xs) = if eq.beq (key x) k then some x else find_first k xs

  find_first-In : (k : K) (xs : List A) (a : A) → find_first k xs ≡ some a → In a xs × (key a ≡ k)
  unfolding find_first
  find_first-In k [] a h = cc
  find_first-In k (x ∷ xs) a h = elim (Bool-cases (eq.beq (key x) k)) [
    | inl e ↦
        let same : x ≡ a = ground arith in
        (inl (sym same), ap key (sym same) ∙ (eq.beq_iff (key x) k).0 e)
    | inr e ↦
        let (m, p) =
          find_first-In k xs a (let h' : find_first k xs ≡ some a = ground arith in h') in
        (inr m, p)
  ]

  key-fresh : (k : K) (xs : List A) (a : A) → All (λ y. k ≢ y) (map key xs) → In a xs → k ≢ key a
  key-fresh k [] a fresh m = elim m [ ]
  key-fresh k (x ∷ xs) a fresh (inl e) = λ p. fresh.0 (p ∙ ap key e)
  key-fresh k (x ∷ xs) a fresh (inr m) = key-fresh k xs a fresh.1 m

  In-find_first :
      (xs : List A) (a : A) → Distinct (map key xs) → In a xs → find_first (key a) xs ≡ some a
  unfolding find_first
  In-find_first [] a d m = elim m [ ]
  In-find_first (x ∷ xs) a d (inl e) =
      let hit : eq.beq (key x) (key a) ≡ true = (eq.beq_iff (key x) (key a)).1 (ap key (sym e)) in
      rw hit (ap some (sym e))
  In-find_first (x ∷ xs) a d (inr m) = elim (Bool-cases (eq.beq (key x) (key a))) [
    | inl e ↦ absurd (key-fresh (key x) xs a d.0 m ((eq.beq_iff (key x) (key a)).0 e))
    | inr e ↦ rw e (In-find_first xs a d.1 m)
  ]

  -- Where no key stands twice, the first entry with a key is the one with it.
  pub find_first_iff :
      (xs : List A) (k : K) (a : A)
      → Distinct (map key xs)
      → (find_first k xs ≡ some a) ↔ (In a xs × (key a ≡ k))
  find_first_iff xs k a d = (
    find_first-In k xs a,
    (λ (m, e). ap (λ k'. find_first k' xs) (sym e) ∙ In-find_first xs a d m),
  )
