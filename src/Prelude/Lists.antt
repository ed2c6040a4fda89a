-- ===== src/Prelude/Lists.antt =====
-- Lists measured and cut by native numbers, under the library's names.
use Prim.Native.Nat.{ℕ, zero, suc, ◌+◌, ◌-◌, ◌*◌, ◌≤◌, min}
use mathlib.Core.Path.{◌≡◌, refl, ap}
use mathlib.Core.Bool.{Bool, true, false}
use mathlib.Core.Logic.{◌⊎◌, inl, inr}
use mathlib.Core.List.{List, [], ◌∷◌, ◌++◌, map}
use native.Mathlib.Omega.{arith}

module _ {ℓ} {A : Type ℓ} where
  -- `not xs`
  abbrev pub is_empty : List A → Bool
  is_empty [] = true
  is_empty (x ∷ xs) = false

  abbrev pub length : List A → ℕ
  length [] = 0
  length (x ∷ xs) = suc (length xs)

  abbrev pub take : ℕ → List A → List A
  take zero xs = []
  take (suc n) [] = []
  take (suc n) (x ∷ xs) = x ∷ take n xs

  abbrev pub drop : ℕ → List A → List A
  drop zero xs = xs
  drop (suc n) [] = []
  drop (suc n) (x ∷ xs) = drop n xs

  abbrev pub get_or : List A → ℕ → A → A
  get_or [] i d = d
  get_or (x ∷ xs) zero d = x
  get_or (x ∷ xs) (suc i) d = get_or xs i d

  abbrev pub replicate : ℕ → A → List A
  replicate zero a = []
  replicate (suc n) a = a ∷ replicate n a

  abbrev pub All {κ} : (A → Type κ) → List A → Type κ
  All P [] = Unit {κ}
  All P (x ∷ xs) = P x × All P xs

  pub length-append : (xs ys : List A) → length (xs ++ ys) ≡ length xs + length ys
  length-append [] ys = omega arith
  length-append (x ∷ xs) ys = omega (arith, length-append xs ys)

module _ {ℓ} {A : Type ℓ} where
  pub length-take : (n : ℕ) (xs : List A) → length (take n xs) ≡ min n (length xs)
  length-take zero xs = omega arith
  length-take (suc n) [] = omega arith
  length-take (suc n) (x ∷ xs) = omega (arith, length-take n xs)

  pub length-drop : (n : ℕ) (xs : List A) → length (drop n xs) ≡ length xs - n
  length-drop zero xs = omega arith
  length-drop (suc n) [] = omega arith
  length-drop (suc n) (x ∷ xs) = omega (arith, length-drop n xs)

  pub take-append-drop : (n : ℕ) (xs : List A) → take n xs ++ drop n xs ≡ xs
  take-append-drop zero xs = refl
  take-append-drop (suc n) [] = refl
  take-append-drop (suc n) (x ∷ xs) = ap (λ t. x ∷ t) (take-append-drop n xs)

  pub take-append : (xs ys : List A) → take (length xs) (xs ++ ys) ≡ xs
  take-append [] ys = refl
  take-append (x ∷ xs) ys = ap (λ t. x ∷ t) (take-append xs ys)

  pub drop-append : (xs ys : List A) → drop (length xs) (xs ++ ys) ≡ ys
  drop-append [] ys = refl
  drop-append (x ∷ xs) ys = drop-append xs ys

  pub length-replicate : (n : ℕ) (a : A) → length (replicate n a) ≡ n
  length-replicate zero a = refl
  length-replicate (suc n) a = ap suc (length-replicate n a)

  pub All-append {κ} : (P : A → Type κ) (xs ys : List A) → All P xs → All P ys → All P (xs ++ ys)
  All-append P [] ys p q = q
  All-append P (x ∷ xs) ys p q = (p.0, All-append P xs ys p.1 q)

  pub All-append_left {κ} : (P : A → Type κ) (xs ys : List A) → All P (xs ++ ys) → All P xs
  All-append_left P [] ys p = tt
  All-append_left P (x ∷ xs) ys p = (p.0, All-append_left P xs ys p.1)

  pub All-append_right {κ} : (P : A → Type κ) (xs ys : List A) → All P (xs ++ ys) → All P ys
  All-append_right P [] ys p = p
  All-append_right P (x ∷ xs) ys p = All-append_right P xs ys p.1

  pub All-zip {κ} : (P Q : A → Type κ) (xs : List A) → All P xs → All Q xs → All (λ x. P x × Q x) xs
  All-zip P Q [] p q = tt
  All-zip P Q (x ∷ xs) p q = ((p.0, q.0), All-zip P Q xs p.1 q.1)

  pub All-unzip {κ} :
      (P Q : A → Type κ) (xs : List A) → All (λ x. P x × Q x) xs → All P xs × All Q xs
  All-unzip P Q [] r = (tt, tt)
  All-unzip P Q (x ∷ xs) r = let (p, q) = All-unzip P Q xs r.1 in ((r.0.0, p), (r.0.1, q))

  pub All-tt {κ} : (xs : List A) → All (λ _. Unit {κ}) xs
  All-tt [] = tt
  All-tt (x ∷ xs) = (tt, All-tt xs)

  -- A proper prefix of `xs ++ ys` ends inside `xs` or inside `ys`.
  pub prefix-append :
      (xs ys front back : List A) (x : A)
      → xs ++ ys ≡ front ++ x ∷ back
      → ((mid : List A) × (xs ≡ front ++ x ∷ mid))
        ⊎ ((mid : List A) × (front ≡ xs ++ mid) × (ys ≡ mid ++ x ∷ back))
  prefix-append [] ys front back x e = inr (front, refl, e)
  prefix-append (z ∷ xs) ys [] back x e = inl (xs, ground arith)
  prefix-append (z ∷ xs) ys (w ∷ front) back x e =
      elim (prefix-append xs ys front back x (ground arith)) [
        | inl (mid, p) ↦ inl (mid, ground arith)
        | inr (mid, p, q) ↦ inr (mid, ground arith, q)
      ]

module _ {ℓ κ} {A : Type ℓ} {B : Type κ} where
  abbrev pub flat_map : (A → List B) → List A → List B
  flat_map f [] = []
  flat_map f (x ∷ xs) = f x ++ flat_map f xs

  pub length-flat_map-ge {μ} :
      (f : A → List B) (w : ℕ) (P : A → Type μ)
      → ((a : A) → P a → w ≤ length (f a))
      → (xs : List A) → All P xs
      → length xs * w ≤ length (flat_map f xs)
  length-flat_map-ge f w P h [] p = omega arith
  length-flat_map-ge f w P h (x ∷ xs) p =
      omega (arith, h x p.0, length-flat_map-ge f w P h xs p.1, length-append (f x) (flat_map f xs))

module _ {ℓ κ} {A : Type ℓ} {B : Type κ} (f : A → B) where
  pub length-map : (xs : List A) → length (map f xs) ≡ length xs
  length-map [] = refl
  length-map (x ∷ xs) = ap suc (length-map xs)

  pub flat_map-map {μ} :
      {C : Type μ} (g : B → List C) (xs : List A)
      → flat_map g (map f xs) ≡ flat_map (λ x. g (f x)) xs
  flat_map-map g [] = refl
  flat_map-map g (x ∷ xs) = ap (λ t. g (f x) ++ t) (flat_map-map g xs)

  pub All-of_map {μ ν} :
      (P : B → Type μ) (Q : A → Type ν)
      → ((a : A) → P (f a) → Q a)
      → (xs : List A) → All P (map f xs)
      → All Q xs
  All-of_map P Q h [] p = tt
  All-of_map P Q h (x ∷ xs) p = (h x p.0, All-of_map P Q h xs p.1)
