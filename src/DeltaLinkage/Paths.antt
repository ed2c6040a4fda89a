-- ===== src/DeltaLinkage/Paths.antt =====
-- The paths of the operations of a delta.
use limnifs_py.Prelude.{
  ℕ, ◌≡◌, refl, ap, ◌↔◌, inl, inr, Bool-cases, ◌&&◌, ◌==◌, true, false, List, [], ◌∷◌, ◌++◌, arith,
}
use limnifs_py.DeltaLinkage.{double_slash}

-- Nowhere in the path does a slash follow a slash.
abbrev pub NoEmptyComponent : List ℕ → Type 0
NoEmptyComponent path =
    ¬ ((front : List ℕ) × (back : List ℕ) × (path ≡ front ++ (b'/' ∷ b'/' ∷ back)))

double_slash-found :
    (path : List ℕ)
    → double_slash path ≡ true
    → (front : List ℕ) × (back : List ℕ) × (path ≡ front ++ (b'/' ∷ b'/' ∷ back))
unfolding double_slash
double_slash-found [] h = cc
double_slash-found (c ∷ []) h = ground arith
double_slash-found (c ∷ d ∷ path) h = elim (Bool-cases (c == b'/' && d == b'/')) [
  | inl here ↦ ([], path, ground arith)
  | inr past ↦
      let (front, back, e) = double_slash-found (d ∷ path) (ground arith) in
      (c ∷ front, back, ap (λ t. c ∷ t) e)
]

double_slash-inside : (front back : List ℕ) → double_slash (front ++ (b'/' ∷ b'/' ∷ back)) ≡ true
unfolding double_slash
double_slash-inside [] back = refl
double_slash-inside (c ∷ front) back = ground (arith, double_slash-inside front back)

pub double_slash_iff : (path : List ℕ) → (double_slash path ≡ false) ↔ NoEmptyComponent path
double_slash_iff path = (
  (λ h (front, back, e). cc (h, ap double_slash e, double_slash-inside front back)),
  (λ absent. elim (Bool-cases (double_slash path)) [
    | inl there ↦ absurd (absent (double_slash-found path there))
    | inr absence ↦ absence
  ]),
)
