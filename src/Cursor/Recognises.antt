-- ===== src/Cursor/Recognises.antt =====
-- The contract of a parser whose values may have several encodings.
use limnifs_py.Prelude.{ℕ, zero, suc, ◌≡◌, refl, sym, ap, List, [], ◌∷◌, ◌++◌, append-nil, length}
use limnifs_py.Cursor.{Parser}
use limnifs_py.Cursor.Reads.{Reads, Reads-pure, Reads-bind, Reads-cast}
use limnifs_py.Cursor.Consumes.{Consumes, Consumes-pure, Consumes-bind}
use limnifs_py.Cursor.Decodes.{Decodes}
use limnifs_py.Cursor.Loop.{for_range, for_each}

-- `R bs a` says that `bs` is an encoding of `a`. The parser returns `a` from every encoding of it,
-- whatever follows; it raises a TruncatedError on an input that ends inside; where it returns a
-- value, the bytes that were taken are an encoding of that; and all that it raises on bytes is a
-- ParseError.
pub record Recognises {ℓ κ} {A : Type ℓ} (p : Parser A) (R : List ℕ → A → Type κ)
    : Type (ℓ ⊔ κ) where
  pub reads : (bs : List ℕ) (a : A) → R bs a → Reads p bs a
  pub consumes : Consumes p R

pub Decodes-Recognises {ℓ κ} :
    {A : Type ℓ} {p : Parser A} {encode : A → List ℕ} {Valid : A → Type κ}
    → Decodes p encode Valid
    → Recognises p (λ bs a. (bs ≡ encode a) × Valid a)
Decodes-Recognises d = record {
  reads = λ bs a (e, v). Reads-cast e (d.reads a v);
  consumes = d.consumes;
}

-- A run of encodings.
abbrev pub Each {ℓ κ} : {A : Type ℓ} → (List ℕ → A → Type κ) → List ℕ → List A → Type κ
Each R bs [] = Unit {κ} × (bs ≡ [])
Each R bs (a ∷ entries) =
    (front : List ℕ) × (back : List ℕ) × (bs ≡ front ++ back) × R front a × Each R back entries

module _ {ℓ κ} {A : Type ℓ} (p : Parser A) (R : List ℕ → A → Type κ) (r : Recognises p R) where
  pub Reads-for_each_of :
      (entries : List A) (bs : List ℕ)
      → Each R bs entries
      → Reads (for_each p (length entries)) bs entries
  unfolding for_each for_range
  Reads-for_each_of [] bs each = Reads-cast (each.1) (Reads-pure [])
  Reads-for_each_of (a ∷ entries) bs (front, back, e, one, rest) = Reads-cast e (
      Reads-bind _ (r.reads front a one) (
        Reads-cast (sym (append-nil back))
          (Reads-bind _ (Reads-for_each_of entries back rest) (Reads-pure (a ∷ entries)))))

  pub Consumes-for_each_of :
      (count : ℕ)
      → Consumes (for_each p count) (λ bs entries. Each R bs entries × (length entries ≡ count))
  unfolding for_each for_range
  Consumes-for_each_of zero = Consumes-pure [] ((tt, refl), refl)
  Consumes-for_each_of (suc count) = Consumes-bind r.consumes λ bs a q.
      Consumes-bind (Consumes-for_each_of count) λ cs entries rest.
        Consumes-pure (a ∷ entries)
          ((bs, cs, ap (λ t. bs ++ t) (append-nil cs), q, rest.0), ap suc rest.1)
