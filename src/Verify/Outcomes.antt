-- ===== src/Verify/Outcomes.antt =====
-- The rules for sections whose bytes are cut out of the buffer, on any bytes.
use limnifs_py.Prelude.{
  ℕ, ◌≡◌, refl, sym, subst, ◌∙◌, Bool, true, false, Option, none, some, List, [], ◌++◌, append-nil,
  append_assoc, arith, length, All, All-append_right,
}
use limnifs_py.Errors.{Result, ok, err, Error, IsParseError, IsParseError-eq}
use limnifs_py.Wire.{IsByte}
use limnifs_py.Cursor.{Cursor, Parser, ◌>>=◌}
use limnifs_py.Cursor.Reads.{cursor_at}
use limnifs_py.Cursor.Consumes.{
  Outcome, accepted, rejected, Consumes, Outcome-bind, Outcome-position, Outcome-pure,
  Consumes-pure, Consumes-bind,
}
use limnifs_py.Cursor.Decodes.{Decodes}
use limnifs_py.SlabReader.{value}
use limnifs_py.Verify.{spanned, optional, extra_bytes}
use limnifs_py.Verify.Spans.{slice-span, extra-next}
use limnifs_py.Verify.Layout.{option_bytes, IsOption}
use limnifs_py.MetadataReference.{is_some}

-- A section takes some bytes, and they are what is cut out of the buffer.
spanned-Outcome {ℓ κ} :
    {A : Type ℓ} (Q : List ℕ → A → Type κ) (p : Parser A) (buf before rest : List ℕ)
    → buf ≡ before ++ rest
    → All IsByte rest
    → Consumes p Q
    → Outcome (λ bs r. Q bs r.0 × (r.1 ≡ bs)) before rest (spanned buf p (cursor_at before rest))
unfolding spanned
spanned-Outcome Q p buf before rest e h s = Outcome-position _ (
    Outcome-bind p _ (s.run before rest h) λ bs after a e1 q. Outcome-position _ (
      Outcome-pure _ (
        subst (λ t. Q t a) (sym (append-nil bs)) q,
        rw (e, e1, slice-span before bs after, append-nil bs),
      )))

pub Consumes-optional {ℓ} :
    {A : Type ℓ} (p : Parser A) (encode : A → List ℕ) (Valid : A → Type 0) (present : Bool)
    → Decodes p encode Valid
    → Consumes (optional present p) (λ bs _.
      (o : Option A) × (bs ≡ option_bytes encode o) × (present ≡ is_some o) × IsOption Valid o)
unfolding optional
Consumes-optional p encode Valid true d =
    Consumes-bind d.consumes λ bs a q. Consumes-pure tt (some a, append-nil bs ∙ q.0, refl, q.1)
Consumes-optional p encode Valid false d = Consumes-pure tt (none, refl, refl, tt)

module _ {ℓ κ μ ν} {A : Type ℓ} {B : Type κ} {Q : List ℕ → A → Type μ}
    {R : List ℕ → B → Type ν} where
  -- A section and what comes behind it.
  pub spanned-bind :
      (p : Parser A) (f : A × List ℕ → Parser B) (buf before rest : List ℕ)
      → buf ≡ before ++ rest
      → All IsByte rest
      → Consumes p Q
      → ((bs after : List ℕ) (a : A)
          → buf ≡ (before ++ bs) ++ after
          → All IsByte after
          → Q bs a
          → Outcome
              (λ cs b. R (bs ++ cs) b)
              (before ++ bs)
              after
              (f (a, bs) (cursor_at (before ++ bs) after)))
      → Outcome R before rest ((spanned buf p >>= f) (cursor_at before rest))
  spanned-bind p f buf before rest e h s k =
      Outcome-bind _ f (spanned-Outcome Q p buf before rest e h s) λ bs after r e1 q.
        subst
          (λ t.
            Outcome (λ cs b. R (bs ++ cs) b) (before ++ bs) after
              (f (r.0, t) (cursor_at (before ++ bs) after)))
          (sym (q.1))
          (k bs after r.0 (rw (e, e1, append_assoc before bs after))
            (All-append_right IsByte bs after (subst (All IsByte) e1 h)) q.0)

module _ {κ ν} {B : Type κ} {R : List ℕ → B → Type ν} where
  pub extra-bind :
      (f : ℕ → Parser B) (before rest : List ℕ)
      → Outcome R before rest (f (length rest) (cursor_at before rest))
      → Outcome R before rest ((extra_bytes >>= f) (cursor_at before rest))
  extra-bind f before rest o = subst (Outcome R before rest) (sym (extra-next before rest f)) o

module _ {ℓ κ} {A : Type ℓ} {Q : List ℕ → A → Type κ} {rest : List ℕ} where
  pub Outcome-value_ok :
      {r : Result (A × Cursor)} {a : A}
      → Outcome Q [] rest r
      → value r ≡ ok a
      → (bs : List ℕ) × (after : List ℕ) × (rest ≡ bs ++ after) × Q bs a
  Outcome-value_ok {a = a} (accepted {a = b} bs after e q) h =
      (bs, after, e, subst (λ x. Q bs x) (let same : b ≡ a = ground arith in same) q)
  Outcome-value_ok (rejected p) h = cc

  pub Outcome-value_err :
      {r : Result (A × Cursor)} {e : Error} → Outcome Q [] rest r → value r ≡ err e → IsParseError e
  Outcome-value_err (accepted bs after e q) h = cc
  Outcome-value_err (rejected {e = e'} p) h = IsParseError-eq {e' = e'} (ground arith) p
