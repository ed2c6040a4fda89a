-- ===== src/Cursor/Consumes/Rules.antt =====
-- The rules by which composed parsers are followed on any bytes.
use limnifs_py.Prelude.{
  ℕ, ◌≡◌, refl, sym, subst, inl, inr, Bool, true, false, List, [], ◌++◌, append-nil, append_assoc,
  arith, length, All, All-append_right, ltb, Bool-cases, if◌then◌else◌,
}
use limnifs_py.Errors.{Error, Result, ok, err, ok-injective, IsParseError}
use limnifs_py.Wire.{IsByte}
use limnifs_py.Cursor.{
  Cursor, Parser, continue, pure, ◌>>=◌, ◌>>◌, raise_if, raise, lift, remaining_len,
  check_remaining, position,
}
use limnifs_py.Cursor.Reads.{cursor_at}

pub data Outcome {ℓ κ} {A : Type ℓ} (Q : List ℕ → A → Type κ) (before rest : List ℕ)
    : Result (A × Cursor) → Type (ℓ ⊔ κ) where
  accepted :
      {a : A} (bs after : List ℕ)
      → rest ≡ bs ++ after
      → Q bs a
      → Outcome Q before rest (ok (a, cursor_at (before ++ bs) after))
  rejected : {e : Error} → IsParseError e → Outcome Q before rest (err e)

-- From every position in a byte string, `p` takes bytes that stand in the relation `Q` to its
-- result, or it raises a ParseError.
pub record Consumes {ℓ κ} {A : Type ℓ} (p : Parser A) (Q : List ℕ → A → Type κ) : Type (ℓ ⊔ κ) where
  pub run :
      (before rest : List ℕ) → All IsByte rest → Outcome Q before rest (p (cursor_at before rest))

module _ {ℓ κ} {A : Type ℓ} {Q : List ℕ → A → Type κ} where
  Outcome-ok :
      {before rest : List ℕ} {r : Result (A × Cursor)} {a : A} {c : Cursor}
      → Outcome Q before rest r
      → r ≡ ok (a, c)
      → (bs : List ℕ) × (after : List ℕ) × (rest ≡ bs ++ after)
        × (c ≡ cursor_at (before ++ bs) after)
        × Q bs a
  Outcome-ok {before} {rest} {r} {a} {c} (accepted {a = a'} bs after e q) h =
      (bs, after, e, ground arith, subst (λ x. Q bs x) (let same : a' ≡ a = ground arith in same) q)
  Outcome-ok (rejected p) h = cc

  Outcome-err :
      {before rest : List ℕ} {r : Result (A × Cursor)} {e : Error}
      → Outcome Q before rest r
      → r ≡ err e
      → IsParseError e
  Outcome-err (accepted bs after e q) h = cc
  Outcome-err (rejected {e = e'} p) h =
      subst IsParseError (let same : e' ≡ _ = ground arith in same) p

  pub Consumes-ok :
      {p : Parser A} (before rest : List ℕ) {a : A} {c : Cursor}
      → Consumes p Q
      → All IsByte rest
      → p (cursor_at before rest) ≡ ok (a, c)
      → (bs : List ℕ) × (after : List ℕ) × (rest ≡ bs ++ after)
        × (c ≡ cursor_at (before ++ bs) after)
        × Q bs a
  Consumes-ok before rest s h e = Outcome-ok (s.run before rest h) e

  pub Consumes-err :
      {p : Parser A} (before rest : List ℕ) {e : Error}
      → Consumes p Q
      → All IsByte rest
      → p (cursor_at before rest) ≡ err e
      → IsParseError e
  Consumes-err before rest s h e = Outcome-err (s.run before rest h) e

  pub Outcome-pure :
      {before rest : List ℕ} (a : A)
      → Q [] a
      → Outcome Q before rest (pure a (cursor_at before rest))
  unfolding pure
  Outcome-pure {before} {rest} a q =
      subst (λ t. Outcome Q before rest (ok (a, cursor_at t rest))) (append-nil before)
        (accepted [] rest refl q)

  pub Consumes-pure : (a : A) → Q [] a → Consumes (pure a) Q
  Consumes-pure a q = record { run = λ before rest h. Outcome-pure a q }

  pub Consumes-raise : (e : Error) → IsParseError e → Consumes (raise e) Q
  unfolding raise
  Consumes-raise e p = record { run = λ before rest h. rejected p }

module _ {ℓ κ μ} {A : Type ℓ} {Q : List ℕ → A → Type κ} {R : List ℕ → A → Type μ} where
  Outcome-weaken :
      {before rest : List ℕ} {r : Result (A × Cursor)}
      → Outcome Q before rest r
      → ((bs : List ℕ) (a : A) → Q bs a → R bs a)
      → Outcome R before rest r
  Outcome-weaken (accepted {a} bs after e q) k = accepted bs after e (k bs a q)
  Outcome-weaken (rejected p) k = rejected p

  pub Consumes-weaken :
      {p : Parser A} → Consumes p Q → ((bs : List ℕ) (a : A) → Q bs a → R bs a) → Consumes p R
  Consumes-weaken s k = record { run = λ before rest h. Outcome-weaken (s.run before rest h) k }

-- An outcome behind `bs` is one from before `bs`.
Outcome-shift {ℓ κ} :
    {A : Type ℓ} (Q : List ℕ → A → Type κ) (before bs : List ℕ) {rest after : List ℕ}
    {r : Result (A × Cursor)}
    → rest ≡ bs ++ after
    → Outcome (λ cs a. Q (bs ++ cs) a) (before ++ bs) after r
    → Outcome Q before rest r
Outcome-shift Q before bs {rest} e (accepted {a} cs after' e' q) =
    subst (λ t. Outcome Q before rest (ok (a, cursor_at t after')))
      (sym (append_assoc before bs cs)) (accepted (bs ++ cs) after' (rw (e, e', append_assoc)) q)
Outcome-shift Q before bs e (rejected p) = rejected p

module _ {ℓ κ μ ν} {A : Type ℓ} {B : Type κ} {Q : List ℕ → A → Type μ}
    {R : List ℕ → B → Type ν} where
  -- The rule for a bind at one position.
  pub Outcome-bind :
      (p : Parser A) (f : A → Parser B) {before rest : List ℕ}
      → Outcome Q before rest (p (cursor_at before rest))
      → ((bs after : List ℕ) (a : A)
          → rest ≡ bs ++ after
          → Q bs a
          → Outcome
              (λ cs b. R (bs ++ cs) b)
              (before ++ bs)
              after
              (f a (cursor_at (before ++ bs) after)))
      → Outcome R before rest ((p >>= f) (cursor_at before rest))
  unfolding ◌>>=◌
  Outcome-bind p f {before} {rest} o k = go (p (cursor_at before rest)) o k
    where
      go :
          (r : Result (A × Cursor))
          → Outcome Q before rest r
          → ((bs after : List ℕ) (a : A)
              → rest ≡ bs ++ after
              → Q bs a
              → Outcome
                  (λ cs b. R (bs ++ cs) b)
                  (before ++ bs)
                  after
                  (f a (cursor_at (before ++ bs) after)))
          → Outcome R before rest (continue f r)
      go r (accepted {a} bs after e q) k = Outcome-shift R before bs e (k bs after a e q)
      go r (rejected e) k = rejected e

  pub Consumes-bind :
      {p : Parser A} {f : A → Parser B}
      → Consumes p Q
      → ((bs : List ℕ) (a : A) → Q bs a → Consumes (f a) (λ cs b. R (bs ++ cs) b))
      → Consumes (p >>= f) R
  Consumes-bind {f} s k = record {
    run = λ before rest h. Outcome-bind _ f (s.run before rest h) λ bs after a e q.
        (k bs a q).run (before ++ bs) after
          (All-append_right IsByte bs after (subst (All IsByte) e h));
  }

-- The rules for a guard, a test and the cursor's position, at one position.
module _ {ℓ κ} {A : Type ℓ} {Q : List ℕ → A → Type κ} {before rest : List ℕ} where
  pub Outcome-position :
      (f : ℕ → Parser A)
      → Outcome Q before rest (f (length before) (cursor_at before rest))
      → Outcome Q before rest ((position >>= f) (cursor_at before rest))
  unfolding ◌>>=◌ position
  Outcome-position f o = o

  pub Outcome-raise_if :
      (bad : Bool) (e : Error) (p : Parser A)
      → IsParseError e
      → (bad ≡ false → Outcome Q before rest (p (cursor_at before rest)))
      → Outcome Q before rest ((raise_if bad e >> p) (cursor_at before rest))
  unfolding ◌>>=◌ raise_if
  Outcome-raise_if true e p pe k = rejected pe
  Outcome-raise_if false e p pe k = k refl

  pub Outcome-if :
      (b : Bool) (p q : Parser A)
      → (b ≡ true → Outcome Q before rest (p (cursor_at before rest)))
      → (b ≡ false → Outcome Q before rest (q (cursor_at before rest)))
      → Outcome Q before rest ((if b then p else q) (cursor_at before rest))
  Outcome-if true p q k l = k refl
  Outcome-if false p q k l = l refl

module _ {ℓ κ} {A : Type ℓ} {Q : List ℕ → A → Type κ} where
  -- What stands behind a guard may use that it passed.
  pub Consumes-raise_if :
      (bad : Bool) (e : Error) {p : Parser A}
      → IsParseError e
      → (bad ≡ false → Consumes p Q)
      → Consumes (raise_if bad e >> p) Q
  unfolding ◌>>=◌ raise_if
  Consumes-raise_if true e pe k = record { run = λ before rest h. rejected pe }
  Consumes-raise_if false e pe k = record { run = (k refl).run }

  pub Consumes-if :
      (b : Bool) {p q : Parser A}
      → (b ≡ true → Consumes p Q)
      → (b ≡ false → Consumes q Q)
      → Consumes (if b then p else q) Q
  Consumes-if true k l = k refl
  Consumes-if false k l = l refl

  pub Consumes-check_remaining :
      (need : ℕ) {p : Parser A} → Consumes p Q → Consumes (check_remaining need >> p) Q
  unfolding ◌>>=◌ check_remaining
  Consumes-check_remaining need s = record {
    run = λ before rest h. elim (Bool-cases (ltb (remaining_len (cursor_at before rest)) need)) [
      | inl short ↦ rw short (rejected tt)
      | inr enough ↦ rw enough (s.run before rest h)
    ];
  }

  pub Consumes-lift_last :
      (r : Result A)
      → ((e : Error) → r ≡ err e → IsParseError e)
      → ((a : A) → r ≡ ok a → Q [] a)
      → Consumes (lift r) Q
  unfolding lift pure
  Consumes-lift_last (ok a) pe k = record { run = λ before rest h. Outcome-pure a (k a refl) }
  Consumes-lift_last (err e) pe k = record { run = λ before rest h. rejected (pe e refl) }

  pub Consumes-lift_done : {r : Result A} {a : A} → r ≡ ok a → Q [] a → Consumes (lift r) Q
  Consumes-lift_done {r} {a} e q =
      subst (λ t. Consumes (lift t) Q) (sym e)
        (Consumes-lift_last (ok a) (λ x h. cc) (λ x h. subst (λ y. Q [] y) (ok-injective h) q))

module _ {ℓ κ μ} {A : Type ℓ} {B : Type κ} {Q : List ℕ → B → Type μ} where
  -- A computation that may raise, before the rest.
  pub Consumes-lift :
      (r : Result A) {f : A → Parser B}
      → ((e : Error) → r ≡ err e → IsParseError e)
      → ((a : A) → r ≡ ok a → Consumes (f a) Q)
      → Consumes (lift r >>= f) Q
  unfolding ◌>>=◌ lift
  Consumes-lift (ok a) pe k = record { run = (k a refl).run }
  Consumes-lift (err e) pe k = record { run = λ before rest h. rejected (pe e refl) }

  pub Consumes-lift_ok :
      {r : Result A} {a : A} (f : A → Parser B)
      → r ≡ ok a
      → Consumes (f a) Q
      → Consumes (lift r >>= f) Q
  Consumes-lift_ok {r} {a} f e s =
      subst (λ t. Consumes (lift t >>= f) Q) (sym e)
        (Consumes-lift (ok a) (λ x h. cc) (λ x h. subst (λ y. Consumes (f y) Q) (ok-injective h) s))
