-- ===== src/Builder/Output.antt =====
-- limnifs/builder.py: code that appends to the bytearray `out`, and its contract.
use limnifs_py.Prelude.{
  ℕ, ◌^◌, ◌<◌, ◌≡◌, ◌↔◌, refl, sym, ap, ◌∙◌, List, [], ◌∷◌, ◌++◌, append-nil, append_assoc, arith,
  flat_map, All,
}
use limnifs_py.Errors.{Result, ok, err, ok-injective, map_ok, ◌>>=◌}
use limnifs_py.Wire.{le_bytes, pack_le, pack_le-ok, append_byte, append_byte-ok}

-- The bytes so far, to the bytes with what the code appends.
abbrev pub Writer : Type 0
Writer = List ℕ → Result (List ℕ)

abbrev continue : Writer → Result (List ℕ) → Result (List ℕ)
continue next (ok out) = next out
continue next (err e) = err e

infixr 5 ◌then◌
unfoldable pub ◌then◌ : Writer → Writer → Writer
(first then next) out = continue next (first out)

-- `out += raw`
unfoldable pub emit : List ℕ → Writer
emit raw out = ok (out ++ raw)

-- `out.append(b)`
unfoldable pub emit_byte : ℕ → Writer
emit_byte b out = append_byte out b

-- `out += r`, where `r` may raise.
unfoldable pub emit_result : Result (List ℕ) → Writer
emit_result r out = map_ok (λ raw. out ++ raw) r

-- `for x in xs: …`
unfoldable pub emit_each {ℓ} : {A : Type ℓ} → (A → Writer) → List A → Writer
emit_each write [] out = ok out
emit_each write (x ∷ xs) out = continue (emit_each write xs) (write x out)

-- Exactly where `P` holds the code raises nothing, and then it has appended `bs`.
pub record Writes (write : Writer) (bs : List ℕ) (P : Type 0) : Type 0 where
  pub fit : (out : List ℕ) → P → write out ≡ ok (out ++ bs)
  pub needs : (out : List ℕ) {out' : List ℕ} → write out ≡ ok out' → P

pub Writes_iff :
    {write : Writer} {bs : List ℕ} {P : Type 0} (out out' : List ℕ)
    → Writes write bs P
    → (write out ≡ ok out') ↔ (P × (out' ≡ out ++ bs))
Writes_iff out out' w = (
  (λ e. (w.needs out e, ok-injective (sym e ∙ w.fit out (w.needs out e)))),
  (λ (p, e). w.fit out p ∙ ap ok (sym e)),
)

pub Writes-cast :
    {write : Writer} {bs cs : List ℕ} {P Q : Type 0}
    → bs ≡ cs
    → P ↔ Q
    → Writes write bs P
    → Writes write cs Q
Writes-cast e (to, from) w = record {
  fit = λ out q. w.fit out (from q) ∙ ap (λ t. ok (out ++ t)) e;
  needs = λ out h. to (w.needs out h);
}

continue-ok :
    (next : Writer) (r : Result (List ℕ)) {out : List ℕ}
    → continue next r ≡ ok out
    → (mid : List ℕ) × (r ≡ ok mid) × (next mid ≡ ok out)
continue-ok next (ok mid) h = (mid, refl, h)
continue-ok next (err e) h = cc

pub Writes-then :
    {f g : Writer} {bs cs : List ℕ} {P Q : Type 0}
    → Writes f bs P
    → Writes g cs Q
    → Writes (f then g) (bs ++ cs) (P × Q)
unfolding ◌then◌
Writes-then {f} {g} {bs} {cs} w v = record {
  fit = λ out (p, q).
      ap (continue g) (w.fit out p) ∙ (v.fit (out ++ bs) q ∙ ap ok (append_assoc out bs cs));
  needs = λ out h.
      let (mid, first, second) = continue-ok g (f out) h in (w.needs out first, v.needs mid second);
}

pub Writes-emit : (raw : List ℕ) → Writes (emit raw) raw Unit
unfolding emit
Writes-emit raw = record { fit = λ out p. refl; needs = λ out h. tt }

pub Writes-emit_byte : (b : ℕ) → Writes (emit_byte b) (b ∷ []) (b < 256)
unfolding emit_byte append_byte
Writes-emit_byte b = record { fit = λ out p. append_byte-ok out b p; needs = λ out h. ground arith }

pub Writes-pack : (w n : ℕ) → Writes (emit_result (pack_le w n)) (le_bytes w n) (n < 256 ^ w)
unfolding emit_result pack_le
Writes-pack w n = record { fit = λ out p. rw (pack_le-ok w n p); needs = λ out h. ground arith }

module _ {ℓ} {A : Type ℓ} (write : A → Writer) (bytes : A → List ℕ) (P : A → Type 0) where
  pub Writes-emit_each :
      ((a : A) → Writes (write a) (bytes a) (P a))
      → (xs : List A) → Writes (emit_each write xs) (flat_map bytes xs) (All P xs)
  unfolding emit_each
  Writes-emit_each w [] = record {
    fit = λ out p. ap ok (sym (append-nil out));
    needs = λ out h. tt;
  }
  Writes-emit_each w (x ∷ xs) =
      let v = Writes-emit_each w xs in
      record {
        fit = λ out (p, q).
            ap (continue (emit_each write xs)) ((w x).fit out p)
            ∙ (v.fit (out ++ bytes x) q ∙ ap ok (append_assoc out (bytes x) (flat_map bytes xs)));
        needs = λ out h.
            let (mid, first, second) = continue-ok (emit_each write xs) (write x out) h in
            ((w x).needs out first, v.needs mid second);
      }

-- What is appended depends on something that may raise, and that is `v` exactly where `Q` holds.
module _ (f : List ℕ → Writer) (v : List ℕ) {bs : List ℕ} {P Q : Type 0} where
  pub Writes-of :
      (r : Result (List ℕ))
      → (Q → r ≡ ok v)
      → ((x : List ℕ) → r ≡ ok x → Q × (x ≡ v))
      → Writes (f v) bs P
      → Writes (λ out. r >>= λ x. f x out) bs (Q × P)
  Writes-of (ok x) to from w = record {
    fit = λ out (q, p). ap (λ t. f t out) ((from x refl).1) ∙ w.fit out p;
    needs =
        λ out h. let (q, same) = from x refl in (q, w.needs out (sym (ap (λ t. f t out) same) ∙ h));
  }
  Writes-of (err e) to from w = record { fit = λ out (q, p). cc (to q); needs = λ out h. cc }

pub Writes-result :
    {P : Type 0} (r : Result (List ℕ)) (v : List ℕ)
    → (P → r ≡ ok v)
    → ((x : List ℕ) → r ≡ ok x → P)
    → Writes (emit_result r) v P
unfolding emit_result
Writes-result (ok x) v to from = record {
  fit = λ out p. ap (λ t. ok (out ++ t)) (ok-injective (to p));
  needs = λ out h. from x refl;
}
Writes-result (err e) v to from = record { fit = λ out p. cc (to p); needs = λ out h. cc }
