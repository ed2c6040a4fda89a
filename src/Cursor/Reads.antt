-- ===== src/Cursor/Reads.antt =====
-- What a parser does on the bytes that it is meant for, and on every proper prefix of them.
use limnifs_py.Prelude.{
  ℕ, ◌+◌, ◌-◌, ◌^◌, ◌≤◌, ◌<◌, ◌≡◌, refl, sym, ap, subst, inl, inr, Bool, true, false, List, [], ◌∷◌,
  ◌++◌, append-nil, append_assoc, arith, length, length-append, take-append, drop-append,
  prefix-append, ltb, Bool-cases,
}
use limnifs_py.Errors.{Error, Result, ok, err, truncated}
use limnifs_py.Wire.{le_bytes, length-le_bytes, unpack_le, unpack_le-le_bytes}
use limnifs_py.Cursor.{
  Cursor, Parser, pure, ◌>>=◌, ◌>>◌, raise_if, lift, remaining_len, slice, read, read_u8,
  read_u16_le, read_u32_le, read_u64_le, read_magic, check_remaining, make_cursor,
}

-- The cursor that has `before` behind it and `rest` ahead.
abbrev pub cursor_at : List ℕ → List ℕ → Cursor
cursor_at before rest = record { buf = before ++ rest; pos = length before }

pub make_cursor_start : (buf : List ℕ) → make_cursor buf 0 ≡ ok (cursor_at [] buf)
unfolding make_cursor
make_cursor_start buf = ground arith

-- `r` is a TruncatedError.
abbrev pub IsTruncated {ℓ} : {A : Type ℓ} → Result A → Type ℓ
IsTruncated {A} r = (have : ℕ) × (need : ℕ) × (r ≡ err (truncated have need))

-- On `bs`, whatever follows, `p` returns `a` and stands right behind `bs`; on an input that ends
-- inside `bs` it raises a TruncatedError.
pub record Reads {ℓ} {A : Type ℓ} (p : Parser A) (bs : List ℕ) (a : A) : Type ℓ where
  pub whole :
      (before rest : List ℕ)
      → p (cursor_at before (bs ++ rest)) ≡ ok (a, cursor_at (before ++ bs) rest)
  pub cut :
      (before front back : List ℕ) (x : ℕ)
      → bs ≡ front ++ x ∷ back
      → IsTruncated (p (cursor_at before front))

no_prefix : (front back : List ℕ) (x : ℕ) → [] ≡ front ++ x ∷ back → ⊥
no_prefix [] back x e = cc
no_prefix (y ∷ front) back x e = cc

module _ {ℓ} {A : Type ℓ} where
  pub Reads-pure : (a : A) → Reads (pure a) [] a
  unfolding pure
  Reads-pure a = record {
    whole = λ before rest. rw append-nil;
    cut = λ before front back x e. absurd (no_prefix front back x e);
  }

  pub Reads-lift : {r : Result A} {a : A} → r ≡ ok a → Reads (lift r) [] a
  unfolding lift
  Reads-lift e = record {
    whole = λ before rest. rw (append-nil, e);
    cut = λ before front back x p. absurd (no_prefix front back x p);
  }

  pub Reads-cast : {p : Parser A} {bs cs : List ℕ} {a : A} → cs ≡ bs → Reads p bs a → Reads p cs a
  Reads-cast {p} {a} e r = subst (λ ds. Reads p ds a) (sym e) r

module _ {ℓ κ} {A : Type ℓ} {B : Type κ} where
  pub Reads-bind :
      {p : Parser A} (f : A → Parser B) {bs cs : List ℕ} {a : A} {b : B}
      → Reads p bs a
      → Reads (f a) cs b
      → Reads (p >>= f) (bs ++ cs) b
  unfolding ◌>>=◌
  Reads-bind {p} f {bs} {cs} {a} r s = record {
    whole = λ before rest.
        rw (append_assoc bs cs rest, r.whole before (cs ++ rest), ← append_assoc before bs cs)
          (s.whole (before ++ bs) rest);
    cut = λ before front back x e. elim (prefix-append bs cs front back x e) [
      | inl (mid, q) ↦ let (have, need, t) = r.cut before front mid x q in (have, need, rw t)
      | inr (mid, q, q') ↦
          let (have, need, t) = s.cut (before ++ bs) mid back x q' in
          (have, need, rw (q, r.whole before mid) t)
    ];
  }

-- A guard that passes takes no byte.
pub Reads-raise_if : {bad : Bool} (e : Error) → bad ≡ false → Reads (raise_if bad e) [] tt
unfolding raise_if
Reads-raise_if e h = record {
  whole = λ before rest. rw (append-nil, h);
  cut = λ before front back x p. absurd (no_prefix front back x p);
}

slice-append :
    (before bs rest : List ℕ)
    → slice (before ++ (bs ++ rest)) (length before) (length before + length bs) ≡ bs
slice-append before bs rest = rw (drop-append before (bs ++ rest)) (
    let e : length before + length bs - length before ≡ length bs = omega arith in
    rw (e, take-append bs rest))

pub remaining-cursor_at :
    (before rest : List ℕ) → remaining_len (cursor_at before rest) ≡ length rest
remaining-cursor_at before rest = omega (arith, length-append {0} before rest)

-- `read` takes as many bytes as it is asked for.
pub Reads-read : (n : ℕ) (bs : List ℕ) → length bs ≡ n → Reads (read n) bs bs
unfolding read
Reads-read n bs h = record {
  whole = λ before rest. rw (← h) (
      let fits : ltb (length (before ++ (bs ++ rest))) (length before + length bs) ≡ false =
        ground (arith, length-append before (bs ++ rest), length-append bs rest) in
      rw (fits, slice-append before bs rest, append_assoc, length-append before bs));
  cut = λ before front back x e.
      let short : ltb (length (before ++ front)) (length before + n) ≡ true =
        ground (arith, length-append before front, length-append front (x ∷ back), ap length e) in
      (remaining_len (cursor_at before front), n, rw short);
}

module _ {ℓ} {A : Type ℓ} where
  -- A guard on what is left passes where the bytes that follow it are enough.
  pub Reads-check_remaining :
      (need : ℕ) (p : Parser A) {bs : List ℕ} {a : A}
      → need ≤ length bs
      → Reads p bs a
      → Reads (check_remaining need >> p) bs a
  unfolding ◌>>=◌ check_remaining
  Reads-check_remaining need p {bs} h r = record {
    whole = λ before rest.
        let fits : ltb (remaining_len (cursor_at before (bs ++ rest))) need ≡ false =
          ground (arith, remaining-cursor_at before (bs ++ rest), length-append bs rest) in
        rw fits (r.whole before rest);
    cut = λ before front back x e.
        let left = remaining_len (cursor_at before front) in
        elim (Bool-cases (ltb left need)) [
          | inl short ↦ (left, need, rw short)
          | inr enough ↦ rw enough (r.cut before front back x e)
        ];
  }

pub Reads-read_u8 : (n : ℕ) → n < 256 → Reads read_u8 (n ∷ []) n
unfolding read_u8
Reads-read_u8 n h = Reads-bind _ (Reads-read 1 (n ∷ []) refl) (Reads-pure n)

Reads-unpack :
    (w n : ℕ) → n < 256 ^ w → Reads (read w >>= λ chunk. pure (unpack_le chunk)) (le_bytes w n) n
Reads-unpack w n h = Reads-cast (sym (append-nil (le_bytes w n))) (
    Reads-bind (λ chunk. pure (unpack_le chunk)) (Reads-read w (le_bytes w n) (length-le_bytes w n))
      (rw (unpack_le-le_bytes w n h) (Reads-pure n)))

pub Reads-read_u16_le : (n : ℕ) → n < 2 ^ 16 → Reads read_u16_le (le_bytes 2 n) n
unfolding read_u16_le
Reads-read_u16_le n h = Reads-unpack 2 n h

pub Reads-read_u32_le : (n : ℕ) → n < 2 ^ 32 → Reads read_u32_le (le_bytes 4 n) n
unfolding read_u32_le
Reads-read_u32_le n h = Reads-unpack 4 n h

pub Reads-read_u64_le : (n : ℕ) → n < 2 ^ 64 → Reads read_u64_le (le_bytes 8 n) n
unfolding read_u64_le
Reads-read_u64_le n h = Reads-unpack 8 n h

pub Reads-read_magic : (bs : List ℕ) → length bs ≡ 4 → Reads read_magic bs bs
unfolding read_magic
Reads-read_magic bs h = Reads-read 4 bs h
