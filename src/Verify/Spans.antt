-- ===== src/Verify/Spans.antt =====
-- The rules for a section whose bytes are cut out of the buffer.
use limnifs_py.Prelude.{
  ℕ, ◌-◌, ◌≡◌, sym, ◌∙◌, List, ◌++◌, append_assoc, arith, length, length-append, take-append,
  drop-append,
}
use limnifs_py.Errors.{Result, ok}
use limnifs_py.Cursor.{Cursor, Parser, pure, ◌>>=◌, position, slice, lift}
use limnifs_py.Cursor.Reads.{Reads, cursor_at, remaining-cursor_at}
use limnifs_py.Verify.{spanned, extra_bytes}

pub slice-span :
    (before bs rest : List ℕ)
    → slice (before ++ (bs ++ rest)) (length before) (length (before ++ bs)) ≡ bs
slice-span before bs rest =
    let width : length (before ++ bs) - length before ≡ length bs =
      omega (arith, length-append before bs) in
    rw (drop-append before (bs ++ rest), width, take-append bs rest)

module _ {ℓ κ} {A : Type ℓ} {B : Type κ} where
  -- A section that stands next is read, with its bytes, and the rest runs behind it.
  pub spanned-next :
      (buf before bs rest : List ℕ) (p : Parser A) (f : A × List ℕ → Parser B) {a : A}
      → buf ≡ before ++ (bs ++ rest)
      → Reads p bs a
      → (spanned buf p >>= f) (cursor_at before (bs ++ rest))
        ≡ f (a, bs) (cursor_at (before ++ bs) rest)
  unfolding spanned ◌>>=◌ position pure
  spanned-next buf before bs rest p f e r = rw (e, r.whole before rest, slice-span before bs rest)

  pub lift-next :
      {r : Result A} {a : A} (f : A → Parser B) (c : Cursor) → r ≡ ok a → (lift r >>= f) c ≡ f a c
  unfolding lift ◌>>=◌
  lift-next f c e = rw e

module _ {κ} {B : Type κ} where
  pub extra-next :
      (before rest : List ℕ) (f : ℕ → Parser B)
      → (extra_bytes >>= f) (cursor_at before rest) ≡ f (length rest) (cursor_at before rest)
  unfolding extra_bytes ◌>>=◌
  extra-next before rest f = rw (remaining-cursor_at before rest)

pub behind :
    {buf : List ℕ} (before bs rest : List ℕ)
    → buf ≡ before ++ (bs ++ rest)
    → buf ≡ (before ++ bs) ++ rest
behind before bs rest e = e ∙ sym (append_assoc before bs rest)
