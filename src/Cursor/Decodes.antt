-- ===== src/Cursor/Decodes.antt =====
-- The contract of a section parser.
use limnifs_py.Prelude.{ℕ, ◌≡◌, List}
use limnifs_py.Cursor.{Parser}
use limnifs_py.Cursor.Reads.{Reads}
use limnifs_py.Cursor.Consumes.{Consumes}

-- `p` inverts `encode` on the valid values, and accepts nothing else. It returns a valid value from
-- its bytes, whatever follows them; it raises a TruncatedError on an input that ends inside them;
-- where it returns a value, that is valid and the bytes that were taken are its encoding; and all
-- that it raises on bytes is a ParseError.
pub record Decodes {ℓ κ} {A : Type ℓ} (p : Parser A) (encode : A → List ℕ) (Valid : A → Type κ)
    : Type (ℓ ⊔ κ) where
  pub reads : (a : A) → Valid a → Reads p (encode a) a
  pub consumes : Consumes p (λ bs a. (bs ≡ encode a) × Valid a)
