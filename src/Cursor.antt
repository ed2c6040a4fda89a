-- ===== src/Cursor.antt =====
-- limnifs/cursor.py: the bounded cursor over a byte buffer, and the way the parsers are composed.
pub mod Reads
pub mod Consumes
pub mod Decodes
pub mod Loop
pub mod Recognises
use limnifs_py.Prelude.{
  ℕ, ◌+◌, ◌-◌, Bool, List, arith, length, take, drop, get_or, ltb, if◌then◌else◌,
}
use limnifs_py.Errors.{Error, Result, ok, err, truncated}
use limnifs_py.Wire.{unpack_le}

-- `_buf` and `_pos`. Only `__init__` sets `_buf`.
pub record Cursor : Type 0 where
  pub buf : List ℕ
  pub pos : ℕ

-- `Cursor(buf, pos)`. A position is a natural number, so `pos < 0` cannot arise.
unfoldable pub make_cursor : List ℕ → ℕ → Result Cursor
make_cursor buf pos =
    if ltb (length buf) pos
    then err (truncated (length buf) pos)
    else ok (record { buf = buf; pos = pos })

-- Code that takes a cursor and advances it. Nobody reads a cursor after an exception, so an
-- error carries none.
abbrev pub Parser {ℓ} : Type ℓ → Type ℓ
Parser A = Cursor → Result (A × Cursor)

unfoldable pub pure {ℓ} : {A : Type ℓ} → A → Parser A
pure a c = ok (a, c)

abbrev continue {ℓ κ} :
    {A : Type ℓ} {B : Type κ} → (A → Parser B) → Result (A × Cursor) → Result (B × Cursor)
continue f (ok (a, c)) = f a c
continue f (err e) = err e

infixl 5 ◌>>=◌ ◌>>◌
unfoldable pub ◌>>=◌ {ℓ κ} : {A : Type ℓ} {B : Type κ} → Parser A → (A → Parser B) → Parser B
(p >>= f) c = continue f (p c)

abbrev pub ◌>>◌ {ℓ κ} : {A : Type ℓ} {B : Type κ} → Parser A → Parser B → Parser B
p >> q = p >>= λ _. q

-- `if bad: raise e`
unfoldable pub raise_if : Bool → Error → Parser (Unit {0})
raise_if bad e c = if bad then err e else ok (tt, c)

-- `raise e`
unfoldable pub raise {ℓ} : {A : Type ℓ} → Error → Parser A
raise e c = err e

-- A computation that raises and does not touch the cursor.
unfoldable pub lift {ℓ} : {A : Type ℓ} → Result A → Parser A
lift (ok a) c = ok (a, c)
lift (err e) c = err e

abbrev pub remaining_len : Cursor → ℕ
remaining_len c = length c.buf - c.pos

abbrev pub remaining : Cursor → List ℕ
remaining c = drop c.pos c.buf

-- `cursor.position`
unfoldable pub position : Parser ℕ
position c = ok (c.pos, c)

-- `xs[a:b]`
abbrev pub slice {ℓ} : {A : Type ℓ} → List A → ℕ → ℕ → List A
slice xs a b = take (b - a) (drop a xs)

-- `read(n)`. Lengths are natural numbers, so `n < 0` cannot arise.
unfoldable pub read : ℕ → Parser (List ℕ)
read n c =
    let end = c.pos + n in
    if ltb (length c.buf) end
    then err (truncated (remaining_len c) n)
    else ok (slice c.buf c.pos end, record c { pos = end })

unfoldable pub skip : ℕ → Parser (Unit {0})
skip n = do read n; pure tt

unfoldable pub read_u8 : Parser ℕ
read_u8 = do chunk ← read 1; pure (get_or chunk 0 0)

unfoldable pub read_u16_le : Parser ℕ
read_u16_le = do chunk ← read 2; pure (unpack_le chunk)

unfoldable pub read_u32_le : Parser ℕ
read_u32_le = do chunk ← read 4; pure (unpack_le chunk)

unfoldable pub read_u64_le : Parser ℕ
read_u64_le = do chunk ← read 8; pure (unpack_le chunk)

unfoldable pub read_magic : Parser (List ℕ)
read_magic = read 4

-- The sections' guard `if cursor.remaining_len < need: raise TruncatedError(…)`.
unfoldable pub check_remaining : ℕ → Parser (Unit {0})
check_remaining need c =
    if ltb (remaining_len c) need then err (truncated (remaining_len c) need) else ok (tt, c)
