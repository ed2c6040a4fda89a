-- ===== src/Utf8/Texts.antt =====
-- The bytes of a text: which ASCII characters stand in them, and when there are any.
use limnifs_py.Prelude.{
  true, ℕ, ◌<◌, ◌≡◌, refl, List, [], ◌∷◌, ◌++◌, arith, All, ◌==◌, contains, nat_eq, ◌||◌, is_empty,
}
use limnifs_py.Errors.{ok}
use limnifs_py.Utf8.{all_scalar, is_scalar, encode_text, encode_char, encode}
use limnifs_py.Utf8.Laws.{IsScalar}

contains-append :
    (c : ℕ) (xs ys : List ℕ) → contains c (xs ++ ys) ≡ (contains c xs || contains c ys)
unfolding contains
contains-append c [] ys = refl
contains-append c (x ∷ xs) ys = ground (arith, contains-append c xs ys)

contains-encode_char : (c d : ℕ) → c < 0x80 → contains c (encode_char d) ≡ (d == c)
unfolding contains encode_char
contains-encode_char c d h = ground arith

-- An ASCII character stands in the bytes of a text exactly if it stands in the text.
pub contains-encode :
    (c : ℕ) (text : List ℕ) → c < 0x80 → contains c (encode text) ≡ contains c text
unfolding contains
contains-encode c [] h = refl
contains-encode c (d ∷ text) h = ground (
  arith,
  contains-append c (encode_char d) (encode text),
  contains-encode_char c d h,
  contains-encode c text h,
)

pub is_empty-encode : (text : List ℕ) → is_empty (encode text) ≡ is_empty text
unfolding encode_char
is_empty-encode [] = refl
is_empty-encode (c ∷ text) = ground arith

all_scalar_lem : (text : List ℕ) → All IsScalar text → all_scalar text ≡ true
unfolding all_scalar is_scalar
all_scalar_lem [] h = refl
all_scalar_lem (c ∷ text) h = ground (arith, h.0, all_scalar_lem text h.1)

pub encode_text_ok : (text : List ℕ) → All IsScalar text → encode_text text ≡ ok (encode text)
unfolding encode_text
encode_text_ok text h = rw (all_scalar_lem text h)

IsScalar-all_scalar : (text : List ℕ) → all_scalar text ≡ true → All IsScalar text
unfolding all_scalar is_scalar
IsScalar-all_scalar [] h = tt
IsScalar-all_scalar (c ∷ text) h = (ground arith, IsScalar-all_scalar text (ground arith))

-- A text has an encoding exactly if it has no surrogates.
pub ok-encode_text :
    (text : List ℕ) {bs : List ℕ}
    → encode_text text ≡ ok bs
    → All IsScalar text × (bs ≡ encode text)
unfolding encode_text
ok-encode_text text h = (IsScalar-all_scalar text (ground arith), ground arith)
