-- ===== src/Locator/Scheme.antt =====
-- The test of the scheme against the grammar of RFC 3986.
use limnifs_py.Prelude.{ℕ, ◌≤◌, ◌<◌, ◌≡◌, ◌↔◌, ◌⊎◌, true, List, [], ◌∷◌, arith, All}
use limnifs_py.Locator.{CharClasses, ascii_letter, scheme_char, all_scheme_chars, is_valid_scheme}

abbrev IsAlpha : ℕ → Type 0
IsAlpha c = ((0x41 ≤ c) × (c ≤ 0x5a)) ⊎ ((0x61 ≤ c) × (c ≤ 0x7a))

abbrev IsDigit : ℕ → Type 0
IsDigit c = (0x30 ≤ c) × (c ≤ 0x39)

abbrev IsMark : ℕ → Type 0
IsMark c = (c ≡ b'+') ⊎ ((c ≡ b'-') ⊎ (c ≡ b'.'))

abbrev IsSchemeChar : ℕ → Type 0
IsSchemeChar c = IsAlpha c ⊎ (IsDigit c ⊎ IsMark c)

-- scheme = ALPHA *( ALPHA / DIGIT / "+" / "-" / "." )
abbrev pub IsScheme : List ℕ → Type 0
IsScheme [] = ⊥
IsScheme (c ∷ cs) = IsAlpha c × All IsSchemeChar cs

abbrev pub IsAscii : ℕ → Type 0
IsAscii c = c < 128

ascii_letter_iff : (c : ℕ) → (ascii_letter c ≡ true) ↔ IsAlpha c
ascii_letter_iff c = ground arith

scheme_char_iff :
    (chars : CharClasses) (c : ℕ) → IsAscii c → (scheme_char chars c ≡ true) ↔ IsSchemeChar c
unfolding scheme_char
scheme_char_iff chars c h = rw (chars.alnum_ascii c h) (ground arith)

all_scheme_chars_iff :
    (chars : CharClasses) (cs : List ℕ)
    → All IsAscii cs
    → (all_scheme_chars chars cs ≡ true) ↔ All IsSchemeChar cs
unfolding all_scheme_chars
all_scheme_chars_iff chars [] h = ground arith
all_scheme_chars_iff chars (c ∷ cs) h =
    ground (arith, scheme_char_iff chars c h.0, all_scheme_chars_iff chars cs h.1)

-- With any character classes that agree with ASCII, a scheme of ASCII characters passes the test
-- exactly if the grammar of RFC 3986 admits it.
pub is_valid_scheme_iff :
    (chars : CharClasses) (scheme : List ℕ)
    → All IsAscii scheme
    → (is_valid_scheme chars scheme ≡ true) ↔ IsScheme scheme
unfolding is_valid_scheme all_scheme_chars
is_valid_scheme_iff chars [] h = ground arith
is_valid_scheme_iff chars (c ∷ cs) h = ground (
  arith,
  chars.alpha_ascii c h.0,
  ascii_letter_iff c,
  scheme_char_iff chars c h.0,
  all_scheme_chars_iff chars cs h.1,
)
