-- ===== src/Locator/Tests.antt =====
-- Locators with Python's character classes cut down to ASCII, and one with a letter that is not.
use limnifs_py.Prelude.{ℕ, ◌<◌, ◌≡◌, ◌↔◌, refl, Bool, true, ◌||◌, [], ◌∷◌, arith, ◌==◌}
use limnifs_py.Errors.{ok, err, corrupt}
use limnifs_py.Cursor.Reads.{Reads}
use limnifs_py.Utf8.{encode_char}
use limnifs_py.Locator.{
  LocatorEntry, CharClasses, ascii_letter, ascii_digit, is_valid_scheme, all_scheme_chars,
  scheme_char, split_colon, check_parts, check_uri, parse_locator_entry,
}
use limnifs_py.Locator.Format.{locator_bytes, IsLocator, parse_locator_entry-Decodes}
use limnifs_py.Locator.Scheme.{IsScheme, is_valid_scheme_iff}

abbrev pub ascii_chars : CharClasses
ascii_chars = record {
  is_alpha = ascii_letter;
  is_alnum = λ c. ascii_letter c || ascii_digit c;
  alpha_ascii = λ c h. refl;
  alnum_ascii = λ c h. refl;
}

-- "s3:x"
abbrev pub s3_locator : LocatorEntry
s3_locator = record { uri = b's' ∷ b'3' ∷ b':' ∷ b'x' ∷ [] }

pub s3_locator_valid : IsLocator ascii_chars 4096 s3_locator
unfolding encode_char is_valid_scheme all_scheme_chars scheme_char
s3_locator_valid = record {
  text = ground arith;
  enough = omega arith;
  below_ceiling = omega arith;
  fits = omega arith;
  uri = (b's' ∷ b'3' ∷ [], b'x' ∷ [], refl, ground arith, refl, refl);
}

parse_locator_entry-Decodes_example :
    Reads (parse_locator_entry ascii_chars 4096) (locator_bytes s3_locator) s3_locator
parse_locator_entry-Decodes_example =
    (parse_locator_entry-Decodes ascii_chars 4096).reads s3_locator s3_locator_valid

is_valid_scheme_iff_example :
    (is_valid_scheme ascii_chars (b's' ∷ b'3' ∷ []) ≡ true) ↔ IsScheme (b's' ∷ b'3' ∷ [])
is_valid_scheme_iff_example = is_valid_scheme_iff ascii_chars (b's' ∷ b'3' ∷ []) (omega arith)

-- Python's `isalpha` and `isalnum` hold of "é", U+00E9.
or_e_acute : (c : ℕ) (b : Bool) → c < 128 → ((c == 0xe9) || b) ≡ b
or_e_acute c b h = ground arith

unfoldable latin_chars : CharClasses
latin_chars = record {
  is_alpha = λ c. (c == 0xe9) || ascii_letter c;
  is_alnum = λ c. (c == 0xe9) || (ascii_letter c || ascii_digit c);
  alpha_ascii = λ c. or_e_acute c (ascii_letter c);
  alnum_ascii = λ c. or_e_acute c (ascii_letter c || ascii_digit c);
}

-- "é:x" has a scheme that RFC 3986 does not admit.
check_non_ascii :
    check_uri latin_chars (0xe9 ∷ b':' ∷ b'x' ∷ []) ≡ ok (record { uri = 0xe9 ∷ b':' ∷ b'x' ∷ [] })
unfolding check_uri check_parts split_colon is_valid_scheme all_scheme_chars scheme_char latin_chars
check_non_ascii = refl

check_no_colon : check_uri ascii_chars (b's' ∷ b'3' ∷ []) ≡ err corrupt
unfolding check_uri check_parts split_colon is_valid_scheme all_scheme_chars scheme_char
check_no_colon = refl
