-- ===== src/Locator.antt =====
-- limnifs/locator.py: the entries that say where the bytes of a slab or a blob can be fetched.
pub mod Format
pub mod Scheme
pub mod Tests
use limnifs_py.Prelude.{
  is_empty, ℕ, ◌+◌, ◌*◌, ◌<◌, ◌≡◌, Bool, true, false, ◌&&◌, ◌||◌, not, Option, none, some, List, [],
  ◌∷◌, length, drop, ltb, leb, ◌==◌, if◌then◌else◌,
}
use limnifs_py.Errors.{Error, Result, ok, err, corrupt, unsupported}
use limnifs_py.Cursor.{
  Cursor, Parser, pure, ◌>>=◌, ◌>>◌, raise_if, lift, read, read_u32_le, check_remaining,
}
use limnifs_py.Cursor.Loop.{for_each}
use limnifs_py.Utf8.{decode_text}

abbrev pub locator_length_prefix_len : ℕ
locator_length_prefix_len = 4

abbrev pub default_locator_max_uri_bytes : ℕ
default_locator_max_uri_bytes = 4 * 1024

abbrev pub min_locator_uri_bytes : ℕ
min_locator_uri_bytes = 4

-- A text is the list of its code points.
pub record LocatorEntry : Type 0 where
  pub uri : List ℕ

abbrev pub ascii_letter : ℕ → Bool
ascii_letter c = (leb 0x41 c && leb c 0x5a) || (leb 0x61 c && leb c 0x7a)

abbrev pub ascii_digit : ℕ → Bool
ascii_digit c = leb 0x30 c && leb c 0x39

-- `str.isalpha` and `str.isalnum` on one character. Python's character data are not part of the
-- program; it documents that on ASCII these are the letters, and the letters and digits.
pub record CharClasses : Type 0 where
  pub is_alpha : ℕ → Bool
  pub is_alnum : ℕ → Bool
  pub alpha_ascii : (c : ℕ) → c < 128 → is_alpha c ≡ ascii_letter c
  pub alnum_ascii : (c : ℕ) → c < 128 → is_alnum c ≡ (ascii_letter c || ascii_digit c)

-- The properties of an entry; `urlparse(uri).scheme` is a library's.
module _ (url_scheme : List ℕ → List ℕ) where
  unfoldable pub scheme : LocatorEntry → Option (List ℕ)
  scheme entry = if is_empty (url_scheme entry.uri) then none else some (url_scheme entry.uri)

  unfoldable pub scheme_specific_part : LocatorEntry → Option (List ℕ)
  scheme_specific_part entry =
      if is_empty (url_scheme entry.uri)
      then none
      else some (drop (length (url_scheme entry.uri) + 1) entry.uri)

abbrev pub before_colon : ℕ → Option (List ℕ × List ℕ) → Option (List ℕ × List ℕ)
before_colon c none = none
before_colon c (some (front, back)) = some (c ∷ front, back)

-- `uri.split(":", 1)`, and `none` where `":" not in uri`
unfoldable pub split_colon : List ℕ → Option (List ℕ × List ℕ)
split_colon [] = none
split_colon (c ∷ cs) = if c == b':' then some ([], cs) else before_colon c (split_colon cs)

-- A corrupt or unsupported entry is reported as corrupt, with its index in the message.
abbrev pub annotated {ℓ} : {A : Type ℓ} → Result A → Result A
annotated (ok a) = ok a
annotated (err unsupported) = err corrupt
annotated (err e) = err e

unfoldable pub annotate {ℓ} : {A : Type ℓ} → Parser A → Parser A
annotate p c = annotated (p c)

module _ (chars : CharClasses) where
  unfoldable pub scheme_char : ℕ → Bool
  scheme_char c = chars.is_alnum c || (c == b'+' || (c == b'-' || c == b'.'))

  unfoldable pub all_scheme_chars : List ℕ → Bool
  all_scheme_chars [] = true
  all_scheme_chars (c ∷ cs) = scheme_char c && all_scheme_chars cs

  unfoldable pub is_valid_scheme : List ℕ → Bool
  is_valid_scheme [] = false
  is_valid_scheme (c ∷ cs) = if not (chars.is_alpha c) then false else all_scheme_chars (c ∷ cs)

  unfoldable pub check_parts : List ℕ → List ℕ → List ℕ → Result LocatorEntry
  check_parts uri front back =
      if is_empty front
      then err corrupt
      else if not (is_valid_scheme front)
      then err corrupt
      else if is_empty back
      then err corrupt
      else ok (record { uri = uri })

  abbrev pub check_split : List ℕ → Option (List ℕ × List ℕ) → Result LocatorEntry
  check_split uri none = err corrupt
  check_split uri (some (front, back)) = check_parts uri front back

  unfoldable pub check_uri : List ℕ → Result LocatorEntry
  check_uri uri = check_split uri (split_colon uri)

  unfoldable pub parse_locator_entry : ℕ → Parser LocatorEntry
  parse_locator_entry max_uri_bytes = do
    raw_length ← read_u32_le
    raise_if (ltb raw_length min_locator_uri_bytes) corrupt
    raise_if (ltb max_uri_bytes raw_length) corrupt
    uri_bytes ← read raw_length
    uri ← lift (decode_text uri_bytes)
    lift (check_uri uri)

  unfoldable pub parse_locator_entries : ℕ → ℕ → Parser (List LocatorEntry)
  parse_locator_entries count max_uri_bytes = do
    check_remaining (count * (locator_length_prefix_len + min_locator_uri_bytes))
    for_each (annotate (parse_locator_entry max_uri_bytes)) count
