-- ===== src/MetadataReference.antt =====
-- limnifs/metadata_reference.py: the section that says where the metadata blob is.
pub mod Format
pub mod Tests
use limnifs_py.Prelude.{
  is_empty, ℕ, ◌*◌, Bool, true, false, ◌&&◌, Option, none, some, List, length, ltb, ◌==◌, ◌!=◌,
  if◌then◌else◌,
}
use limnifs_py.Errors.{Result, ok, err, corrupt, unsupported, value_error}
use limnifs_py.Cursor.{Parser, pure, ◌>>=◌, ◌>>◌, raise_if, raise, lift, read, read_u8, read_u32_le}
use limnifs_py.Locator.{LocatorEntry, CharClasses, parse_locator_entries}

abbrev pub metadata_reference_section_version : ℕ
metadata_reference_section_version = 1

abbrev pub default_inline_metadata_max_bytes : ℕ
default_inline_metadata_max_bytes = 1024 * 1024

pub record MetadataReference : Type 0 where
  pub metadata_hash : List ℕ
  pub locators : List LocatorEntry
  pub inline_metadata : Option (List ℕ)

-- The constructor with the test of `__post_init__`
unfoldable pub make_metadata_reference :
    List ℕ → List LocatorEntry → Option (List ℕ) → Result MetadataReference
make_metadata_reference metadata_hash locators inline_metadata =
    if length metadata_hash != 32
    then err value_error
    else ok (record {
      metadata_hash = metadata_hash;
      locators = locators;
      inline_metadata = inline_metadata;
    })

abbrev pub is_some {ℓ} : {A : Type ℓ} → Option A → Bool
is_some none = false
is_some (some a) = true

abbrev pub is_none {ℓ} : {A : Type ℓ} → Option A → Bool
is_none none = true
is_none (some a) = false

abbrev pub is_inlined : MetadataReference → Bool
is_inlined reference = is_some reference.inline_metadata

-- The arguments are `max_inline_metadata_bytes` and `inline_metadata_len`.
unfoldable pub parse_inline : ℕ → ℕ → Parser (Option (List ℕ))
parse_inline max_bytes len =
    if len == 0
    then pure none
    else if ltb max_bytes len
    then raise corrupt
    else do bytes ← read len; pure (some bytes)

module _ (chars : CharClasses) where
  -- The arguments are `max_locator_uri_bytes` and `max_inline_metadata_bytes`.
  unfoldable pub parse_metadata_reference_section : ℕ → ℕ → Parser MetadataReference
  parse_metadata_reference_section max_uri max_inline = do
    version ← read_u8
    raise_if (version != metadata_reference_section_version) unsupported
    metadata_hash ← read 32
    locator_count ← read_u32_le
    locators ← parse_locator_entries chars locator_count max_uri
    inline_metadata_len ← read_u32_le
    inline_metadata ← parse_inline max_inline inline_metadata_len
    raise_if (is_empty locators && is_none inline_metadata) corrupt
    lift (make_metadata_reference metadata_hash locators inline_metadata)
