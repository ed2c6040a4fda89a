-- ===== src/FeatureFlags.antt =====
-- limnifs/feature_flags.py: the feature flags section.
pub mod Format
pub mod Lookup
pub mod Tests
use limnifs_py.Prelude.{
  ℕ, ◌*◌, Bool, true, false, Option, none, some, List, [], ◌∷◌, length, ◌==◌, ◌!=◌, if◌then◌else◌,
  contains, nat_eq, find_first,
}
use limnifs_py.Errors.{Result, ok, err, corrupt, unsupported}
use limnifs_py.Cursor.{
  Parser, pure, ◌>>=◌, ◌>>◌, raise_if, lift, read_u8, read_u16_le, read_u32_le, check_remaining,
}
use limnifs_py.Cursor.Loop.{for_range}

abbrev pub section_version : ℕ
section_version = 1

abbrev pub entry_len : ℕ
entry_len = 3

pub record FeatureFlag : Type 0 where
  pub flag_id : ℕ
  pub required : Bool

pub record FeatureFlags : Type 0 where
  pub entries : List FeatureFlag

-- `__len__` and `__bool__`
abbrev pub flags_len : FeatureFlags → ℕ
flags_len flags = length flags.entries

abbrev pub flags_bool : FeatureFlags → Bool
flags_bool flags = flags_len flags != 0

abbrev pub flag_key : FeatureFlag → ℕ
flag_key f = f.flag_id

unfoldable pub get : FeatureFlags → ℕ → Option FeatureFlag
get flags flag_id = find_first flag_key flag_id flags.entries

unfoldable pub is_required : FeatureFlags → ℕ → Bool
is_required flags flag_id = elim (get flags flag_id) [ none ↦ false | some entry ↦ entry.required ]

unfoldable pub required_of_byte : ℕ → Result Bool
required_of_byte b = if b == 0x00 then ok false else if b == 0x01 then ok true else err corrupt

-- One round of the loop; `seen` holds the identifiers of the rounds before.
unfoldable pub parse_flag : List ℕ → Parser FeatureFlag
parse_flag seen = do
  flag_id ← read_u16_le
  raise_if (flag_id == 0) corrupt
  required_byte ← read_u8
  required ← lift (required_of_byte required_byte)
  raise_if (contains flag_id seen) corrupt
  pure (record { flag_id = flag_id; required = required })

unfoldable pub parse_feature_flags_section : Parser FeatureFlags
parse_feature_flags_section = do
  version ← read_u8
  raise_if (version != section_version) unsupported
  entry_count ← read_u32_le
  check_remaining (entry_count * entry_len)
  entries ← for_range parse_flag (λ seen entry. entry.flag_id ∷ seen) entry_count []
  pure (record { entries = entries })
