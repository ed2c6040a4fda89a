-- ===== src/FeatureFlags/Tests.antt =====
-- A section with two flags, and lookups in it.
use limnifs_py.Prelude.{◌≡◌, ◌↔◌, refl, true, false, some, [], ◌∷◌, arith, contains, In}
use limnifs_py.Errors.{err, corrupt}
use limnifs_py.Wire.{unpack_le}
use limnifs_py.Cursor.{
  pure, ◌>>=◌, raise_if, lift, read, read_u8, read_u16_le, read_u32_le, check_remaining,
}
use limnifs_py.Cursor.Loop.{for_range}
use limnifs_py.Cursor.Reads.{cursor_at}
use limnifs_py.FeatureFlags.{
  FeatureFlag, FeatureFlags, get, required_of_byte, parse_flag, parse_feature_flags_section,
}
use limnifs_py.FeatureFlags.Format.{IsFlags}
use limnifs_py.FeatureFlags.Lookup.{get_iff}

abbrev pub ec_flag : FeatureFlag
ec_flag = record { flag_id = 1; required = true }

abbrev pub dms_flag : FeatureFlag
dms_flag = record { flag_id = 2; required = false }

abbrev pub two_flags : FeatureFlags
two_flags = record { entries = ec_flag ∷ dms_flag ∷ [] }

pub two_flags_valid : IsFlags two_flags
two_flags_valid = omega arith

get_iff_example :
    (get two_flags 2 ≡ some dms_flag) ↔ (In dms_flag two_flags.entries × (dms_flag.flag_id ≡ 2))
get_iff_example = get_iff two_flags 2 dms_flag two_flags_valid

-- The second row repeats the identifier of the first.
parse_duplicate :
    parse_feature_flags_section (cursor_at [] (1 ∷ 2 ∷ 0 ∷ 0 ∷ 0 ∷ 1 ∷ 0 ∷ 1 ∷ 1 ∷ 0 ∷ 1 ∷ []))
    ≡ err corrupt
unfolding parse_feature_flags_section parse_flag required_of_byte for_range contains read_u8
    read_u16_le read_u32_le read check_remaining raise_if lift pure ◌>>=◌ unpack_le
parse_duplicate = refl
