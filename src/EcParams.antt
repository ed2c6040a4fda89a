-- ===== src/EcParams.antt =====
-- limnifs/ec_params.py: the section that configures erasure coding.
pub mod Format
use limnifs_py.Prelude.{ℕ, ◌+◌, ◌*◌, List, [], ◌∷◌, ltb, ◌!=◌, if◌then◌else◌, contains}
use limnifs_py.Errors.{Result, ok, err, corrupt, unsupported}
use limnifs_py.Cursor.{
  Parser, pure, ◌>>=◌, ◌>>◌, raise_if, lift, read, read_u8, read_u16_le, read_u32_le, read_u64_le,
  check_remaining,
}
use limnifs_py.Cursor.Loop.{for_range}
use limnifs_py.FormatTypes.{SlabId, slab_id_eq, make_slab_id}

abbrev pub ec_params_section_version : ℕ
ec_params_section_version = 1

abbrev pub default_ec_polynomial : ℕ
default_ec_polynomial = 0x011d

abbrev pub max_shards : ℕ
max_shards = 255

abbrev pub override_entry_len : ℕ
override_entry_len = 42

pub record EcOverride : Type 0 where
  pub slab_id : SlabId
  pub k : ℕ
  pub m : ℕ

pub record EcParams : Type 0 where
  pub k : ℕ
  pub m : ℕ
  pub polynomial : ℕ
  pub overrides : List EcOverride

-- `_validate`
unfoldable pub validate : ℕ → ℕ → Result (Unit {0})
validate k m =
    if ltb k 1
    then err corrupt
    else if ltb m 1
    then err corrupt
    else if ltb max_shards (k + m)
    then err corrupt
    else ok tt

-- One round of the loop; `seen` holds the slab identifiers of the rounds before.
unfoldable pub parse_override : List SlabId → Parser EcOverride
parse_override seen = do
  ordinal ← read_u64_le
  hash ← read 32
  slab_id ← lift (make_slab_id ordinal hash)
  override_k ← read_u8
  override_m ← read_u8
  lift (validate override_k override_m)
  raise_if (contains slab_id seen) corrupt
  pure (record { slab_id = slab_id; k = override_k; m = override_m })

unfoldable pub parse_ec_params_section : Parser EcParams
parse_ec_params_section = do
  version ← read_u8
  raise_if (version != ec_params_section_version) unsupported
  k ← read_u8
  m ← read_u8
  lift (validate k m)
  polynomial ← read_u16_le
  raise_if (polynomial != default_ec_polynomial) unsupported
  override_count ← read_u32_le
  check_remaining (override_count * override_entry_len)
  overrides ← for_range parse_override (λ seen o. o.slab_id ∷ seen) override_count []
  pure (record { k = k; m = m; polynomial = polynomial; overrides = overrides })
