-- ===== src/SlabHeader.antt =====
-- limnifs/slab_header.py: the 56 bytes in front of every slab.
pub mod Format
use limnifs_py.Prelude.{ℕ, ◌*◌, Bool, not, ◌&&◌, List, ltb, ◌==◌, ◌!=◌, bytes_eq}
use limnifs_py.Errors.{bad_magic, corrupt, unsupported}
use limnifs_py.Cursor.{
  Parser, pure, ◌>>=◌, ◌>>◌, raise_if, lift, read, read_u8, read_u16_le, read_u64_le, read_magic,
}
use limnifs_py.FormatTypes.{slab_magic, SlabId, slab_id_from_bytes}

abbrev pub default_slab_max_bytes : ℕ
default_slab_max_bytes = 64 * 1024 * 1024

abbrev pub slab_format_version : ℕ
slab_format_version = 1

abbrev pub slab_header_len : ℕ
slab_header_len = 56

abbrev pub ec_descriptor_extended : ℕ
ec_descriptor_extended = 0xff

abbrev pub crypto_hint_extended : ℕ
crypto_hint_extended = 0xff

pub record SlabHeader : Type 0 where
  pub format_version : ℕ
  pub slab_id : SlabId
  pub total_length : ℕ
  pub ec_descriptor : ℕ
  pub crypto_hint : ℕ

unfoldable pub has_erasure_coding : SlabHeader → Bool
has_erasure_coding h = h.ec_descriptor != 0x00 && h.ec_descriptor != ec_descriptor_extended

unfoldable pub is_sealed : SlabHeader → Bool
is_sealed h = h.crypto_hint != 0x00 && h.crypto_hint != crypto_hint_extended

-- The argument is `max_total_length`.
unfoldable pub parse_slab_header : ℕ → Parser SlabHeader
parse_slab_header max_total_length = do
  magic ← read_magic
  raise_if (not (bytes_eq magic slab_magic)) (bad_magic magic slab_magic)
  format_version ← read_u16_le
  raise_if (format_version != slab_format_version) unsupported
  slab_id_bytes ← read 40
  slab_id ← lift (slab_id_from_bytes slab_id_bytes)
  total_length ← read_u64_le
  raise_if (ltb total_length slab_header_len) corrupt
  raise_if (ltb max_total_length total_length) corrupt
  ec_descriptor ← read_u8
  raise_if (ec_descriptor == ec_descriptor_extended) unsupported
  crypto_hint ← read_u8
  raise_if (crypto_hint == crypto_hint_extended) unsupported
  pure (record {
    format_version = format_version;
    slab_id = slab_id;
    total_length = total_length;
    ec_descriptor = ec_descriptor;
    crypto_hint = crypto_hint;
  })
