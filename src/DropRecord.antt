-- ===== src/DropRecord.antt =====
-- limnifs/drop_record.py: the 48 bytes that locate a drop inside a slab.
pub mod Format
use limnifs_py.Prelude.{ℕ, ◌+◌, ◌*◌, ◌&&◌, List, ltb, ◌==◌, ◌!=◌}
use limnifs_py.Errors.{corrupt}
use limnifs_py.Cursor.{Parser, pure, ◌>>=◌, ◌>>◌, raise_if, lift, read, read_u8, read_u32_le}
use limnifs_py.FormatTypes.{DropId, Representation, make_drop_id, representation_from_bytes}
use limnifs_py.SlabHeader.{SlabHeader}

abbrev pub drop_record_len : ℕ
drop_record_len = 48

abbrev pub default_drop_max_plaintext_bytes : ℕ
default_drop_max_plaintext_bytes = 64 * 1024 * 1024

pub record DropRecord : Type 0 where
  pub drop_id : DropId
  pub plaintext_len : ℕ
  pub representation : Representation
  pub solid_window_index : ℕ
  pub offset_in_window : ℕ
  pub len_in_window : ℕ

-- The last guard is the source's test for overflow: Python's integers do not wrap.
unfoldable pub parse_drop_record : SlabHeader → ℕ → Parser DropRecord
parse_drop_record slab max_plaintext = do
  drop_id_bytes ← read 32
  drop_id ← lift (make_drop_id drop_id_bytes)
  plaintext_len ← read_u32_le
  raise_if (ltb max_plaintext plaintext_len) corrupt
  rep_bytes ← read 3
  representation ← lift (representation_from_bytes rep_bytes)
  raise_if (slab.crypto_hint == 0 && representation.aead != 0) corrupt
  raise_if (slab.ec_descriptor == 0 && representation.ec != 0) corrupt
  solid_window_index ← read_u8
  offset_in_window ← read_u32_le
  len_in_window ← read_u32_le
  raise_if (ltb (offset_in_window + len_in_window) offset_in_window) corrupt
  pure (record {
    drop_id = drop_id;
    plaintext_len = plaintext_len;
    representation = representation;
    solid_window_index = solid_window_index;
    offset_in_window = offset_in_window;
    len_in_window = len_in_window;
  })
