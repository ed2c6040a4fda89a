-- ===== src/History.antt =====
-- limnifs/history.py: the log of the operations that derived an image.
pub mod Format
pub mod Tests
pub mod Roots
use limnifs_py.Prelude.{
  Bool, not, is_empty, ℕ, zero, suc, ◌+◌, ◌*◌, Option, none, some, List, [], ◌∷◌, length, take,
  drop, ltb, ◌==◌, ◌!=◌, if◌then◌else◌,
}
use limnifs_py.Errors.{Result, ok, err, corrupt, unsupported}
use limnifs_py.Cursor.{
  Parser, pure, ◌>>=◌, ◌>>◌, raise_if, lift, read, read_u8, read_u32_le, read_u64_le,
  check_remaining,
}
use limnifs_py.Cursor.Loop.{for_each}
use limnifs_py.FormatTypes.{ManifestRoot}
use limnifs_py.History.Roots.{roots_of_bytes}

abbrev pub history_section_version : ℕ
history_section_version = 1

abbrev pub default_history_params_max_bytes : ℕ
default_history_params_max_bytes = 4 * 1024

abbrev pub op_extended : ℕ
op_extended = 0xff

-- version and number of entries
abbrev pub prefix_len : ℕ
prefix_len = 5

-- op, timestamp and number of inputs
abbrev pub entry_fixed_len : ℕ
entry_fixed_len = 1 + 8 + 4

pub data HistoryOp : Type 0 where
  build delta flatten turnover deepen : HistoryOp

-- `HistoryOp.from_byte`
unfoldable pub op_from_byte : ℕ → Option HistoryOp
op_from_byte b =
    if b == 0x01
    then some build
    else if b == 0x02
    then some delta
    else if b == 0x03
    then some flatten
    else if b == 0x04
    then some turnover
    else if b == 0x05
    then some deepen
    else none

pub record HistoryEntry : Type 0 where
  pub op : HistoryOp
  pub timestamp_ns : ℕ
  pub inputs : List ManifestRoot
  pub params : List ℕ

pub record History : Type 0 where
  pub entries : List HistoryEntry

-- `__len__` and `__bool__`
abbrev pub history_len : History → ℕ
history_len history = length history.entries

abbrev pub history_bool : History → Bool
history_bool history = not (is_empty history.entries)

-- `if op is None: raise UnsupportedFeatureError`
unfoldable pub known_op : Option HistoryOp → Result HistoryOp
known_op none = err unsupported
known_op (some op) = ok op

unfoldable pub parse_history_entry : ℕ → Parser HistoryEntry
parse_history_entry max_params_bytes = do
  op_byte ← read_u8
  raise_if (op_byte == op_extended) unsupported
  op ← lift (known_op (op_from_byte op_byte))
  timestamp_ns ← read_u64_le
  input_count ← read_u32_le
  let inputs_size = input_count * 32
  check_remaining inputs_size
  inputs_bytes ← read inputs_size
  inputs ← lift (roots_of_bytes input_count inputs_bytes)
  params_len ← read_u32_le
  raise_if (ltb max_params_bytes params_len) corrupt
  params ← read params_len
  pure (record { op = op; timestamp_ns = timestamp_ns; inputs = inputs; params = params })

-- The argument is `max_params_bytes`.
unfoldable pub parse_history_section : ℕ → Parser History
parse_history_section max_params_bytes = do
  version ← read_u8
  raise_if (version != history_section_version) unsupported
  entry_count ← read_u32_le
  raise_if (entry_count == 0) corrupt
  check_remaining (entry_count * (entry_fixed_len + 4))
  entries ← for_each (parse_history_entry max_params_bytes) entry_count
  pure (record { entries = entries })
