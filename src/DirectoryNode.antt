-- ===== src/DirectoryNode.antt =====
-- limnifs/directory_node.py: the entries of a directory.
pub mod Order
pub mod Format
pub mod Names
pub mod Hash
pub mod Tests
use limnifs_py.Prelude.{
  ℕ, Bool, true, false, not, ◌||◌, Option, none, some, List, [], ◌∷◌, is_empty, ◌==◌, ◌!=◌,
  if◌then◌else◌, contains, nat_eq,
}
use limnifs_py.Errors.{corrupt, unsupported}
use limnifs_py.Cursor.{
  Parser, pure, ◌>>=◌, ◌>>◌, raise_if, lift, read, read_u8, read_u32_le, read_u64_le,
}
use limnifs_py.Cursor.Loop.{for_range}
use limnifs_py.Utf8.{decode_text}
use limnifs_py.DirectoryNode.Order.{text_lt}

abbrev pub directory_node_version : ℕ
directory_node_version = 1

abbrev pub entry_file : ℕ
entry_file = 0x01

abbrev pub entry_directory : ℕ
entry_directory = 0x02

abbrev pub entry_symlink : ℕ
entry_symlink = 0x03

abbrev pub entry_special : ℕ
entry_special = 0x04

-- `EntryType.is_valid`
unfoldable pub is_valid_type : ℕ → Bool
is_valid_type value =
    value == entry_file
    || (value == entry_directory || (value == entry_symlink || value == entry_special))

-- A name is a text, the list of its code points.
pub record DirEntry : Type 0 where
  pub name : List ℕ
  pub inode_number : ℕ
  pub entry_type : ℕ

pub record DirectoryNode : Type 0 where
  pub version : ℕ
  pub entries : List DirEntry

-- `prev_name is not None and prev_name >= name`
abbrev pub not_after : Option (List ℕ) → List ℕ → Bool
not_after none name = false
not_after (some prev) name = not (text_lt prev name)

-- One round of the loop; `prev_name` is the name of the round before.
unfoldable pub parse_dir_entry : Option (List ℕ) → Parser DirEntry
parse_dir_entry prev_name = do
  name_len ← read_u32_le
  name_bytes ← read name_len
  raise_if (is_empty name_bytes) corrupt
  raise_if (contains b'/' name_bytes) corrupt
  raise_if (contains 0 name_bytes) corrupt
  name ← lift (decode_text name_bytes)
  raise_if (not_after prev_name name) corrupt
  inode_number ← read_u64_le
  entry_type ← read_u8
  raise_if (not (is_valid_type entry_type)) corrupt
  pure (record { name = name; inode_number = inode_number; entry_type = entry_type })

unfoldable pub parse_directory_node : Parser DirectoryNode
parse_directory_node = do
  version ← read_u8
  raise_if (version != directory_node_version) unsupported
  entry_count ← read_u32_le
  entries ← for_range parse_dir_entry (λ prev entry. some entry.name) entry_count none
  pure (record { version = version; entries = entries })
