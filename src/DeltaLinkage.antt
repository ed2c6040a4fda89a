-- ===== src/DeltaLinkage.antt =====
-- limnifs/delta_linkage.py: the section that derives an image from a base image.
pub mod Paths
pub mod Format
mod Tests
use limnifs_py.Prelude.{
  ℕ, ◌*◌, Bool, true, false, ◌&&◌, ◌||◌, Option, none, some, List, [], ◌∷◌, ◌==◌, ◌!=◌,
  if◌then◌else◌, contains, nat_eq,
}
use limnifs_py.Errors.{Result, ok, err, corrupt, unsupported}
use limnifs_py.Cursor.{
  Parser, pure, ◌>>=◌, ◌>>◌, raise_if, lift, read, read_u8, read_u32_le, read_u64_le,
  check_remaining,
}
use limnifs_py.Cursor.Loop.{for_each}
use limnifs_py.FormatTypes.{ManifestRoot, make_manifest_root}
use limnifs_py.Utf8.{decode_text}

abbrev pub delta_linkage_section_version : ℕ
delta_linkage_section_version = 1

abbrev pub min_tree_op_len : ℕ
min_tree_op_len = 6

pub data TreeOpKind : Type 0 where
  add remove replace : TreeOpKind

-- `TreeOpKind.from_byte`
unfoldable pub kind_from_byte : ℕ → Option TreeOpKind
kind_from_byte byte =
    if byte == 0x01
    then some add
    else if byte == 0x02
    then some remove
    else if byte == 0x03
    then some replace
    else none

abbrev pub has_inode_number : TreeOpKind → Bool
has_inode_number remove = false
has_inode_number _ = true

-- A path is the list of its code points.
pub record TreeOp : Type 0 where
  pub kind : TreeOpKind
  pub path : List ℕ
  pub inode_number : Option ℕ

pub record DeltaLinkage : Type 0 where
  pub base_root : ManifestRoot
  pub tree_ops : List TreeOp

-- The tests of `op_byte`
unfoldable pub known_kind : ℕ → Result TreeOpKind
unfolding kind_from_byte
known_kind byte =
    if byte == 0xff
    then err unsupported
    else elim (kind_from_byte byte) [ none ↦ err unsupported | some kind ↦ ok kind ]

-- `"//" in path`
abbrev pub starts_with_slash : List ℕ → Bool
starts_with_slash [] = false
starts_with_slash (c ∷ cs) = c == b'/'

unfoldable pub double_slash : List ℕ → Bool
double_slash [] = false
double_slash (c ∷ cs) = (c == b'/' && starts_with_slash cs) || double_slash cs

unfoldable pub parse_inode_number : Bool → Parser (Option ℕ)
parse_inode_number present =
    let read_number = do number ← read_u64_le; pure (some number)
    in if present then read_number else pure none

unfoldable pub parse_tree_op : Parser TreeOp
parse_tree_op = do
  op_byte ← read_u8
  kind ← lift (known_kind op_byte)
  path_len ← read_u32_le
  raise_if (path_len == 0) corrupt
  path_bytes ← read path_len
  path ← lift (decode_text path_bytes)
  raise_if (contains 0 path) corrupt
  raise_if (double_slash path) corrupt
  inode_number ← parse_inode_number (has_inode_number kind)
  pure (record { kind = kind; path = path; inode_number = inode_number })

unfoldable pub parse_delta_linkage_section : Parser DeltaLinkage
parse_delta_linkage_section = do
  version ← read_u8
  raise_if (version != delta_linkage_section_version) unsupported
  base_root_bytes ← read 32
  base_root ← lift (make_manifest_root base_root_bytes)
  op_count ← read_u32_le
  check_remaining (op_count * min_tree_op_len)
  tree_ops ← for_each parse_tree_op op_count
  pure (record { base_root = base_root; tree_ops = tree_ops })
