-- ===== src/Inode.antt =====
-- limnifs/inode.py: one object of the file system.
pub mod Flags
pub mod Content
pub mod Handles
pub mod Attributes
pub mod Format
pub mod Tests
use Prim.Native.Nat.{bit_and}
use limnifs_py.Prelude.{
  ℕ, ◌*◌, Bool, true, false, ◌||◌, Option, none, some, List, [], ltb, leb, ◌==◌, ◌!=◌,
  if◌then◌else◌, contains, nat_eq,
}
use limnifs_py.Errors.{corrupt}
use limnifs_py.Cursor.{
  Parser, pure, ◌>>=◌, ◌>>◌, raise_if, raise, lift, read, read_u8, read_u32_le, read_u64_le,
}
use limnifs_py.Cursor.Loop.{for_each}
use limnifs_py.FormatTypes.{DropId, make_drop_id}
use limnifs_py.Utf8.{decode_text}

abbrev pub inode_fixed_prefix_len : ℕ
inode_fixed_prefix_len = 41

abbrev pub inode_flag_atime : ℕ
inode_flag_atime = 0x01

abbrev pub inode_flag_has_xattrs : ℕ
inode_flag_has_xattrs = 0x02

abbrev pub inode_flag_inline_data : ℕ
inode_flag_inline_data = 0x04

abbrev pub inode_flag_reserved_mask : ℕ
inode_flag_reserved_mask = 0xf8

abbrev pub s_ifmt : ℕ
s_ifmt = 0xf000

abbrev pub s_ifreg : ℕ
s_ifreg = 0x8000

abbrev pub s_ifdir : ℕ
s_ifdir = 0x4000

abbrev pub s_iflnk : ℕ
s_iflnk = 0xa000

abbrev pub s_ifblk : ℕ
s_ifblk = 0x6000

abbrev pub s_ifchr : ℕ
s_ifchr = 0x2000

abbrev pub s_ififo : ℕ
s_ififo = 0x1000

abbrev pub s_ifsock : ℕ
s_ifsock = 0xc000

abbrev pub default_inline_data_max_bytes : ℕ
default_inline_data_max_bytes = 4 * 1024

pub data ContentHandleKind : Type 0 where
  inline_data slice_map directory symlink device pipe : ContentHandleKind

-- Keys and targets are texts, lists of code points.
pub record XAttr : Type 0 where
  pub namespace : ℕ
  pub key : List ℕ
  pub value : List ℕ

pub record SliceRef : Type 0 where
  pub file_byte_start : ℕ
  pub file_byte_end : ℕ
  pub drop_id : DropId
  pub drop_byte_start : ℕ
  pub drop_byte_len : ℕ

pub record ContentHandle : Type 0 where
  pub kind : ContentHandleKind
  pub inline_bytes : List ℕ
  pub slices : List SliceRef
  pub directory_hash : List ℕ
  pub symlink_target : List ℕ
  pub device_number : ℕ
  pub pipe_id : ℕ

-- `ContentHandle(kind=…)`, all else at its default.
abbrev pub handle : ContentHandleKind → ContentHandle
handle kind = record {
  kind = kind;
  inline_bytes = [];
  slices = [];
  directory_hash = [];
  symlink_target = [];
  device_number = 0;
  pipe_id = 0;
}

pub record Inode : Type 0 where
  pub number : ℕ
  pub mode : ℕ
  pub uid : ℕ
  pub gid : ℕ
  pub mtime_ns : ℕ
  pub ctime_ns : ℕ
  pub nlink : ℕ
  pub content_handle : ContentHandle
  pub atime_ns : Option ℕ
  pub xattrs : List XAttr

-- `flags & mask`, as a test
unfoldable pub has_bits : ℕ → ℕ → Bool
has_bits flags mask = bit_and flags mask != 0

-- `mode & S_IFMT`
unfoldable pub type_of_mode : ℕ → ℕ
type_of_mode mode = bit_and mode s_ifmt

abbrev pub file_type : Inode → ℕ
file_type i = type_of_mode i.mode

unfoldable pub is_regular : Inode → Bool
is_regular i = file_type i == s_ifreg

unfoldable pub is_directory : Inode → Bool
is_directory i = file_type i == s_ifdir

unfoldable pub parse_xattr : Parser XAttr
parse_xattr = do
  namespace ← read_u8
  raise_if (ltb 0x03 namespace) corrupt
  key_len ← read_u32_le
  key_bytes ← read key_len
  key ← lift (decode_text key_bytes)
  raise_if (contains 0 key) corrupt
  value_len ← read_u32_le
  value ← read value_len
  pure (record { namespace = namespace; key = key; value = value })

-- `_parse_xattr_block`
unfoldable pub parse_xattr_block : Parser (List XAttr)
parse_xattr_block = do count ← read_u32_le; for_each parse_xattr count

unfoldable pub parse_inline_data : ℕ → Parser ContentHandle
parse_inline_data max_inline_bytes = do
  inline_len ← read_u32_le
  raise_if (ltb max_inline_bytes inline_len) corrupt
  bytes ← read inline_len
  pure (record (handle inline_data) { inline_bytes = bytes })

unfoldable pub parse_slice : Parser SliceRef
parse_slice = do
  file_byte_start ← read_u64_le
  file_byte_end ← read_u64_le
  raise_if (leb file_byte_end file_byte_start) corrupt
  drop_id_bytes ← read 32
  drop_id ← lift (make_drop_id drop_id_bytes)
  drop_byte_start ← read_u32_le
  drop_byte_len ← read_u32_le
  pure (record {
    file_byte_start = file_byte_start;
    file_byte_end = file_byte_end;
    drop_id = drop_id;
    drop_byte_start = drop_byte_start;
    drop_byte_len = drop_byte_len;
  })

unfoldable pub parse_slice_map : Parser ContentHandle
parse_slice_map = do
  slice_count ← read_u32_le
  slices ← for_each parse_slice slice_count
  pure (record (handle slice_map) { slices = slices })

unfoldable pub parse_directory : Parser ContentHandle
parse_directory = do hash ← read 32; pure (record (handle directory) { directory_hash = hash })

unfoldable pub parse_symlink : Parser ContentHandle
parse_symlink = do
  target_len ← read_u32_le
  target_bytes ← read target_len
  target ← lift (decode_text target_bytes)
  pure (record (handle symlink) { symlink_target = target })

unfoldable pub parse_device : Parser ContentHandle
parse_device = do dev ← read_u64_le; pure (record (handle device) { device_number = dev })

unfoldable pub parse_pipe : Parser ContentHandle
parse_pipe = do id ← read_u64_le; pure (record (handle pipe) { pipe_id = id })

-- The cascade over `file_type`; `inlined` is `flags & INODE_FLAG_INLINE_DATA`.
unfoldable pub parse_by_type : ℕ → Bool → ℕ → Parser ContentHandle
parse_by_type type inlined max_inline_bytes =
    if type == s_ifreg
    then (if inlined then parse_inline_data max_inline_bytes else parse_slice_map)
    else if type == s_ifdir
    then parse_directory
    else if type == s_iflnk
    then parse_symlink
    else if type == s_ifblk || type == s_ifchr
    then parse_device
    else if type == s_ififo || type == s_ifsock
    then parse_pipe
    else raise corrupt

-- `_parse_content_handle`
unfoldable pub parse_content_handle : ℕ → ℕ → ℕ → Parser ContentHandle
parse_content_handle mode flags max_inline_bytes =
    parse_by_type (type_of_mode mode) (has_bits flags inode_flag_inline_data) max_inline_bytes

unfoldable pub parse_atime : Bool → Parser (Option ℕ)
parse_atime present =
    let read_atime = do atime_ns ← read_u64_le; pure (some atime_ns)
    in if present then read_atime else pure none

unfoldable pub parse_xattrs : Bool → Parser (List XAttr)
parse_xattrs present = if present then parse_xattr_block else pure []

-- The argument is `max_inline_bytes`.
unfoldable pub parse_inode : ℕ → Parser Inode
parse_inode max_inline_bytes = do
  number ← read_u64_le
  mode ← read_u32_le
  uid ← read_u32_le
  gid ← read_u32_le
  mtime_ns ← read_u64_le
  ctime_ns ← read_u64_le
  nlink ← read_u32_le
  flags ← read_u8
  raise_if (has_bits flags inode_flag_reserved_mask) corrupt
  atime_ns ← parse_atime (has_bits flags inode_flag_atime)
  xattrs ← parse_xattrs (has_bits flags inode_flag_has_xattrs)
  content_handle ← parse_content_handle mode flags max_inline_bytes
  pure (record {
    number = number;
    mode = mode;
    uid = uid;
    gid = gid;
    mtime_ns = mtime_ns;
    ctime_ns = ctime_ns;
    nlink = nlink;
    content_handle = content_handle;
    atime_ns = atime_ns;
    xattrs = xattrs;
  })
