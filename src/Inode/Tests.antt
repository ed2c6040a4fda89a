-- ===== src/Inode/Tests.antt =====
-- A file with inline data, an attribute and an access time; and inodes that have two encodings.
use limnifs_py.Prelude.{
  ℕ, ◌^◌, ◌<◌, inl, refl, [], ◌∷◌, arith, some, none, true, false, Bool, replicate,
}
use limnifs_py.Cursor.Reads.{Reads}
use limnifs_py.Utf8.{encode_char}
use limnifs_py.Inode.{
  Inode, handle, inline_data, directory, default_inline_data_max_bytes, parse_inode, type_of_mode,
}
use limnifs_py.Inode.Format.{inode_bytes, IsInode, parse_inode-Recognises}

abbrev pub small_file : Inode
small_file = record {
  number = 2;
  mode = 0x81a4;
  uid = 1000;
  gid = 1000;
  mtime_ns = 5;
  ctime_ns = 6;
  nlink = 1;
  content_handle = record (handle inline_data) { inline_bytes = b'h' ∷ b'i' ∷ [] };
  atime_ns = some 7;
  xattrs = record { namespace = 1; key = b'k' ∷ []; value = b'v' ∷ [] } ∷ [];
}

abbrev pub folder : ℕ → Inode
folder number = record {
  number = number;
  mode = 0x41ed;
  uid = 0;
  gid = 0;
  mtime_ns = 0;
  ctime_ns = 0;
  nlink = 2;
  content_handle = record (handle directory) { directory_hash = replicate 32 9 };
  atime_ns = none;
  xattrs = [];
}

pub small_file_valid : IsInode default_inline_data_max_bytes true true small_file
unfolding type_of_mode encode_char
small_file_valid = record {
  number = omega arith;
  mode = omega arith;
  uid = omega arith;
  gid = omega arith;
  mtime = omega arith;
  ctime = omega arith;
  nlink = omega arith;
  atime = omega arith;
  xattrs = (
    omega arith,
    (
      record {
        highest_namespace = omega arith;
        text = (inl (omega arith), tt);
        no_nul = omega arith;
        key_fits = omega arith;
        value_fits = omega arith;
      },
      tt,
    ),
  );
  content = (refl, refl, refl, omega arith, omega arith);
}

-- A directory may have the flag of inline data, which says nothing there.
pub folder_valid :
    (number : ℕ) (inlined : Bool)
    → number < 2 ^ 64
    → IsInode default_inline_data_max_bytes false inlined (folder number)
unfolding type_of_mode
folder_valid number inlined fits = record {
  number = fits;
  mode = omega arith;
  uid = omega arith;
  gid = omega arith;
  mtime = omega arith;
  ctime = omega arith;
  nlink = omega arith;
  atime = tt;
  xattrs = refl;
  content = (refl, refl, refl);
}

parse_inode-Recognises_example :
    Reads (parse_inode default_inline_data_max_bytes) (inode_bytes true true small_file) small_file
parse_inode-Recognises_example =
    (parse_inode-Recognises default_inline_data_max_bytes).reads (inode_bytes true true small_file)
      small_file (true, true, refl, small_file_valid)

-- The same directory from two encodings.
read_folder_plain :
    Reads
      (parse_inode default_inline_data_max_bytes)
      (inode_bytes false false (folder 1))
      (folder 1)
read_folder_plain =
    (parse_inode-Recognises default_inline_data_max_bytes).reads
      (inode_bytes false false (folder 1)) (folder 1)
      (false, false, refl, folder_valid 1 false (omega arith))

read_folder_flagged :
    Reads (parse_inode default_inline_data_max_bytes) (inode_bytes false true (folder 1)) (folder 1)
read_folder_flagged =
    (parse_inode-Recognises default_inline_data_max_bytes).reads (inode_bytes false true (folder 1))
      (folder 1) (false, true, refl, folder_valid 1 true (omega arith))
