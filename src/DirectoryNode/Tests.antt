-- ===== src/DirectoryNode/Tests.antt =====
-- A directory with two names, its bytes and its hash.
use limnifs_py.Prelude.{
  List, zero, suc, ◌%◌, ap, All, length, ℕ, ◌^◌, ◌≤◌, ◌<◌, inl, ◌≡◌, refl, [], ◌∷◌, arith, contains,
}
use limnifs_py.Errors.{ok, err, corrupt}
use limnifs_py.Wire.{IsByte, unpack_le}
use limnifs_py.Utf8.{encode_char, decode_text, decode, decode_from, step, first_byte}
use limnifs_py.Cursor.{pure, ◌>>=◌, raise_if, lift, read, read_u8, read_u32_le, read_u64_le}
use limnifs_py.Cursor.Loop.{for_range}
use limnifs_py.Cursor.Reads.{cursor_at}
use limnifs_py.Cursor.Consumes.{Consumes}
use limnifs_py.Merkle.{Blake3}
use limnifs_py.DirectoryNode.{
  DirEntry, DirectoryNode, is_valid_type, parse_dir_entry, parse_directory_node, entry_file,
  entry_directory,
}
use limnifs_py.DirectoryNode.Order.{text_lt}
use limnifs_py.DirectoryNode.Format.{node_bytes, IsDirEntry, IsNode}
use limnifs_py.DirectoryNode.Hash.{
  dir_node_hash, dir_node_hash-node_bytes, parse_directory_node-dir_node_hash,
}

-- The lowest bytes of the first numbers.
unfoldable pub first_bytes : ℕ → List ℕ → List ℕ
first_bytes zero bs = []
first_bytes (suc n) [] = 0 ∷ first_bytes n []
first_bytes (suc n) (b ∷ bs) = (b % 256) ∷ first_bytes n bs

pub length-first_bytes : (n : ℕ) (bs : List ℕ) → length (first_bytes n bs) ≡ n
unfolding first_bytes
length-first_bytes zero bs = refl
length-first_bytes (suc n) [] = ap suc (length-first_bytes n [])
length-first_bytes (suc n) (b ∷ bs) = ap suc (length-first_bytes n bs)

pub first_bytes-IsByte : (n : ℕ) (bs : List ℕ) → All IsByte (first_bytes n bs)
unfolding first_bytes
first_bytes-IsByte zero bs = tt
first_bytes-IsByte (suc n) [] = (omega arith, first_bytes-IsByte n [])
first_bytes-IsByte (suc n) (b ∷ bs) = (omega arith, first_bytes-IsByte n bs)

-- A digest that tells short byte strings apart: the first bytes, padded.
abbrev pub prefix_digest : Blake3
prefix_digest = record {
  digest = first_bytes 32;
  length-digest = length-first_bytes 32;
  digest-IsByte = first_bytes-IsByte 32;
}

abbrev pub file_a : DirEntry
file_a = record { name = b'a' ∷ []; inode_number = 2; entry_type = entry_file }

abbrev pub folder_b : DirEntry
folder_b = record { name = b'b' ∷ []; inode_number = 3; entry_type = entry_directory }

abbrev pub two_names : DirectoryNode
two_names = record { version = 1; entries = file_a ∷ folder_b ∷ [] }

abbrev pub no_names : DirectoryNode
no_names = record { version = 1; entries = [] }

IsDirEntry-letter :
    (c number type : ℕ)
    → 0x61 ≤ c
    → c ≤ 0x7a
    → number < 2 ^ 64
    → 1 ≤ type
    → type ≤ 4
    → IsDirEntry (record { name = c ∷ []; inode_number = number; entry_type = type })
unfolding encode_char
IsDirEntry-letter c number type low high fits lowest highest = record {
  text = (inl (omega arith), tt);
  named = refl;
  fits = ground arith;
  no_slash = omega arith;
  no_nul = omega arith;
  number = fits;
  lowest_type = lowest;
  highest_type = highest;
}

pub two_names_valid : IsNode two_names
two_names_valid = (
  refl,
  omega arith,
  (
    IsDirEntry-letter b'a' 2 1 (omega arith) (omega arith) (omega arith) (omega arith)
        (omega arith),
    (
      IsDirEntry-letter b'b' 3 2 (omega arith) (omega arith) (omega arith) (omega arith)
          (omega arith),
      tt,
    ),
  ),
  ((inl (omega arith), tt), (tt, tt)),
)

pub no_names_valid : IsNode no_names
no_names_valid = (refl, omega arith, tt, tt)

parse_directory_node-dir_node_hash_example :
    Consumes parse_directory_node
      (λ bs n. dir_node_hash prefix_digest n.entries ≡ ok (prefix_digest.digest bs))
parse_directory_node-dir_node_hash_example = parse_directory_node-dir_node_hash prefix_digest

dir_node_hash-node_bytes_example :
    dir_node_hash prefix_digest two_names.entries ≡ ok (prefix_digest.digest (node_bytes two_names))
dir_node_hash-node_bytes_example = dir_node_hash-node_bytes prefix_digest two_names two_names_valid

-- The second name repeats the first.
parse_repeated_name :
    parse_directory_node (
      cursor_at [] (
        1 ∷ 2 ∷ 0 ∷ 0 ∷ 0 ∷ 1 ∷ 0 ∷ 0 ∷ 0 ∷ b'a' ∷ 2 ∷ 0 ∷ 0 ∷ 0 ∷ 0 ∷ 0 ∷ 0 ∷ 0 ∷ 1 ∷ 1 ∷ 0 ∷ 0 ∷ 0
        ∷ b'a' ∷ 3 ∷ 0 ∷ 0 ∷ 0 ∷ 0 ∷ 0 ∷ 0 ∷ 0 ∷ 1 ∷ []))
    ≡ err corrupt
unfolding parse_directory_node parse_dir_entry for_range contains is_valid_type text_lt decode_text
    decode decode_from step first_byte read_u8 read_u32_le read_u64_le read raise_if lift pure ◌>>=◌
    unpack_le
parse_repeated_name = refl
