-- ===== src/Metadata/Tests.antt =====
-- A blob with a root directory and a file, and a blob with two roots.
use limnifs_py.Prelude.{
  ℕ, ◌≡◌, ◌≢◌, ◌↔◌, refl, List, [], ◌∷◌, ◌++◌, arith, some, none, true, false, In, contains,
}
use limnifs_py.Errors.{ok}
use limnifs_py.Wire.{le_bytes}
use limnifs_py.Utf8.{encode_char}
use limnifs_py.Cursor.Reads.{Reads}
use limnifs_py.DirectoryNode.Format.{node_bytes}
use limnifs_py.DirectoryNode.Tests.{
  two_names, two_names_valid, no_names, no_names_valid, prefix_digest, first_bytes,
}
use limnifs_py.Inode.{Inode, is_directory, type_of_mode, default_inline_data_max_bytes}
use limnifs_py.Inode.Format.{inode_bytes}
use limnifs_py.Inode.Tests.{small_file, small_file_valid, folder, folder_valid}
use limnifs_py.Metadata.{
  MetadataBlob, referenced, is_candidate, candidates, root_inode_number, dir_node_by_hash,
  parse_metadata_blob,
}
use limnifs_py.Metadata.Format.{BlobBytes, parse_metadata_blob-Recognises}
use limnifs_py.Metadata.Lookup.{node_hash, dir_node_by_hash_iff}
use limnifs_py.Metadata.Root.{IsOnlyRoot, root_inode_number_iff}

-- Inode 1 is the root; the node refers to the inodes 2 and 3.
abbrev pub small_tree : MetadataBlob
small_tree = record {
  inodes = folder 1 ∷ small_file ∷ folder 3 ∷ [];
  dir_nodes = two_names ∷ no_names ∷ [];
}

abbrev pub small_tree_inodes : List ℕ
small_tree_inodes =
    inode_bytes false false (folder 1)
    ++ (inode_bytes true true small_file ++ (inode_bytes false true (folder 3) ++ []))

abbrev pub small_tree_bytes : List ℕ
small_tree_bytes =
    le_bytes 4 3
    ++ (small_tree_inodes
        ++ (le_bytes 4 2 ++ (node_bytes two_names ++ (node_bytes no_names ++ []))))

pub small_tree_valid : BlobBytes default_inline_data_max_bytes small_tree_bytes small_tree
small_tree_valid = record {
  bytes = small_tree_inodes;
  layout = refl;
  inodes = (
    inode_bytes false false (folder 1),
    inode_bytes true true small_file ++ (inode_bytes false true (folder 3) ++ []),
    refl,
    (false, false, refl, folder_valid 1 false (omega arith)),
    (
      inode_bytes true true small_file,
      inode_bytes false true (folder 3) ++ [],
      refl,
      (true, true, refl, small_file_valid),
      (
        inode_bytes false true (folder 3),
        [],
        refl,
        (false, true, refl, folder_valid 3 true (omega arith)),
        (tt, refl),
      ),
    ),
  );
  inode_count = omega arith;
  dir_nodes = (two_names_valid, (no_names_valid, tt));
  dir_node_count = omega arith;
}

parse_metadata_blob-Recognises_example :
    Reads (parse_metadata_blob default_inline_data_max_bytes) small_tree_bytes small_tree
parse_metadata_blob-Recognises_example =
    (parse_metadata_blob-Recognises default_inline_data_max_bytes).reads small_tree_bytes small_tree
      small_tree_valid

two_hashes : node_hash prefix_digest two_names ≢ node_hash prefix_digest no_names
unfolding le_bytes encode_char first_bytes
two_hashes e = cc

dir_node_by_hash_iff_example :
    (dir_node_by_hash prefix_digest small_tree (prefix_digest.digest (node_bytes no_names))
      ≡ ok (some no_names))
    ↔ (In no_names small_tree.dir_nodes
        × (prefix_digest.digest (node_bytes no_names) ≡ prefix_digest.digest (node_bytes no_names)))
dir_node_by_hash_iff_example =
    dir_node_by_hash_iff prefix_digest default_inline_data_max_bytes small_tree_bytes small_tree
      no_names (prefix_digest.digest (node_bytes no_names)) small_tree_valid
      ((two_hashes, tt), (tt, tt))

root_inode_number_iff_example :
    (root_inode_number small_tree ≡ some 1)
    ↔ ((i : Inode) × IsOnlyRoot small_tree i × (i.number ≡ 1))
root_inode_number_iff_example = root_inode_number_iff small_tree 1

root_of_small_tree : root_inode_number small_tree ≡ some 1
unfolding root_inode_number candidates is_candidate referenced is_directory type_of_mode contains
root_of_small_tree = refl

-- Without the entries the two directories are both candidates.
no_root : root_inode_number (record small_tree { dir_nodes = [] }) ≡ none
unfolding root_inode_number candidates is_candidate referenced is_directory type_of_mode contains
no_root = refl
