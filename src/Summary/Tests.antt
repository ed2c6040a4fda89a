-- ===== src/Summary/Tests.antt =====
-- The summary of a small tree, with its inodes out of order.
use limnifs_py.Prelude.{◌≡◌, refl, some, [], ◌∷◌, ◌++◌, contains}
use limnifs_py.Errors.{ok}
use limnifs_py.Inode.{is_directory, type_of_mode}
use limnifs_py.DirectoryNode.Order.{text_lt}
use limnifs_py.Metadata.{root_inode_number, candidates, is_candidate, referenced}
use limnifs_py.Metadata.Tests.{small_tree, small_tree_bytes, small_tree_valid}
use limnifs_py.Summary.{
  MetadataSummary, sorted, insert, summary_of_blob, metadata_summary, content_handle_kind_tag,
}
use limnifs_py.Summary.Described.{IsSummary}
use limnifs_py.Summary.Blob.{metadata_summary-BlobBytes}

metadata_summary-BlobBytes_example :
    (s : MetadataSummary) × (metadata_summary (small_tree_bytes ++ (9 ∷ [])) ≡ ok s)
    × IsSummary small_tree s
metadata_summary-BlobBytes_example =
    metadata_summary-BlobBytes small_tree small_tree_bytes (9 ∷ []) small_tree_valid

abbrev small_tree_summary : MetadataSummary
small_tree_summary = record {
  metadata_inode_count = 3;
  metadata_dir_node_count = 2;
  metadata_root_inode = some 1;
  metadata_inodes =
      record { number = 1; mode = 0x41ed; kind = 3 }
      ∷ record { number = 2; mode = 0x81a4; kind = 1 }
      ∷ record { number = 3; mode = 0x41ed; kind = 3 }
      ∷ [];
  metadata_dir_nodes =
      record { entries = 0; first = [] } ∷ record { entries = 2; first = b'a' ∷ [] } ∷ [];
}

summary_of_small_tree : summary_of_blob small_tree ≡ small_tree_summary
unfolding summary_of_blob sorted insert content_handle_kind_tag root_inode_number candidates
    is_candidate referenced is_directory type_of_mode contains text_lt
summary_of_small_tree = refl
