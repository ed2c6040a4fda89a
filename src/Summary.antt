-- ===== src/Summary.antt =====
-- limnifs/cli.py: `_metadata_summary`, what the report says of an inlined metadata blob.
pub mod Sorting
pub mod Described
pub mod Blob
pub mod Inline
mod Tests
use limnifs_py.Prelude.{
  ℕ, Bool, Option, none, some, List, [], ◌∷◌, ◌&&◌, ◌||◌, map, length, ltb, ◌==◌, if◌then◌else◌,
}
use limnifs_py.Errors.{Error, Result, ok, err, truncated, bad_magic, corrupt, unsupported, map_ok}
use limnifs_py.Cursor.{make_cursor}
use limnifs_py.DirectoryNode.{DirEntry, DirectoryNode}
use limnifs_py.DirectoryNode.Order.{text_lt}
use limnifs_py.Inode.{
  ContentHandleKind, inline_data, slice_map, directory, symlink, device, pipe, Inode,
  default_inline_data_max_bytes,
}
use limnifs_py.Metadata.{MetadataBlob, root_inode_number, parse_metadata_blob}
use limnifs_py.SlabReader.{with_cursor}

-- `_content_handle_kind_tag`
unfoldable pub content_handle_kind_tag : ContentHandleKind → ℕ
content_handle_kind_tag inline_data = 1
content_handle_kind_tag slice_map = 2
content_handle_kind_tag directory = 3
content_handle_kind_tag symlink = 4
content_handle_kind_tag device = 5
content_handle_kind_tag pipe = 6

pub record InodeSummary : Type 0 where
  pub number : ℕ
  pub mode : ℕ
  pub kind : ℕ

pub record DirNodeSummary : Type 0 where
  pub entries : ℕ
  pub first : List ℕ

pub record MetadataSummary : Type 0 where
  pub metadata_inode_count : ℕ
  pub metadata_dir_node_count : ℕ
  pub metadata_root_inode : Option ℕ
  pub metadata_inodes : List InodeSummary
  pub metadata_dir_nodes : List DirNodeSummary

-- Python's `sorted`, which is stable; `below a b` says that the key of `a` is smaller.
module _ {ℓ} {A : Type ℓ} (below : A → A → Bool) where
  unfoldable pub insert : A → List A → List A
  insert a [] = a ∷ []
  insert a (x ∷ xs) = let rest = insert a xs in if below x a then x ∷ rest else a ∷ (x ∷ xs)

  unfoldable pub sorted : List A → List A
  unfolding insert
  sorted [] = []
  sorted (x ∷ xs) = insert x (sorted xs)

-- `key=lambda d: d["number"]`
abbrev pub number_below : InodeSummary → InodeSummary → Bool
number_below a b = ltb a.number b.number

-- `key=lambda d: (d["entries"], d["first"])`
abbrev pub node_below : DirNodeSummary → DirNodeSummary → Bool
node_below a b = ltb a.entries b.entries || ((a.entries == b.entries) && text_lt a.first b.first)

abbrev pub summary_of_inode : Inode → InodeSummary
summary_of_inode i = record {
  number = i.number;
  mode = i.mode;
  kind = content_handle_kind_tag i.content_handle.kind;
}

-- `n.entries[0].name if n.entries else ""`
abbrev pub first_name : List DirEntry → List ℕ
first_name [] = []
first_name (e ∷ entries) = e.name

abbrev pub summary_of_node : DirectoryNode → DirNodeSummary
summary_of_node n = record { entries = length n.entries; first = first_name n.entries }

unfoldable pub summary_of_blob : MetadataBlob → MetadataSummary
summary_of_blob blob = record {
  metadata_inode_count = length blob.inodes;
  metadata_dir_node_count = length blob.dir_nodes;
  metadata_root_inode = root_inode_number blob;
  metadata_inodes = sorted number_below (map summary_of_inode blob.inodes);
  metadata_dir_nodes = sorted node_below (map summary_of_node blob.dir_nodes);
}

-- `_metadata_summary`
unfoldable pub metadata_summary : List ℕ → Result MetadataSummary
metadata_summary blob_bytes =
    map_ok summary_of_blob
      (with_cursor (parse_metadata_blob default_inline_data_max_bytes) (make_cursor blob_bytes 0))

-- `except ParseError: pass`
unfoldable pub catch_parse_error : Result MetadataSummary → Result (Option MetadataSummary)
catch_parse_error (ok summary) = ok (some summary)
catch_parse_error (err (truncated have need)) = ok none
catch_parse_error (err (bad_magic found expected)) = ok none
catch_parse_error (err corrupt) = ok none
catch_parse_error (err unsupported) = ok none
catch_parse_error (err e) = err e

-- `if metadata_reference.is_inlined and metadata_reference.inline_metadata: …`; `none` where the
-- report is not updated.
unfoldable pub inline_summary : Option (List ℕ) → Result (Option MetadataSummary)
inline_summary none = ok none
inline_summary (some []) = ok none
inline_summary (some (b ∷ bytes)) = catch_parse_error (metadata_summary (b ∷ bytes))
