-- ===== src/Metadata.antt =====
-- limnifs/metadata.py: the metadata blob, all inodes and all directory nodes of an image.
pub mod Format
pub mod Lookup
pub mod Root
pub mod Tests
use limnifs_py.Prelude.{
  ℕ, Bool, ◌&&◌, ◌||◌, not, Option, none, some, List, [], ◌∷◌, map, flat_map, contains, find_first,
  is_empty, nat_eq, if◌then◌else◌,
}
use limnifs_py.Errors.{Result}
use limnifs_py.Cursor.{Parser, pure, ◌>>=◌, read_u32_le}
use limnifs_py.Cursor.Loop.{for_each}
use limnifs_py.DirectoryNode.{DirEntry, DirectoryNode, parse_directory_node}
use limnifs_py.DirectoryNode.Hash.{find_node}
use limnifs_py.Inode.{Inode, is_directory, parse_inode}
use limnifs_py.Merkle.{Blake3}

pub record MetadataBlob : Type 0 where
  pub inodes : List Inode
  pub dir_nodes : List DirectoryNode

-- `__bool__`
unfoldable pub is_truthy : MetadataBlob → Bool
is_truthy blob = not (is_empty blob.inodes) || not (is_empty blob.dir_nodes)

unfoldable pub inode_by_number : MetadataBlob → ℕ → Option Inode
inode_by_number blob number = find_first (λ (i : Inode). i.number) number blob.inodes

module _ (blake3 : Blake3) where
  unfoldable pub dir_node_by_hash : MetadataBlob → List ℕ → Result (Option DirectoryNode)
  dir_node_by_hash blob hash = find_node blake3 hash blob.dir_nodes

-- The set that the two loops fill, as the list of what they add.
unfoldable pub referenced : List DirectoryNode → List ℕ
referenced = flat_map (λ (n : DirectoryNode). map (λ (e : DirEntry). e.inode_number) n.entries)

-- `i.is_directory and i.number not in referenced`
unfoldable pub is_candidate : List ℕ → Inode → Bool
is_candidate seen i = is_directory i && not (contains i.number seen)

unfoldable pub candidates : List ℕ → List Inode → List ℕ
candidates seen [] = []
candidates seen (i ∷ inodes) =
    let rest = candidates seen inodes in if is_candidate seen i then i.number ∷ rest else rest

-- `if len(candidates) == 1: return candidates[0]`, else `None`
abbrev pub only : List ℕ → Option ℕ
only (number ∷ []) = some number
only _ = none

unfoldable pub root_inode_number : MetadataBlob → Option ℕ
unfolding candidates
root_inode_number blob = only (candidates (referenced blob.dir_nodes) blob.inodes)

-- The argument is `max_inline_bytes`.
unfoldable pub parse_metadata_blob : ℕ → Parser MetadataBlob
parse_metadata_blob max_inline_bytes = do
  inode_count ← read_u32_le
  inodes ← for_each (parse_inode max_inline_bytes) inode_count
  dir_node_count ← read_u32_le
  dir_nodes ← for_each parse_directory_node dir_node_count
  pure (record { inodes = inodes; dir_nodes = dir_nodes })
