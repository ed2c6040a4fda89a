-- ===== src/Metadata/Format.antt =====
-- The metadata blob against its layout.
use limnifs_py.Prelude.{ℕ, ◌^◌, ◌<◌, ◌≡◌, sym, List, ◌++◌, append-nil, arith, length, flat_map, All}
use limnifs_py.Wire.{le_bytes}
use limnifs_py.Cursor.Reads.{Reads, Reads-pure, Reads-bind, Reads-cast, Reads-read_u32_le}
use limnifs_py.Cursor.Consumes.{Consumes, Consumes-pure, Consumes-bind, Consumes-read_u32_le}
use limnifs_py.Cursor.Loop.{Reads-for_each, Consumes-for_each}
use limnifs_py.Cursor.Recognises.{Recognises, Each, Reads-for_each_of, Consumes-for_each_of}
use limnifs_py.DirectoryNode.Format.{node_bytes, IsNode, parse_directory_node-Decodes}
use limnifs_py.Inode.{parse_inode}
use limnifs_py.Inode.Format.{InodeBytes, parse_inode-Recognises}
use limnifs_py.Metadata.{MetadataBlob, parse_metadata_blob}

-- The inodes stand in encodings of their own, `bytes` in all; the nodes have one each.
pub record BlobBytes (max : ℕ) (bs : List ℕ) (b : MetadataBlob) : Type 0 where
  pub bytes : List ℕ
  pub layout :
      bs
      ≡ le_bytes 4 (length b.inodes)
        ++ (bytes ++ (le_bytes 4 (length b.dir_nodes) ++ flat_map node_bytes b.dir_nodes))
  pub inodes : Each (InodeBytes max) bytes b.inodes
  pub inode_count : length b.inodes < 2 ^ 32
  pub dir_nodes : All IsNode b.dir_nodes
  pub dir_node_count : length b.dir_nodes < 2 ^ 32

blob-Reads :
    (max : ℕ) (bs : List ℕ) (b : MetadataBlob)
    → BlobBytes max bs b
    → Reads (parse_metadata_blob max) bs b
unfolding parse_metadata_blob
blob-Reads max bs b v = Reads-cast v.layout (
    Reads-bind _ (Reads-read_u32_le _ v.inode_count) (
      Reads-bind _
        (Reads-for_each_of (parse_inode max) (InodeBytes max) (parse_inode-Recognises max) b.inodes
          v.bytes v.inodes)
        (Reads-bind _ (Reads-read_u32_le _ v.dir_node_count) (
          Reads-cast (sym (append-nil _)) (
            Reads-bind _
              (Reads-for_each IsNode _ node_bytes parse_directory_node-Decodes.reads b.dir_nodes
                v.dir_nodes)
              (Reads-pure b))))))

blob-Consumes : (max : ℕ) → Consumes (parse_metadata_blob max) (BlobBytes max)
unfolding parse_metadata_blob
blob-Consumes max = Consumes-bind Consumes-read_u32_le λ bs count q.
    Consumes-bind
      (Consumes-for_each_of (parse_inode max) (InodeBytes max) (parse_inode-Recognises max) count)
      λ bs1 inodes q1. Consumes-bind Consumes-read_u32_le λ bs2 node_count q2.
        Consumes-bind
          (Consumes-for_each IsNode _ node_bytes parse_directory_node-Decodes.consumes node_count)
          λ bs3 nodes q3. Consumes-pure _ (record {
            bytes = bs1;
            layout = simp (append-nil, q.0, q1.1, q2.0, q3.0, q3.1);
            inodes = q1.0;
            inode_count = omega (arith, q.1, q1.1);
            dir_nodes = q3.2;
            dir_node_count = omega (arith, q2.1, q3.1);
          })

-- For every ceiling on inline data, the parser of the metadata blob accepts exactly the blobs of
-- the format, fewer than 2^32 inodes, each in one of its encodings, and fewer than 2^32 valid
-- directory nodes: it returns the blob from every encoding of it, accepts nothing else, raises a
-- TruncatedError on every input that ends inside one, and raises only ParseErrors.
pub parse_metadata_blob-Recognises :
    (max : ℕ) → Recognises (parse_metadata_blob max) (BlobBytes max)
parse_metadata_blob-Recognises max = record { reads = blob-Reads max; consumes = blob-Consumes max }
