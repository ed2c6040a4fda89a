-- ===== src/Metadata/Lookup.antt =====
-- The nodes of a parsed blob under the hashes of their bytes.
use limnifs_py.Prelude.{ℕ, ◌≡◌, ◌↔◌, ap, some, List, map, find_first_iff, In, Distinct, text_eq}
use limnifs_py.Errors.{ok, ok-injective}
use limnifs_py.DirectoryNode.{DirectoryNode}
use limnifs_py.DirectoryNode.Format.{node_bytes}
use limnifs_py.DirectoryNode.Hash.{find_node-find_first}
use limnifs_py.Merkle.{Blake3}
use limnifs_py.Metadata.{MetadataBlob, dir_node_by_hash}
use limnifs_py.Metadata.Format.{BlobBytes}

module _ (blake3 : Blake3) where
  abbrev pub node_hash : DirectoryNode → List ℕ
  node_hash n = blake3.digest (node_bytes n)

  -- In a blob of the format whose directory nodes have distinct hashes, a lookup by a hash returns
  -- a node exactly if the node is one of the blob's and the hash is the digest of its bytes.
  pub dir_node_by_hash_iff :
      (max : ℕ) (bs : List ℕ) (b : MetadataBlob) (n : DirectoryNode) (hash : List ℕ)
      → BlobBytes max bs b
      → Distinct (map node_hash b.dir_nodes)
      → (dir_node_by_hash blake3 b hash ≡ ok (some n))
        ↔ (In n b.dir_nodes × (blake3.digest (node_bytes n) ≡ hash))
  unfolding dir_node_by_hash
  dir_node_by_hash_iff max bs b n hash v d =
      let lookup = find_node-find_first blake3 hash b.dir_nodes v.dir_nodes in
      let (to, from) = find_first_iff node_hash b.dir_nodes hash n d in
      rw lookup ((λ h. to (ok-injective h)), (λ m. ap ok (from m)))
