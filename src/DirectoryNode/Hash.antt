-- ===== src/DirectoryNode/Hash.antt =====
-- limnifs/metadata.py: the hash that names a directory node.
use limnifs_py.Prelude.{
  ℕ, ◌≡◌, refl, sym, ap, ◌∙◌, Bool, true, false, Option, none, some, List, [], ◌∷◌, ◌++◌,
  append-nil, append_assoc, arith, length, flat_map, All, bytes_eq, text_eq, find_first,
  if◌then◌else◌,
}
use limnifs_py.Errors.{Result, ok, ◌>>=◌}
use limnifs_py.Wire.{le_bytes, to_bytes_le, to_bytes_le-ok, append_byte, append_byte-ok}
use limnifs_py.Utf8.{encode, encode_text}
use limnifs_py.Utf8.Texts.{encode_text_ok}
use limnifs_py.Cursor.Consumes.{Consumes, Consumes-weaken}
use limnifs_py.Merkle.{Blake3, hash_section}
use limnifs_py.DirectoryNode.{DirEntry, DirectoryNode, parse_directory_node}
use limnifs_py.DirectoryNode.Format.{
  dir_entry_bytes, node_bytes, IsDirEntry, IsNode, parse_directory_node-Decodes,
}

-- The loop over the entries appends to `out`.
unfoldable pub encode_entries : List DirEntry → List ℕ → Result (List ℕ)
encode_entries [] out = ok out
encode_entries (entry ∷ entries) out = do
  name_bytes ← encode_text entry.name
  name_len ← to_bytes_le 4 (length name_bytes)
  inode_number ← to_bytes_le 8 entry.inode_number
  out' ← append_byte (out ++ (name_len ++ (name_bytes ++ inode_number))) entry.entry_type
  encode_entries entries out'

module _ (blake3 : Blake3) where
  unfoldable pub dir_node_hash : List DirEntry → Result (List ℕ)
  dir_node_hash entries = do
    count ← to_bytes_le 4 (length entries)
    out ← encode_entries entries (1 ∷ count)
    ok (hash_section blake3 out)

  -- The loop of `dir_node_by_hash`
  unfoldable pub find_node : List ℕ → List DirectoryNode → Result (Option DirectoryNode)
  find_node hash [] = ok none
  find_node hash (node ∷ nodes) =
      let rest = find_node hash nodes in
      do
        node_hash ← dir_node_hash node.entries
        if bytes_eq node_hash hash then ok (some node) else rest

encode_entries_ok :
    (entries : List DirEntry) (out : List ℕ)
    → All IsDirEntry entries
    → encode_entries entries out ≡ ok (out ++ flat_map dir_entry_bytes entries)
unfolding encode_entries
encode_entries_ok [] out v = rw append-nil
encode_entries_ok (e ∷ entries) out v =
    rw
      (
        encode_text_ok e.name v.0.text,
        to_bytes_le-ok 4 _ v.0.fits,
        to_bytes_le-ok 8 _ v.0.number,
        append_byte-ok
            (out
              ++ (le_bytes 4 (length (encode e.name))
                  ++ (encode e.name ++ le_bytes 8 e.inode_number)))
            e.entry_type (omega (arith, v.0.highest_type)),
        encode_entries_ok entries _ v.1,
      )
      (simp append_assoc)

module _ (blake3 : Blake3) where
  -- x
  pub dir_node_hash-node_bytes :
      (n : DirectoryNode)
      → IsNode n
      → dir_node_hash blake3 n.entries ≡ ok (blake3.digest (node_bytes n))
  unfolding dir_node_hash hash_section
  dir_node_hash-node_bytes n (version, count, valid, ascending) =
      rw (to_bytes_le-ok 4 _ count, encode_entries_ok n.entries _ valid)

  -- Whatever bytes the parser of a directory node takes, the hash of the returned entries is,
  -- without an error, the digest of exactly those bytes; and on other bytes the parser raises only
  -- ParseErrors.
  pub parse_directory_node-dir_node_hash :
      Consumes parse_directory_node (λ bs n. dir_node_hash blake3 n.entries ≡ ok (blake3.digest bs))
  parse_directory_node-dir_node_hash =
      Consumes-weaken parse_directory_node-Decodes.consumes
        λ bs n (e, v). dir_node_hash-node_bytes n v ∙ ap (λ t. ok (blake3.digest t)) (sym e)

  -- x
  pub find_node-find_first :
      (hash : List ℕ) (nodes : List DirectoryNode)
      → All IsNode nodes
      → find_node blake3 hash nodes
        ≡ ok (find_first (λ (n : DirectoryNode). blake3.digest (node_bytes n)) hash nodes)
  unfolding find_node find_first
  find_node-find_first hash [] v = refl
  find_node-find_first hash (n ∷ nodes) v =
      rw (dir_node_hash-node_bytes n v.0, find_node-find_first hash nodes v.1)
        (if_ok (bytes_eq (blake3.digest (node_bytes n)) hash) (some n) _)
    where
      if_ok :
          (b : Bool) (x y : Option DirectoryNode)
          → (if b then ok x else ok y) ≡ ok (if b then x else y)
      if_ok true x y = refl
      if_ok false x y = refl
