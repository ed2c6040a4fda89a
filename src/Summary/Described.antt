-- ===== src/Summary/Described.antt =====
-- What the summary of a blob should be, described without the code that makes it.
use mathlib.Core.List.{Perm}
use limnifs_py.Prelude.{
  ℕ, ◌≤◌, ◌<◌, ◌≡◌, refl, ap, subst, ◌⊎◌, inl, inr, Bool, false, Option, none, some, List, [], ◌∷◌,
  arith, All, map, length,
}
use limnifs_py.DirectoryNode.{DirEntry, DirectoryNode}
use limnifs_py.DirectoryNode.Order.{text_lt, ◌≺◌}
use limnifs_py.Inode.{
  ContentHandleKind, inline_data, slice_map, directory, symlink, device, pipe, Inode,
}
use limnifs_py.Metadata.{MetadataBlob, root_inode_number}
use limnifs_py.Metadata.Root.{IsOnlyRoot, root_inode_number_iff}
use limnifs_py.Summary.{
  InodeSummary, DirNodeSummary, MetadataSummary, content_handle_kind_tag, number_below, node_below,
  summary_of_inode, first_name, summary_of_node, summary_of_blob,
}
use limnifs_py.Summary.Sorting.{
  IsSorted, sorted-perm, sorted-IsSorted, number_below-IsKeyOrder, node_below-IsKeyOrder,
}

-- The numbers of the kinds of content.
abbrev pub kind_number : ContentHandleKind → ℕ
kind_number inline_data = 1
kind_number slice_map = 2
kind_number directory = 3
kind_number symlink = 4
kind_number device = 5
kind_number pipe = 6

abbrev pub inode_row : Inode → InodeSummary
inode_row i = record { number = i.number; mode = i.mode; kind = kind_number i.content_handle.kind }

-- A node with entries has the name of the first one.
abbrev pub row_of_entries : List DirEntry → DirNodeSummary
row_of_entries [] = record { entries = 0; first = [] }
row_of_entries (e ∷ entries) = record { entries = length (e ∷ entries); first = e.name }

abbrev pub node_row : DirectoryNode → DirNodeSummary
node_row n = row_of_entries n.entries

-- By number.
abbrev pub InodesInOrder : InodeSummary → InodeSummary → Type 0
InodesInOrder a b = a.number ≤ b.number

-- By the number of entries, then by the first name.
abbrev pub NodesInOrder : DirNodeSummary → DirNodeSummary → Type 0
NodesInOrder a b =
    (a.entries < b.entries)
    ⊎ ((a.entries ≡ b.entries) × ((a.first ≡ b.first) ⊎ (a.first ≺ b.first)))

-- Every two entries of a list stand in order.
abbrev pub InOrder {ℓ} : {A : Type ℓ} → (A → A → Type 0) → List A → Type 0
InOrder rel [] = Unit
InOrder rel (x ∷ xs) = All (rel x) xs × InOrder rel xs

-- The number of the only root, where there is one.
abbrev pub IsRootNumber : MetadataBlob → Option ℕ → Type 0
IsRootNumber b none = ¬ ((i : Inode) × IsOnlyRoot b i)
IsRootNumber b (some k) = (i : Inode) × IsOnlyRoot b i × (i.number ≡ k)

-- The counts, the root, and the rows of the inodes and of the nodes in the order of their keys.
abbrev pub IsSummary : MetadataBlob → MetadataSummary → Type 0
IsSummary b s =
    (s.metadata_inode_count ≡ length b.inodes)
    × (s.metadata_dir_node_count ≡ length b.dir_nodes)
    × IsRootNumber b s.metadata_root_inode
    × Perm s.metadata_inodes (map inode_row b.inodes)
    × InOrder InodesInOrder s.metadata_inodes
    × Perm s.metadata_dir_nodes (map node_row b.dir_nodes)
    × InOrder NodesInOrder s.metadata_dir_nodes

map_same {ℓ κ} :
    {A : Type ℓ} {B : Type κ} (f g : A → B)
    → ((a : A) → f a ≡ g a)
    → (xs : List A) → map f xs ≡ map g xs
map_same f g h [] = refl
map_same f g h (x ∷ xs) = let rest = map_same f g h xs in let first = h x in cc

kind_tag : (kind : ContentHandleKind) → content_handle_kind_tag kind ≡ kind_number kind
unfolding content_handle_kind_tag
kind_tag inline_data = refl
kind_tag slice_map = refl
kind_tag directory = refl
kind_tag symlink = refl
kind_tag device = refl
kind_tag pipe = refl

same_inode_row : (i : Inode) → summary_of_inode i ≡ inode_row i
same_inode_row i =
    ap
      (λ (k : ℕ). let s : InodeSummary = record { number = i.number; mode = i.mode; kind = k } in s)
      (kind_tag i.content_handle.kind)

same_row_of_entries :
    (entries : List DirEntry)
    → record { entries = length entries; first = first_name entries } ≡ row_of_entries entries
same_row_of_entries [] = refl
same_row_of_entries (e ∷ entries) = refl

same_node_row : (n : DirectoryNode) → summary_of_node n ≡ node_row n
same_node_row n = same_row_of_entries n.entries

not_above : (a b : List ℕ) → text_lt b a ≡ false → (a ≡ b) ⊎ (a ≺ b)
unfolding text_lt
not_above [] [] h = inl refl
not_above [] (y ∷ ys) h = inr tt
not_above (x ∷ xs) [] h = cc
not_above (x ∷ xs) (y ∷ ys) h = ground (arith, not_above xs ys)

IsSorted-InOrder {ℓ} :
    {A : Type ℓ} (below : A → A → Bool) (rel : A → A → Type 0)
    → ((a b : A) → below b a ≡ false → rel a b)
    → (xs : List A) → IsSorted below xs
    → InOrder rel xs
IsSorted-InOrder below rel to [] h = tt
IsSorted-InOrder {A} below rel to (x ∷ xs) h = (all xs h.0, IsSorted-InOrder below rel to xs h.1)
  where
    all : (ys : List A) → All (λ y. below y x ≡ false) ys → All (rel x) ys
    all [] k = tt
    all (y ∷ ys) k = (to x y k.0, all ys k.1)

numbers_in_order : (a b : InodeSummary) → number_below b a ≡ false → InodesInOrder a b
numbers_in_order a b h = ground arith

nodes_in_order : (a b : DirNodeSummary) → node_below b a ≡ false → NodesInOrder a b
nodes_in_order a b h = ground (arith, not_above a.first b.first)

root-IsRootNumber : (b : MetadataBlob) (o : Option ℕ) → root_inode_number b ≡ o → IsRootNumber b o
root-IsRootNumber b none h =
    λ (i, only). cc (h, (root_inode_number_iff b i.number).1 (i, only, refl))
root-IsRootNumber b (some k) h = (root_inode_number_iff b k).0 h

pub summary_of_blob-IsSummary : (b : MetadataBlob) → IsSummary b (summary_of_blob b)
unfolding summary_of_blob
summary_of_blob-IsSummary b =
    let inodes = map summary_of_inode b.inodes in
    let nodes = map summary_of_node b.dir_nodes in
    (
      refl,
      refl,
      root-IsRootNumber b (root_inode_number b) refl,
      subst (Perm _) (map_same _ _ same_inode_row b.inodes) (sorted-perm number_below inodes),
      IsSorted-InOrder number_below InodesInOrder numbers_in_order _
          (sorted-IsSorted number_below number_below-IsKeyOrder inodes),
      subst (Perm _) (map_same _ _ same_node_row b.dir_nodes) (sorted-perm node_below nodes),
      IsSorted-InOrder node_below NodesInOrder nodes_in_order _
          (sorted-IsSorted node_below node_below-IsKeyOrder nodes),
    )
