-- ===== src/Metadata/Root.antt =====
-- The root of a metadata blob.
use limnifs_py.Prelude.{
  ℕ, ◌≡◌, ◌≢◌, ◌↔◌, refl, sym, ap, ◌∙◌, inl, inr, true, false, not, some, List, [], ◌∷◌, ◌++◌, map,
  arith, All, NotIn, contains→NotIn, NotIn→contains, nat_eq, Bool-cases, All-append,
  All-append_left, All-append_right,
}
use limnifs_py.DirectoryNode.{DirEntry, DirectoryNode}
use limnifs_py.Inode.{Inode, is_directory}
use limnifs_py.Metadata.{
  MetadataBlob, referenced, is_candidate, candidates, only, root_inode_number,
}

-- A directory that no entry of a node refers to.
abbrev pub IsRoot : List DirectoryNode → Inode → Type 0
IsRoot nodes i =
    (is_directory i ≡ true)
    × All (λ (n : DirectoryNode). All (λ (e : DirEntry). e.inode_number ≢ i.number) n.entries) nodes

-- It is one of the inodes, and none of the others is another.
abbrev pub IsOnlyRoot : MetadataBlob → Inode → Type 0
IsOnlyRoot b i =
    (before : List Inode) × (after : List Inode) × (b.inodes ≡ before ++ i ∷ after)
    × IsRoot b.dir_nodes i
    × All (λ j. ¬ IsRoot b.dir_nodes j) before
    × All (λ j. ¬ IsRoot b.dir_nodes j) after

entries-NotIn :
    (entries : List DirEntry) (k : ℕ)
    → NotIn (map (λ (e : DirEntry). e.inode_number) entries) k
      ↔ All (λ (e : DirEntry). e.inode_number ≢ k) entries
entries-NotIn [] k = ((λ h. h), (λ h. h))
entries-NotIn (e ∷ entries) k =
    let (to, from) = entries-NotIn entries k in ((λ h. (h.0, to h.1)), (λ h. (h.0, from h.1)))

referenced-NotIn :
    (nodes : List DirectoryNode) (k : ℕ)
    → NotIn (referenced nodes) k
      ↔ All (λ (n : DirectoryNode). All (λ (e : DirEntry). e.inode_number ≢ k) n.entries) nodes
unfolding referenced
referenced-NotIn [] k = ((λ h. tt), (λ h. tt))
referenced-NotIn (n ∷ nodes) k =
    let numbers = map (λ (e : DirEntry). e.inode_number) n.entries in
    let (to, from) = entries-NotIn n.entries k in
    let (to_all, from_all) = referenced-NotIn nodes k in
    (
      (λ h. (
        to (All-append_left _ numbers (referenced nodes) h),
        to_all (All-append_right _ numbers (referenced nodes) h),
      )),
      (λ h. All-append _ numbers (referenced nodes) (from h.0) (from_all h.1)),
    )

is_candidate_iff :
    (nodes : List DirectoryNode) (i : Inode)
    → (is_candidate (referenced nodes) i ≡ true) ↔ IsRoot nodes i
unfolding is_candidate
is_candidate_iff nodes i =
    let (to, from) = referenced-NotIn nodes i.number in
    (
      (λ h. (ground arith, to (contains→NotIn i.number (referenced nodes) (ground arith)))),
      (λ r.
          let fresh = NotIn→contains i.number (referenced nodes) (from r.1) in
          ground (arith, r.0, fresh)),
    )

not_candidate :
    (nodes : List DirectoryNode) (i : Inode)
    → is_candidate (referenced nodes) i ≡ false
    → ¬ IsRoot nodes i
not_candidate nodes i h r = cc (h, (is_candidate_iff nodes i).1 r)

module _ (nodes : List DirectoryNode) where
  abbrev found : List Inode → List ℕ
  found = candidates (referenced nodes)

  abbrev NoRoot : List Inode → Type 0
  NoRoot inodes = All (λ j. ¬ IsRoot nodes j) inodes

  found-root :
      (i : Inode) (inodes : List Inode)
      → IsRoot nodes i
      → found (i ∷ inodes) ≡ i.number ∷ found inodes
  unfolding candidates
  found-root i inodes r = rw ((is_candidate_iff nodes i).1 r)

  found-other :
      (i : Inode) (inodes : List Inode)
      → is_candidate (referenced nodes) i ≡ false
      → found (i ∷ inodes) ≡ found inodes
  unfolding candidates
  found-other i inodes h = rw h

  none_found : (inodes : List Inode) → found inodes ≡ [] → NoRoot inodes
  none_found [] h = tt
  none_found (i ∷ inodes) h = elim (Bool-cases (is_candidate (referenced nodes) i)) [
    | inl is ↦ cc (h, found-root i inodes ((is_candidate_iff nodes i).0 is))
    | inr not ↦ (not_candidate nodes i not, none_found inodes (sym (found-other i inodes not) ∙ h))
  ]

  found-NoRoot : (inodes : List Inode) → NoRoot inodes → found inodes ≡ []
  unfolding candidates
  found-NoRoot [] h = refl
  found-NoRoot (i ∷ inodes) h = elim (Bool-cases (is_candidate (referenced nodes) i)) [
    | inl is ↦ absurd (h.0 ((is_candidate_iff nodes i).0 is))
    | inr not ↦ found-other i inodes not ∙ found-NoRoot inodes h.1
  ]

  found-only :
      (before after : List Inode) (i : Inode)
      → NoRoot before
      → IsRoot nodes i
      → NoRoot after
      → found (before ++ i ∷ after) ≡ i.number ∷ []
  found-only [] after i b r a = found-root i after r ∙ ap (λ t. i.number ∷ t) (found-NoRoot after a)
  found-only (j ∷ before) after i b r a = elim (Bool-cases (is_candidate (referenced nodes) j)) [
    | inl is ↦ absurd (b.0 ((is_candidate_iff nodes j).0 is))
    | inr not ↦ found-other j (before ++ i ∷ after) not ∙ found-only before after i b.1 r a
  ]

  only_found :
      (inodes : List Inode) (k : ℕ)
      → found inodes ≡ k ∷ []
      → (i : Inode) × (before : List Inode) × (after : List Inode) × (inodes ≡ before ++ i ∷ after)
        × (i.number ≡ k)
        × IsRoot nodes i
        × NoRoot before
        × NoRoot after
  unfolding candidates
  only_found [] k h = cc
  only_found (i ∷ inodes) k h = elim (Bool-cases (is_candidate (referenced nodes) i)) [
    | inl is ↦
        let r = (is_candidate_iff nodes i).0 is in
        let e : i.number ∷ found inodes ≡ k ∷ [] = sym (found-root i inodes r) ∙ h in
        (i, [], inodes, refl, cc, r, tt, none_found inodes cc)
    | inr not ↦
        let (j, before, after, e, number, r, b, a) =
          only_found inodes k (sym (found-other i inodes not) ∙ h) in
        (j, i ∷ before, after, ap (λ t. i ∷ t) e, number, r, (not_candidate nodes i not, b), a)
  ]

only-some : (numbers : List ℕ) (k : ℕ) → only numbers ≡ some k → numbers ≡ k ∷ []
only-some [] k h = cc
only-some (n ∷ []) k h = cc
only-some (n ∷ m ∷ numbers) k h = cc

-- The root of a blob has a number exactly if the blob has an inode with that number that is a
-- directory to which no entry of a directory node refers, and no other inode of the blob is such a
-- directory.
pub root_inode_number_iff :
    (b : MetadataBlob) (k : ℕ)
    → (root_inode_number b ≡ some k) ↔ ((i : Inode) × IsOnlyRoot b i × (i.number ≡ k))
unfolding root_inode_number
root_inode_number_iff b k = (
  (λ h.
      let (i, before, after, e, number, r, x, y) =
        only_found b.dir_nodes b.inodes k (only-some _ k h) in
      (i, (before, after, e, r, x, y), number)),
  (λ (i, (before, after, e, r, x, y), number).
      ap (λ inodes. only (candidates (referenced b.dir_nodes) inodes)) e
      ∙ (ap only (found-only b.dir_nodes before after i x r y) ∙ ap some number)),
)
