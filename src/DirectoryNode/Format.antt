-- ===== src/DirectoryNode/Format.antt =====
-- The directory node against its layout.
use limnifs_py.Prelude.{
  ℕ, ◌^◌, ◌≤◌, ◌<◌, ◌≡◌, refl, sym, ap, ◌∙◌, true, false, not, Option, none, some, List, [], ◌∷◌,
  ◌++◌, map, append-nil, arith, length, flat_map, All, NotIn, Distinct, is_empty, contains,
  contains→NotIn, NotIn→contains, nat_eq, ne-guard,
}
use limnifs_py.Wire.{le_bytes}
use limnifs_py.Utf8.{encode, decode_text}
use limnifs_py.Utf8.Laws.{IsScalar, decode_text_lem, decode_text_ok, decode_text_err}
use limnifs_py.Utf8.Texts.{contains-encode, is_empty-encode}
use limnifs_py.Cursor.Reads.{
  Reads, Reads-pure, Reads-bind, Reads-cast, Reads-raise_if, Reads-lift, Reads-read, Reads-read_u8,
  Reads-read_u32_le, Reads-read_u64_le,
}
use limnifs_py.Cursor.Consumes.{
  Consumes-weaken, Consumes, Consumes-pure, Consumes-bind, Consumes-raise_if, Consumes-lift,
  Consumes-read, Consumes-read_u8, Consumes-read_u32_le, Consumes-read_u64_le,
}
use limnifs_py.Cursor.Decodes.{Decodes}
use limnifs_py.Cursor.Loop.{Reads-for_range, Consumes-for_range}
use limnifs_py.DirectoryNode.{
  DirEntry, DirectoryNode, is_valid_type, not_after, parse_dir_entry, parse_directory_node,
  directory_node_version,
}
use limnifs_py.DirectoryNode.Order.{text_lt_iff}
use limnifs_py.DirectoryNode.Names.{
  IsAscending, After, InOrder, EachFrom-IsAscending, IsAscending-Distinct, name_key,
}

-- The name with its length, the inode's number, the type.
abbrev pub dir_entry_bytes : DirEntry → List ℕ
dir_entry_bytes e =
    le_bytes 4 (length (encode e.name))
    ++ (encode e.name ++ (le_bytes 8 e.inode_number ++ (e.entry_type ∷ [])))

-- The version, the number of entries, the entries.
abbrev pub node_bytes : DirectoryNode → List ℕ
node_bytes n =
    directory_node_version ∷ (le_bytes 4 (length n.entries) ++ flat_map dir_entry_bytes n.entries)

-- A name is not empty and has neither a slash nor NUL; the type is one of four.
pub record IsDirEntry (e : DirEntry) : Type 0 where
  pub text : All IsScalar e.name
  pub named : is_empty e.name ≡ false
  pub fits : length (encode e.name) < 2 ^ 32
  pub no_slash : NotIn e.name b'/'
  pub no_nul : NotIn e.name 0
  pub number : e.inode_number < 2 ^ 64
  pub lowest_type : 1 ≤ e.entry_type
  pub highest_type : e.entry_type ≤ 4

abbrev pub IsNode : DirectoryNode → Type 0
IsNode n =
    (n.version ≡ directory_node_version)
    × (length n.entries < 2 ^ 32)
    × All IsDirEntry n.entries
    × IsAscending n.entries

is_valid_type_lem : (t : ℕ) → 1 ≤ t → t ≤ 4 → is_valid_type t ≡ true
unfolding is_valid_type
is_valid_type_lem t h k = ground arith

is_valid_type_bounds : (t : ℕ) → not (is_valid_type t) ≡ false → (1 ≤ t) × (t ≤ 4)
unfolding is_valid_type
is_valid_type_bounds t h = ground arith

After-guard :
    (prev : Option (List ℕ)) (name : List ℕ) → After prev name → not_after prev name ≡ false
After-guard none name h = refl
After-guard (some prev) name h = ground (arith, text_lt_iff prev name)

guard-After :
    (prev : Option (List ℕ)) (name : List ℕ) → not_after prev name ≡ false → After prev name
guard-After none name h = tt
guard-After (some prev) name h = (text_lt_iff prev name).0 (ground arith)

absent_from_bytes :
    (c : ℕ) (name : List ℕ) → c < 0x80 → NotIn name c → contains c (encode name) ≡ false
absent_from_bytes c name h n = contains-encode c name h ∙ NotIn→contains c name n

absent_from_name :
    (c : ℕ) (name : List ℕ) → c < 0x80 → contains c (encode name) ≡ false → NotIn name c
absent_from_name c name h n = contains→NotIn c name (sym (contains-encode c name h) ∙ n)

entry-Reads :
    (prev : Option (List ℕ)) (e : DirEntry)
    → InOrder IsDirEntry prev e
    → Reads (parse_dir_entry prev) (dir_entry_bytes e) e
unfolding parse_dir_entry
entry-Reads prev e (v, after) = Reads-bind _ (Reads-read_u32_le _ v.fits) (
    Reads-bind _ (Reads-read _ (encode e.name) refl) (
      Reads-bind _ (Reads-raise_if _ (is_empty-encode e.name ∙ v.named)) (
        Reads-bind _ (Reads-raise_if _ (absent_from_bytes b'/' e.name (omega arith) v.no_slash)) (
          Reads-bind _ (Reads-raise_if _ (absent_from_bytes 0 e.name (omega arith) v.no_nul)) (
            Reads-bind _ (Reads-lift (decode_text_lem e.name v.text)) (
              Reads-bind _ (Reads-raise_if _ (After-guard prev e.name after)) (
                Reads-bind _ (Reads-read_u64_le _ v.number) (
                  Reads-bind _ (Reads-read_u8 e.entry_type (omega (arith, v.highest_type))) (
                    Reads-bind _
                      (Reads-raise_if _
                        (ap not (is_valid_type_lem e.entry_type v.lowest_type v.highest_type)))
                      (Reads-pure e))))))))))

entry-Consumes :
    (prev : Option (List ℕ))
    → Consumes (parse_dir_entry prev) (λ bs e. (bs ≡ dir_entry_bytes e) × InOrder IsDirEntry prev e)
unfolding parse_dir_entry
entry-Consumes prev = Consumes-bind Consumes-read_u32_le λ bs name_len q.
    Consumes-bind (Consumes-read name_len) λ bs1 raw q1. Consumes-raise_if _ _ tt λ named.
      Consumes-raise_if _ _ tt λ no_slash. Consumes-raise_if _ _ tt λ no_nul.
        Consumes-lift (decode_text raw) (decode_text_err raw) λ name decoded.
          let (layout, text) = decode_text_ok raw name decoded in
          let size : name_len ≡ length (encode name) = sym (q1.1) ∙ ap length layout in
          Consumes-raise_if _ _ tt λ after. Consumes-bind Consumes-read_u64_le λ bs2 number q2.
            Consumes-bind Consumes-read_u8 λ bs3 type q3. Consumes-raise_if _ _ tt λ known.
              let (lowest, highest) = is_valid_type_bounds type known in
              Consumes-pure _ (
                simp (append-nil, q.0, q1.0, layout, size, q2.0, q3.0),
                (
                  record {
                    text = text;
                    named = sym (is_empty-encode name) ∙ (ap is_empty (sym layout) ∙ named);
                    fits = omega (arith, q.1, size);
                    no_slash =
                        absent_from_name b'/' name (omega arith)
                          (ap (contains b'/') (sym layout) ∙ no_slash);
                    no_nul =
                        absent_from_name 0 name (omega arith)
                          (ap (contains 0) (sym layout) ∙ no_nul);
                    number = q2.1;
                    lowest_type = lowest;
                    highest_type = highest;
                  },
                  guard-After prev name after,
                ),
              )

parse-Reads : (n : DirectoryNode) → IsNode n → Reads parse_directory_node (node_bytes n) n
unfolding parse_directory_node
parse-Reads n (version, count, valid, ascending) =
    Reads-bind _ (Reads-read_u8 directory_node_version (omega arith)) (
      Reads-bind _ (Reads-raise_if _ refl) (
        Reads-bind _ (Reads-read_u32_le _ count) (
          Reads-cast (sym (append-nil _)) (
            Reads-bind _
              (Reads-for_range _ _ dir_entry_bytes (InOrder IsDirEntry) entry-Reads none n.entries
                ((EachFrom-IsAscending IsDirEntry n.entries).1 (valid, ascending)))
              (rw (← version) (Reads-pure n))))))

parse-Consumes : Consumes parse_directory_node (λ bs n. (bs ≡ node_bytes n) × IsNode n)
unfolding parse_directory_node
parse-Consumes = Consumes-bind Consumes-read_u8 λ bs version q.
    Consumes-raise_if _ _ tt λ supported. Consumes-bind Consumes-read_u32_le λ bs1 count q1.
      Consumes-bind
        (Consumes-for_range _ _ dir_entry_bytes (InOrder IsDirEntry) entry-Consumes count none)
        λ bs2 entries q2.
          let (valid, ascending) = (EachFrom-IsAscending IsDirEntry entries).0 q2.2 in
          Consumes-pure _ (
            simp (append-nil, q.0, q1.0, q2.0, q2.1, ne-guard _ _ supported),
            (ne-guard _ _ supported, omega (arith, q1.1, q2.1), valid, ascending),
          )

-- The parser of a directory node inverts the layout on the nodes of version 1 with fewer than 2^32
-- valid entries in ascending order of their names, accepts nothing else, raises a TruncatedError
-- on every input that ends inside such a node, and raises only ParseErrors. In a valid entry the
-- name is a text without surrogates, slashes and NUL, not empty and of fewer than 2^32 UTF-8
-- bytes, the inode number is below 2^64 and the type is from 1 to 4.
pub parse_directory_node-Decodes : Decodes parse_directory_node node_bytes IsNode
parse_directory_node-Decodes = record { reads = parse-Reads; consumes = parse-Consumes }

-- In a directory node that was parsed no name stands twice.
pub parse_directory_node-Distinct :
    Consumes parse_directory_node (λ bs n. Distinct (map name_key n.entries))
parse_directory_node-Distinct =
    Consumes-weaken parse-Consumes λ bs n (e, v). IsAscending-Distinct n.entries v.3
