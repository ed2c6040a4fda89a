-- ===== src/DeltaLinkage/Format.antt =====
-- The section of a delta against its layout.
use limnifs_py.Prelude.{
  ℕ, ◌*◌, ◌^◌, ◌≤◌, ◌<◌, ◌≡◌, ◌≢◌, refl, sym, ap, ◌∙◌, true, Option, none, some, List, [], ◌∷◌,
  ◌++◌, append-nil, arith, length, length-append, flat_map, length-flat_map-ge, All, contains→NotIn,
  NotIn→contains, NotIn, nat_eq, ne-guard,
}
use limnifs_py.Errors.{Error, ok, err, unsupported, IsParseError, IsParseError-eq}
use limnifs_py.Wire.{le_bytes, length-le_bytes}
use limnifs_py.Utf8.{encode, decode_text}
use limnifs_py.Utf8.Laws.{IsScalar, decode_text_lem, decode_text_ok, decode_text_err}
use limnifs_py.Cursor.Reads.{
  Reads, Reads-pure, Reads-bind, Reads-cast, Reads-raise_if, Reads-lift, Reads-check_remaining,
  Reads-read, Reads-read_u8, Reads-read_u32_le, Reads-read_u64_le,
}
use limnifs_py.Cursor.Consumes.{
  Consumes, Consumes-pure, Consumes-bind, Consumes-raise_if, Consumes-lift, Consumes-lift_ok,
  Consumes-check_remaining, Consumes-read, Consumes-read_u8, Consumes-read_u32_le,
  Consumes-read_u64_le,
}
use limnifs_py.Cursor.Decodes.{Decodes}
use limnifs_py.Cursor.Loop.{Reads-for_each, Consumes-for_each}
use limnifs_py.FormatTypes.Laws.{IsManifestRoot, make_manifest_root_lem, make_manifest_root_bytes}
use limnifs_py.DeltaLinkage.Paths.{NoEmptyComponent, double_slash_iff}
use limnifs_py.DeltaLinkage.{
  TreeOpKind, add, remove, replace, TreeOp, DeltaLinkage, has_inode_number, known_kind,
  parse_inode_number, parse_tree_op, parse_delta_linkage_section, delta_linkage_section_version,
  min_tree_op_len,
}

-- The values of the enumeration.
abbrev pub kind_byte : TreeOpKind → ℕ
kind_byte add = 1
kind_byte remove = 2
kind_byte replace = 3

abbrev pub inode_bytes : Option ℕ → List ℕ
inode_bytes none = []
inode_bytes (some number) = le_bytes 8 number

-- The kind, the path with its length, the number of the inode if there is one.
abbrev pub tree_op_bytes : TreeOp → List ℕ
tree_op_bytes op =
    kind_byte op.kind
    ∷ (le_bytes 4 (length (encode op.path)) ++ (encode op.path ++ inode_bytes op.inode_number))

abbrev pub delta_bytes : DeltaLinkage → List ℕ
delta_bytes d =
    delta_linkage_section_version
    ∷ (d.base_root.bytes ++ (le_bytes 4 (length d.tree_ops) ++ flat_map tree_op_bytes d.tree_ops))

-- A removal has no number; all else has one that fits.
abbrev pub IsInodeOf : TreeOpKind → Option ℕ → Type 0
IsInodeOf add none = ⊥
IsInodeOf add (some number) = number < 2 ^ 64
IsInodeOf remove none = Unit
IsInodeOf remove (some number) = ⊥
IsInodeOf replace none = ⊥
IsInodeOf replace (some number) = number < 2 ^ 64

pub record IsTreeOp (op : TreeOp) : Type 0 where
  pub text : All IsScalar op.path
  pub some_path : length (encode op.path) ≢ 0
  pub fits : length (encode op.path) < 2 ^ 32
  pub no_nul : NotIn op.path 0
  pub no_empty_component : NoEmptyComponent op.path
  pub inode : IsInodeOf op.kind op.inode_number

abbrev pub IsDelta : DeltaLinkage → Type 0
IsDelta d = IsManifestRoot d.base_root × (length d.tree_ops < 2 ^ 32) × All IsTreeOp d.tree_ops

kind_byte-lt : (kind : TreeOpKind) → kind_byte kind < 256
kind_byte-lt kind = ground arith

known_kind_lem : (kind : TreeOpKind) → known_kind (kind_byte kind) ≡ ok kind
unfolding known_kind
known_kind_lem kind = ground arith

known_kind_ok : (byte : ℕ) (kind : TreeOpKind) → known_kind byte ≡ ok kind → byte ≡ kind_byte kind
unfolding known_kind
known_kind_ok byte kind h = ground arith

known_kind_err : (byte : ℕ) (e : Error) → known_kind byte ≡ err e → IsParseError e
unfolding known_kind
known_kind_err byte e h = IsParseError-eq {e' = unsupported} (ground arith) tt

read_number-Reads :
    (number : ℕ)
    → number < 2 ^ 64
    → Reads (parse_inode_number true) (inode_bytes (some number)) (some number)
unfolding parse_inode_number
read_number-Reads number h =
    Reads-cast (sym (append-nil (le_bytes 8 number)))
      (Reads-bind _ (Reads-read_u64_le number h) (Reads-pure (some number)))

IsInodeOf-Reads :
    (kind : TreeOpKind) (o : Option ℕ)
    → IsInodeOf kind o
    → Reads (parse_inode_number (has_inode_number kind)) (inode_bytes o) o
unfolding parse_inode_number
IsInodeOf-Reads add (some number) h = read_number-Reads number h
IsInodeOf-Reads add none h = absurd h
IsInodeOf-Reads remove (some number) h = absurd h
IsInodeOf-Reads remove none h = Reads-pure none
IsInodeOf-Reads replace (some number) h = read_number-Reads number h
IsInodeOf-Reads replace none h = absurd h

IsInodeOf-Consumes :
    (kind : TreeOpKind)
    → Consumes
        (parse_inode_number (has_inode_number kind))
        (λ bs o. (bs ≡ inode_bytes o) × IsInodeOf kind o)
unfolding parse_inode_number
IsInodeOf-Consumes add =
    Consumes-bind Consumes-read_u64_le
      λ bs number q. Consumes-pure (some number) (append-nil bs ∙ q.0, q.1)
IsInodeOf-Consumes remove = Consumes-pure none (refl, tt)
IsInodeOf-Consumes replace =
    Consumes-bind Consumes-read_u64_le
      λ bs number q. Consumes-pure (some number) (append-nil bs ∙ q.0, q.1)

IsTreeOp-Reads : (op : TreeOp) → IsTreeOp op → Reads parse_tree_op (tree_op_bytes op) op
unfolding parse_tree_op
IsTreeOp-Reads op v = Reads-bind _ (Reads-read_u8 (kind_byte op.kind) (kind_byte-lt op.kind)) (
    Reads-bind _ (Reads-lift (known_kind_lem op.kind)) (
      Reads-bind _ (Reads-read_u32_le _ v.fits) (
        Reads-bind _ (Reads-raise_if _ (ground (arith, v.some_path))) (
          Reads-bind _ (Reads-read _ (encode op.path) refl) (
            Reads-bind _ (Reads-lift (decode_text_lem op.path v.text)) (
              Reads-bind _ (Reads-raise_if _ (NotIn→contains 0 op.path v.no_nul)) (
                Reads-bind _ (Reads-raise_if _ ((double_slash_iff op.path).1 v.no_empty_component))
                  (Reads-cast (sym (append-nil (inode_bytes op.inode_number))) (
                    Reads-bind _ (IsInodeOf-Reads op.kind op.inode_number v.inode)
                      (Reads-pure op))))))))))

IsTreeOp-Consumes : Consumes parse_tree_op (λ bs op. (bs ≡ tree_op_bytes op) × IsTreeOp op)
unfolding parse_tree_op
IsTreeOp-Consumes = Consumes-bind Consumes-read_u8 λ bs byte q.
    Consumes-lift (known_kind byte) (known_kind_err byte) λ kind known.
      Consumes-bind Consumes-read_u32_le λ bs1 len q1. Consumes-raise_if _ _ tt λ some_path.
        Consumes-bind (Consumes-read len) λ bs2 raw q2.
          Consumes-lift (decode_text raw) (decode_text_err raw) λ path decoded.
            let (layout, text) = decode_text_ok raw path decoded in
            let size : len ≡ length (encode path) = sym (q2.1) ∙ ap length layout in
            Consumes-raise_if _ _ tt λ no_nul. Consumes-raise_if _ _ tt λ no_empty_component.
              Consumes-bind (IsInodeOf-Consumes kind) λ bs3 number q3. Consumes-pure _ (
                simp (
                  append-nil,
                  q.0,
                  known_kind_ok byte kind known,
                  q1.0,
                  q2.0,
                  layout,
                  size,
                  q3.0,
                ),
                record {
                  text = text;
                  some_path = ground (arith, size);
                  fits = omega (arith, q1.1, size);
                  no_nul = contains→NotIn 0 path no_nul;
                  no_empty_component = (double_slash_iff path).0 no_empty_component;
                  inode = q3.1;
                },
              )

entries_size :
    (ops : List TreeOp)
    → All IsTreeOp ops
    → length ops * min_tree_op_len ≤ length (flat_map tree_op_bytes ops)
entries_size = length-flat_map-ge tree_op_bytes min_tree_op_len IsTreeOp λ op v.
    let tail = encode op.path ++ inode_bytes op.inode_number in
    omega (
      arith,
      v.some_path,
      length-append (le_bytes 4 (length (encode op.path))) tail,
      length-append (encode op.path) (inode_bytes op.inode_number),
      length-le_bytes 4 (length (encode op.path)),
    )

parse-Reads : (d : DeltaLinkage) → IsDelta d → Reads parse_delta_linkage_section (delta_bytes d) d
unfolding parse_delta_linkage_section
parse-Reads d (root, count, valid) =
    Reads-bind _ (Reads-read_u8 delta_linkage_section_version (omega arith)) (
      Reads-bind _ (Reads-raise_if _ refl) (
        Reads-bind _ (Reads-read 32 d.base_root.bytes root) (
          Reads-bind _ (Reads-lift (make_manifest_root_lem d.base_root root)) (
            Reads-bind _ (Reads-read_u32_le _ count) (
              Reads-check_remaining (length d.tree_ops * min_tree_op_len) _
                (entries_size d.tree_ops valid)
                (Reads-cast (sym (append-nil _)) (
                  Reads-bind _
                    (Reads-for_each IsTreeOp _ tree_op_bytes IsTreeOp-Reads d.tree_ops valid)
                    (Reads-pure d))))))))

parse-Consumes : Consumes parse_delta_linkage_section (λ bs d. (bs ≡ delta_bytes d) × IsDelta d)
unfolding parse_delta_linkage_section
parse-Consumes = Consumes-bind Consumes-read_u8 λ bs version q.
    Consumes-raise_if _ _ tt λ supported. Consumes-bind (Consumes-read 32) λ bs1 root q1.
      Consumes-lift_ok _ (make_manifest_root_bytes root q1.1) (
        Consumes-bind Consumes-read_u32_le λ bs2 count q2. Consumes-check_remaining _ (
          Consumes-bind (Consumes-for_each IsTreeOp _ tree_op_bytes IsTreeOp-Consumes count)
            λ bs3 ops q3. Consumes-pure _ (
              simp (append-nil, q.0, q1.0, q2.0, q3.0, q3.1, ne-guard _ _ supported),
              (q1.1, omega (arith, q2.1, q3.1), q3.2),
            )))

-- The parser of the section of a delta inverts the layout on the deltas with a base root of 32
-- bytes and fewer than 2^32 valid operations, accepts nothing else, raises a TruncatedError on
-- every input that ends inside such a section, and raises only ParseErrors. In a valid operation
-- the path is a text without surrogates, NUL and empty components inside, its UTF-8 bytes are not
-- empty and fewer than 2^32, and there is an inode number, below 2^64, exactly if the operation is
-- no removal.
pub parse_delta_linkage_section-Decodes : Decodes parse_delta_linkage_section delta_bytes IsDelta
parse_delta_linkage_section-Decodes = record { reads = parse-Reads; consumes = parse-Consumes }
