-- ===== src/Inode/Format.antt =====
-- The inode record against its layout.
use limnifs_py.Prelude.{ℕ, ◌^◌, ◌<◌, ◌≡◌, sym, ap, ◌∙◌, Bool, List, ◌∷◌, ◌++◌, append-nil, nat_eq}
use limnifs_py.Wire.{le_bytes}
use limnifs_py.Cursor.Reads.{
  Reads, Reads-pure, Reads-bind, Reads-cast, Reads-raise_if, Reads-read_u8, Reads-read_u32_le,
  Reads-read_u64_le,
}
use limnifs_py.Cursor.Consumes.{
  Consumes, Consumes-pure, Consumes-bind, Consumes-raise_if, Consumes-read_u8, Consumes-read_u32_le,
  Consumes-read_u64_le,
}
use limnifs_py.Cursor.Recognises.{Recognises}
use limnifs_py.Inode.{Inode, file_type, type_of_mode, has_bits, parse_content_handle, parse_inode}
use limnifs_py.Inode.Flags.{
  flags_byte, flags_byte-lt, flags_byte-reserved, flags_byte-bits, flags_byte-of_bits,
}
use limnifs_py.Inode.Content.{handle_bytes, IsHandle}
use limnifs_py.Inode.Handles.{IsHandle-Reads, IsHandle-Consumes}
use limnifs_py.Inode.Attributes.{
  is_some, xattrs_bytes, IsXattrs, atime_bytes, IsAtime, xattrs-Reads, xattrs-Consumes, atime-Reads,
  atime-Consumes,
}

-- `listed` is the flag of the attributes, `inlined` that of inline data.
abbrev pub inode_bytes : Bool → Bool → Inode → List ℕ
inode_bytes listed inlined i =
    le_bytes 8 i.number
    ++ (le_bytes 4 i.mode
        ++ (le_bytes 4 i.uid
            ++ (le_bytes 4 i.gid
                ++ (le_bytes 8 i.mtime_ns
                    ++ (le_bytes 8 i.ctime_ns
                        ++ (le_bytes 4 i.nlink
                            ++ (flags_byte (is_some i.atime_ns) listed inlined
                                ∷ (atime_bytes i.atime_ns
                                    ++ (xattrs_bytes listed i.xattrs
                                        ++ handle_bytes i.content_handle)))))))))

pub record IsInode (max : ℕ) (listed inlined : Bool) (i : Inode) : Type 0 where
  pub number : i.number < 2 ^ 64
  pub mode : i.mode < 2 ^ 32
  pub uid : i.uid < 2 ^ 32
  pub gid : i.gid < 2 ^ 32
  pub mtime : i.mtime_ns < 2 ^ 64
  pub ctime : i.ctime_ns < 2 ^ 64
  pub nlink : i.nlink < 2 ^ 32
  pub atime : IsAtime i.atime_ns
  pub xattrs : IsXattrs listed i.xattrs
  pub content : IsHandle (file_type i) inlined max i.content_handle

-- An encoding of an inode chooses the two flags.
abbrev pub InodeBytes : ℕ → List ℕ → Inode → Type 0
InodeBytes max bs i =
    (listed : Bool) × (inlined : Bool) × (bs ≡ inode_bytes listed inlined i)
    × IsInode max listed inlined i

parse-Reads :
    (max : ℕ) (listed inlined : Bool) (i : Inode)
    → IsInode max listed inlined i
    → Reads (parse_inode max) (inode_bytes listed inlined i) i
unfolding parse_inode parse_content_handle
parse-Reads max listed inlined i v =
    let (atime, xattrs, inline) = flags_byte-bits (is_some i.atime_ns) listed inlined in
    Reads-bind _ (Reads-read_u64_le i.number v.number) (
      Reads-bind _ (Reads-read_u32_le i.mode v.mode) (
        Reads-bind _ (Reads-read_u32_le i.uid v.uid) (
          Reads-bind _ (Reads-read_u32_le i.gid v.gid) (
            Reads-bind _ (Reads-read_u64_le i.mtime_ns v.mtime) (
              Reads-bind _ (Reads-read_u64_le i.ctime_ns v.ctime) (
                Reads-bind _ (Reads-read_u32_le i.nlink v.nlink) (
                  Reads-bind _ (Reads-read_u8 _ (flags_byte-lt (is_some i.atime_ns) listed inlined))
                    (Reads-bind _
                      (Reads-raise_if _ (flags_byte-reserved (is_some i.atime_ns) listed inlined))
                      (rw (atime, xattrs, inline)
                        (Reads-bind _ (atime-Reads i.atime_ns v.atime) (
                          Reads-bind _ (xattrs-Reads listed i.xattrs v.xattrs) (
                            Reads-cast (sym (append-nil (handle_bytes i.content_handle))) (
                              Reads-bind _ (IsHandle-Reads _ inlined max i.content_handle v.content)
                                (Reads-pure i))))))))))))))

parse-Consumes : (max : ℕ) → Consumes (parse_inode max) (InodeBytes max)
unfolding parse_inode parse_content_handle
parse-Consumes max = Consumes-bind Consumes-read_u64_le λ bs number q.
    Consumes-bind Consumes-read_u32_le λ bs1 mode q1.
      Consumes-bind Consumes-read_u32_le λ bs2 uid q2.
        Consumes-bind Consumes-read_u32_le λ bs3 gid q3.
          Consumes-bind Consumes-read_u64_le λ bs4 mtime q4.
            Consumes-bind Consumes-read_u64_le λ bs5 ctime q5.
              Consumes-bind Consumes-read_u32_le λ bs6 nlink q6.
                Consumes-bind Consumes-read_u8 λ bs7 flags q7. Consumes-raise_if _ _ tt λ free.
                  Consumes-bind (atime-Consumes _) λ bs8 atime q8.
                    Consumes-bind (xattrs-Consumes _) λ bs9 xattrs q9.
                      Consumes-bind (IsHandle-Consumes (type_of_mode mode) _ max)
                        λ bs10 content q10.
                          let byte : flags
                              ≡ flags_byte (is_some atime) (has_bits flags 2) (has_bits flags 4) =
                            flags_byte-of_bits flags q7.1 free
                            ∙ ap (λ b. flags_byte b (has_bits flags 2) (has_bits flags 4))
                                (sym q8.2) in
                          Consumes-pure _ (
                            has_bits flags 2,
                            has_bits flags 4,
                            simp (
                              append-nil,
                              q.0,
                              q1.0,
                              q2.0,
                              q3.0,
                              q4.0,
                              q5.0,
                              q6.0,
                              q7.0,
                              ← byte,
                              q8.0,
                              q9.0,
                              q10.0,
                            ),
                            record {
                              number = q.1;
                              mode = q1.1;
                              uid = q2.1;
                              gid = q3.1;
                              mtime = q4.1;
                              ctime = q5.1;
                              nlink = q6.1;
                              atime = q8.1;
                              xattrs = q9.1;
                              content = q10.1;
                            },
                          )

-- For every ceiling on inline data, the parser of an inode returns the inode from every encoding
-- of it, which may set the flag of the attributes where there are none and the flag of inline data
-- on what is no regular file; it accepts nothing else, raises a TruncatedError on every input that
-- ends inside an encoding, and raises only ParseErrors. In a valid inode every number fits its
-- width, every attribute has a namespace up to 3 and a key that is a text without surrogates and
-- NUL, the ranges of a slice map are not empty, inline data is within the ceiling, and the content
-- is of the kind that the type of the file asks for.
pub parse_inode-Recognises : (max : ℕ) → Recognises (parse_inode max) (InodeBytes max)
parse_inode-Recognises max = record {
  reads = λ bs i (listed, inlined, e, v). Reads-cast e (parse-Reads max listed inlined i v);
  consumes = parse-Consumes max;
}
