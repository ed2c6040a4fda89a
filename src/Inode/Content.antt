-- ===== src/Inode/Content.antt =====
-- The content of an inode against its layout, by the type of the file.
use limnifs_py.Prelude.{
  ℕ, ◌^◌, ◌≤◌, ◌<◌, ◌≡◌, ◌⊎◌, sym, Bool, true, false, List, ◌++◌, append-nil, arith, length,
  flat_map, All,
}
use limnifs_py.Wire.{le_bytes}
use limnifs_py.Utf8.{encode}
use limnifs_py.Utf8.Laws.{IsScalar}
use limnifs_py.Cursor.Reads.{
  Reads, Reads-pure, Reads-bind, Reads-cast, Reads-raise_if, Reads-lift, Reads-read,
  Reads-read_u32_le, Reads-read_u64_le,
}
use limnifs_py.Cursor.Consumes.{
  Consumes, Consumes-pure, Consumes-bind, Consumes-raise_if, Consumes-lift_ok, Consumes-read,
  Consumes-read_u32_le, Consumes-read_u64_le,
}
use limnifs_py.FormatTypes.Laws.{IsDropId, make_drop_id_lem, make_drop_id_bytes}
use limnifs_py.Inode.{
  ContentHandleKind, inline_data, slice_map, directory, symlink, device, pipe, SliceRef,
  ContentHandle, handle, parse_slice, s_ifreg, s_ifdir, s_iflnk, s_ifblk, s_ifchr, s_ififo,
  s_ifsock,
}

-- A range of the file, the drop, a range of the drop.
abbrev pub slice_bytes : SliceRef → List ℕ
slice_bytes s =
    le_bytes 8 s.file_byte_start
    ++ (le_bytes 8 s.file_byte_end
        ++ (s.drop_id.bytes ++ (le_bytes 4 s.drop_byte_start ++ le_bytes 4 s.drop_byte_len)))

-- The range in the file is not empty.
pub record IsSlice (s : SliceRef) : Type 0 where
  pub start : s.file_byte_start < s.file_byte_end
  pub end : s.file_byte_end < 2 ^ 64
  pub id : IsDropId s.drop_id
  pub drop_start : s.drop_byte_start < 2 ^ 32
  pub drop_len : s.drop_byte_len < 2 ^ 32

abbrev pub kind_bytes : ContentHandleKind → ContentHandle → List ℕ
kind_bytes inline_data h = le_bytes 4 (length h.inline_bytes) ++ h.inline_bytes
kind_bytes slice_map h = le_bytes 4 (length h.slices) ++ flat_map slice_bytes h.slices
kind_bytes directory h = h.directory_hash
kind_bytes symlink h = le_bytes 4 (length (encode h.symlink_target)) ++ encode h.symlink_target
kind_bytes device h = le_bytes 8 h.device_number
kind_bytes pipe h = le_bytes 8 h.pipe_id

abbrev pub handle_bytes : ContentHandle → List ℕ
handle_bytes h = kind_bytes h.kind h

-- The kind is that of the file's type, and of a regular file's flag for inline data. A field of
-- another kind has its default.
abbrev pub IsKind : ContentHandleKind → ℕ → Bool → ℕ → ContentHandle → Type 0
IsKind inline_data type inlined max h =
    (h ≡ record (handle inline_data) { inline_bytes = h.inline_bytes })
    × (type ≡ s_ifreg)
    × (inlined ≡ true)
    × (length h.inline_bytes ≤ max)
    × (length h.inline_bytes < 2 ^ 32)
IsKind slice_map type inlined max h =
    (h ≡ record (handle slice_map) { slices = h.slices })
    × (type ≡ s_ifreg)
    × (inlined ≡ false)
    × (length h.slices < 2 ^ 32)
    × All IsSlice h.slices
IsKind directory type inlined max h =
    (h ≡ record (handle directory) { directory_hash = h.directory_hash })
    × (type ≡ s_ifdir)
    × (length h.directory_hash ≡ 32)
IsKind symlink type inlined max h =
    (h ≡ record (handle symlink) { symlink_target = h.symlink_target })
    × (type ≡ s_iflnk)
    × All IsScalar h.symlink_target
    × (length (encode h.symlink_target) < 2 ^ 32)
IsKind device type inlined max h =
    (h ≡ record (handle device) { device_number = h.device_number })
    × ((type ≡ s_ifblk) ⊎ (type ≡ s_ifchr))
    × (h.device_number < 2 ^ 64)
IsKind pipe type inlined max h =
    (h ≡ record (handle pipe) { pipe_id = h.pipe_id })
    × ((type ≡ s_ififo) ⊎ (type ≡ s_ifsock))
    × (h.pipe_id < 2 ^ 64)

abbrev pub IsHandle : ℕ → Bool → ℕ → ContentHandle → Type 0
IsHandle type inlined max h = IsKind h.kind type inlined max h

pub IsSlice-Reads : (s : SliceRef) → IsSlice s → Reads parse_slice (slice_bytes s) s
unfolding parse_slice
IsSlice-Reads s v =
    Reads-bind _ (Reads-read_u64_le s.file_byte_start (omega (arith, v.start, v.end))) (
      Reads-bind _ (Reads-read_u64_le s.file_byte_end v.end) (
        Reads-bind _ (Reads-raise_if _ (ground (arith, v.start))) (
          Reads-bind _ (Reads-read 32 s.drop_id.bytes v.id) (
            Reads-bind _ (Reads-lift (make_drop_id_lem s.drop_id v.id)) (
              Reads-bind _ (Reads-read_u32_le s.drop_byte_start v.drop_start) (
                Reads-cast (sym (append-nil (le_bytes 4 s.drop_byte_len)))
                  (Reads-bind _ (Reads-read_u32_le s.drop_byte_len v.drop_len) (Reads-pure s))))))))

pub IsSlice-Consumes : Consumes parse_slice (λ bs s. (bs ≡ slice_bytes s) × IsSlice s)
unfolding parse_slice
IsSlice-Consumes = Consumes-bind Consumes-read_u64_le λ bs start q.
    Consumes-bind Consumes-read_u64_le λ bs1 end q1. Consumes-raise_if _ _ tt λ nonempty.
      Consumes-bind (Consumes-read 32) λ bs2 id q2.
        Consumes-lift_ok _ (make_drop_id_bytes id q2.1) (
          Consumes-bind Consumes-read_u32_le λ bs3 drop_start q3.
            Consumes-bind Consumes-read_u32_le λ bs4 drop_len q4. Consumes-pure _ (
              simp (append-nil, q.0, q1.0, q2.0, q3.0, q4.0),
              record {
                start = ground arith;
                end = q1.1;
                id = q2.1;
                drop_start = q3.1;
                drop_len = q4.1;
              },
            ))
