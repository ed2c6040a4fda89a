-- ===== src/Inode/Handles.antt =====
-- The parsers of the content of an inode against its layout.
use limnifs_py.Prelude.{
  ℕ, ◌^◌, ◌≤◌, ◌<◌, ◌≡◌, ◌⊎◌, refl, sym, ap, ◌∙◌, subst, inl, inr, Bool, true, false, ◌||◌, List,
  ◌++◌, append-nil, arith, length, flat_map, All, ◌==◌, if◌then◌else◌, ==_iff,
}
use limnifs_py.Wire.{le_bytes}
use limnifs_py.Utf8.{encode, decode_text}
use limnifs_py.Utf8.Laws.{IsScalar, decode_text_lem, decode_text_ok, decode_text_err}
use limnifs_py.Cursor.{Parser}
use limnifs_py.Cursor.Reads.{
  Reads, Reads-pure, Reads-bind, Reads-cast, Reads-raise_if, Reads-lift, Reads-read,
  Reads-read_u32_le, Reads-read_u64_le,
}
use limnifs_py.Cursor.Consumes.{
  Consumes, Consumes-pure, Consumes-bind, Consumes-if, Consumes-raise, Consumes-raise_if,
  Consumes-lift, Consumes-read, Consumes-read_u32_le, Consumes-read_u64_le,
}
use limnifs_py.Cursor.Loop.{Reads-for_each, Consumes-for_each}
use limnifs_py.Inode.{
  ContentHandleKind, inline_data, slice_map, directory, symlink, device, pipe, SliceRef,
  ContentHandle, handle, parse_inline_data, parse_slice_map, parse_directory, parse_symlink,
  parse_device, parse_pipe, parse_by_type, s_ifreg, s_ifdir, s_iflnk, s_ifblk, s_ifchr, s_ififo,
  s_ifsock,
}
use limnifs_py.Inode.Content.{
  slice_bytes, IsSlice, IsSlice-Reads, IsSlice-Consumes, kind_bytes, handle_bytes, IsKind, IsHandle,
}

-- The parser of each kind on the bytes of that kind.
inline_data-Reads :
    (max : ℕ) (bytes : List ℕ)
    → length bytes ≤ max
    → length bytes < 2 ^ 32
    → Reads
        (parse_inline_data max)
        (le_bytes 4 (length bytes) ++ bytes)
        (record (handle inline_data) { inline_bytes = bytes })
unfolding parse_inline_data
inline_data-Reads max bytes below fits = Reads-bind _ (Reads-read_u32_le _ fits) (
    Reads-bind _ (Reads-raise_if _ (ground arith))
      (Reads-cast (sym (append-nil bytes)) (Reads-bind _ (Reads-read _ bytes refl) (Reads-pure _))))

slice_map-Reads :
    (slices : List SliceRef)
    → length slices < 2 ^ 32
    → All IsSlice slices
    → Reads parse_slice_map
        (le_bytes 4 (length slices) ++ flat_map slice_bytes slices)
        (record (handle slice_map) { slices = slices })
unfolding parse_slice_map
slice_map-Reads slices fits valid = Reads-bind _ (Reads-read_u32_le _ fits) (
    Reads-cast (sym (append-nil _)) (
      Reads-bind _ (Reads-for_each IsSlice _ slice_bytes IsSlice-Reads slices valid)
        (Reads-pure _)))

directory-Reads :
    (hash : List ℕ)
    → length hash ≡ 32
    → Reads parse_directory hash (record (handle directory) { directory_hash = hash })
unfolding parse_directory
directory-Reads hash size =
    Reads-cast (sym (append-nil hash)) (Reads-bind _ (Reads-read 32 hash size) (Reads-pure _))

symlink-Reads :
    (target : List ℕ)
    → All IsScalar target
    → length (encode target) < 2 ^ 32
    → Reads parse_symlink
        (le_bytes 4 (length (encode target)) ++ encode target)
        (record (handle symlink) { symlink_target = target })
unfolding parse_symlink
symlink-Reads target text fits = Reads-bind _ (Reads-read_u32_le _ fits) (
    Reads-cast (sym (append-nil (encode target))) (
      Reads-bind _ (Reads-read _ (encode target) refl)
        (Reads-bind _ (Reads-lift (decode_text_lem target text)) (Reads-pure _))))

device-Reads :
    (number : ℕ)
    → number < 2 ^ 64
    → Reads parse_device (le_bytes 8 number) (record (handle device) { device_number = number })
unfolding parse_device
device-Reads number fits =
    Reads-cast (sym (append-nil (le_bytes 8 number)))
      (Reads-bind _ (Reads-read_u64_le number fits) (Reads-pure _))

pipe-Reads :
    (id : ℕ)
    → id < 2 ^ 64
    → Reads parse_pipe (le_bytes 8 id) (record (handle pipe) { pipe_id = id })
unfolding parse_pipe
pipe-Reads id fits =
    Reads-cast (sym (append-nil (le_bytes 8 id)))
      (Reads-bind _ (Reads-read_u64_le id fits) (Reads-pure _))

Reads-to :
    {p : Parser ContentHandle} {bs : List ℕ} {a b : ContentHandle}
    → b ≡ a
    → Reads p bs a
    → Reads p bs b
Reads-to {p} {bs} e r = subst (λ x. Reads p bs x) (sym e) r

kind-Reads :
    (kind : ContentHandleKind) (type : ℕ) (inlined : Bool) (max : ℕ) (h : ContentHandle)
    → IsKind kind type inlined max h
    → Reads (parse_by_type type inlined max) (kind_bytes kind h) h
unfolding parse_by_type
kind-Reads inline_data type inlined max h (e, t, i, below, fits) =
    rw (t, i) (Reads-to e (inline_data-Reads max h.inline_bytes below fits))
kind-Reads slice_map type inlined max h (e, t, i, fits, valid) =
    rw (t, i) (Reads-to e (slice_map-Reads h.slices fits valid))
kind-Reads directory type inlined max h (e, t, size) =
    rw t (Reads-to e (directory-Reads h.directory_hash size))
kind-Reads symlink type inlined max h (e, t, text, fits) =
    rw t (Reads-to e (symlink-Reads h.symlink_target text fits))
kind-Reads device type inlined max h (e, inl t, fits) =
    rw t (Reads-to e (device-Reads h.device_number fits))
kind-Reads device type inlined max h (e, inr t, fits) =
    rw t (Reads-to e (device-Reads h.device_number fits))
kind-Reads pipe type inlined max h (e, inl t, fits) = rw t (Reads-to e (pipe-Reads h.pipe_id fits))
kind-Reads pipe type inlined max h (e, inr t, fits) = rw t (Reads-to e (pipe-Reads h.pipe_id fits))

pub IsHandle-Reads :
    (type : ℕ) (inlined : Bool) (max : ℕ) (h : ContentHandle)
    → IsHandle type inlined max h
    → Reads (parse_by_type type inlined max) (handle_bytes h) h
IsHandle-Reads type inlined max h = kind-Reads h.kind type inlined max h

inline_data-Consumes :
    (max : ℕ)
    → Consumes (parse_inline_data max) (λ bs h. (bs ≡ handle_bytes h) × IsHandle s_ifreg true max h)
unfolding parse_inline_data
inline_data-Consumes max = Consumes-bind Consumes-read_u32_le λ bs size q.
    Consumes-raise_if _ _ tt λ below. Consumes-bind (Consumes-read size) λ bs1 bytes q1.
      Consumes-pure _ (
        simp (append-nil, q.0, q1.0, q1.1),
        (refl, refl, refl, ground (arith, q1.1), omega (arith, q1.1, q.1)),
      )

slice_map-Consumes :
    (max : ℕ)
    → Consumes parse_slice_map (λ bs h. (bs ≡ handle_bytes h) × IsHandle s_ifreg false max h)
unfolding parse_slice_map
slice_map-Consumes max = Consumes-bind Consumes-read_u32_le λ bs count q.
    Consumes-bind (Consumes-for_each IsSlice _ slice_bytes IsSlice-Consumes count) λ bs1 slices q1.
      Consumes-pure _
        (simp (append-nil, q.0, q1.0, q1.1), (refl, refl, refl, omega (arith, q1.1, q.1), q1.2))

directory-Consumes :
    (inlined : Bool) (max : ℕ)
    → Consumes parse_directory (λ bs h. (bs ≡ handle_bytes h) × IsHandle s_ifdir inlined max h)
unfolding parse_directory
directory-Consumes inlined max =
    Consumes-bind (Consumes-read 32)
      λ bs hash q. Consumes-pure _ (simp (append-nil, q.0), (refl, refl, q.1))

symlink-Consumes :
    (inlined : Bool) (max : ℕ)
    → Consumes parse_symlink (λ bs h. (bs ≡ handle_bytes h) × IsHandle s_iflnk inlined max h)
unfolding parse_symlink
symlink-Consumes inlined max = Consumes-bind Consumes-read_u32_le λ bs size q.
    Consumes-bind (Consumes-read size) λ bs1 raw q1.
      Consumes-lift (decode_text raw) (decode_text_err raw) λ target decoded.
        let (layout, text) = decode_text_ok raw target decoded in
        let fits : size ≡ length (encode target) = sym (q1.1) ∙ ap length layout in
        Consumes-pure _
          (simp (append-nil, q.0, q1.0, layout, fits), (refl, refl, text, omega (arith, q.1, fits)))

device-Consumes :
    (type : ℕ) (inlined : Bool) (max : ℕ)
    → (type ≡ s_ifblk) ⊎ (type ≡ s_ifchr)
    → Consumes parse_device (λ bs h. (bs ≡ handle_bytes h) × IsHandle type inlined max h)
unfolding parse_device
device-Consumes type inlined max t =
    Consumes-bind Consumes-read_u64_le
      λ bs number q. Consumes-pure _ (simp (append-nil, q.0), (refl, t, q.1))

pipe-Consumes :
    (type : ℕ) (inlined : Bool) (max : ℕ)
    → (type ≡ s_ififo) ⊎ (type ≡ s_ifsock)
    → Consumes parse_pipe (λ bs h. (bs ≡ handle_bytes h) × IsHandle type inlined max h)
unfolding parse_pipe
pipe-Consumes type inlined max t =
    Consumes-bind Consumes-read_u64_le
      λ bs id q. Consumes-pure _ (simp (append-nil, q.0), (refl, t, q.1))

either : (x a b : ℕ) → (x == a || x == b) ≡ true → (x ≡ a) ⊎ (x ≡ b)
either x a b h = ground arith

pub IsHandle-Consumes :
    (type : ℕ) (inlined : Bool) (max : ℕ)
    → Consumes
        (parse_by_type type inlined max)
        (λ bs h. (bs ≡ handle_bytes h) × IsHandle type inlined max h)
unfolding parse_by_type
IsHandle-Consumes type inlined max =
    Consumes-if (type == s_ifreg) (λ reg. rw ((==_iff type s_ifreg).0 reg) (regular inlined))
      λ _.
        Consumes-if (type == s_ifdir)
          (λ dir. rw ((==_iff type s_ifdir).0 dir) (directory-Consumes inlined max))
          λ _.
            Consumes-if (type == s_iflnk)
              (λ lnk. rw ((==_iff type s_iflnk).0 lnk) (symlink-Consumes inlined max))
              λ _.
                Consumes-if (type == s_ifblk || type == s_ifchr)
                  (λ dev. device-Consumes type inlined max (either type s_ifblk s_ifchr dev))
                  λ _.
                    Consumes-if (type == s_ififo || type == s_ifsock)
                      (λ fifo. pipe-Consumes type inlined max (either type s_ififo s_ifsock fifo))
                      λ _. Consumes-raise _ tt
  where
    regular :
        (inlined : Bool)
        → Consumes
            (if inlined then parse_inline_data max else parse_slice_map)
            (λ bs h. (bs ≡ handle_bytes h) × IsHandle s_ifreg inlined max h)
    regular true = inline_data-Consumes max
    regular false = slice_map-Consumes max
