-- ===== src/SlabReader/Lookup.antt =====
-- `find_record` and `plaintext_for` on the view of a well-formed slab.
use limnifs_py.Prelude.{
  ℕ, ◌+◌, ◌-◌, ◌≤◌, ◌≡◌, ◌≢◌, suc, Bool, if◌then◌else◌, refl, ap, ◌⊎◌, inl, inr, true, false, some,
  List, [], ◌∷◌, ◌++◌, append_assoc, arith, length, length-append, drop, take-append, drop-append,
  All, ltb, ◌!=◌, bytes_eq, bytes_eq_iff, Bool-cases, Option-cases,
}
use limnifs_py.Errors.{Error, Result, ok, err, corrupt, unsupported}
use limnifs_py.Cursor.{slice}
use limnifs_py.SlabHeader.{SlabHeader}
use limnifs_py.SlabHeader.Format.{slab_header_bytes}
use limnifs_py.DropRecord.{DropRecord}
use limnifs_py.Codec.{Lz4, compress, decompress, decompress-compress, decompress_err}
use limnifs_py.SlabReader.{
  SlabView, Answer, plaintext, failed, missing, parse_slab, find_in, find_record, catch_decompress,
  plaintext_of, plaintext_for,
}
use limnifs_py.SlabReader.Layout.{records_bytes, slab_bytes, IsSlab}
use limnifs_py.SlabReader.Parse.{view_of, parse_slab-slab_bytes}

-- `r` is the first of the records with this identifier.
abbrev pub IsFirst : List ℕ → DropRecord → List DropRecord → Type 0
IsFirst drop_id r records =
    (earlier : List DropRecord) × (later : List DropRecord) × (records ≡ earlier ++ r ∷ later)
    × All (λ x. x.drop_id.bytes ≢ drop_id) earlier
    × (r.drop_id.bytes ≡ drop_id)

find_in-first :
    (drop_id : List ℕ) (r : DropRecord) (earlier later : List DropRecord)
    → All (λ x. x.drop_id.bytes ≢ drop_id) earlier
    → r.drop_id.bytes ≡ drop_id
    → find_in drop_id (earlier ++ r ∷ later) ≡ some r
unfolding find_in
find_in-first drop_id r [] later other same = rw ((bytes_eq_iff r.drop_id.bytes drop_id).1 same)
find_in-first drop_id r (x ∷ earlier) later other same =
    elim (Bool-cases (bytes_eq x.drop_id.bytes drop_id)) [
      | inl e ↦ absurd (other.0 ((bytes_eq_iff x.drop_id.bytes drop_id).0 e))
      | inr e ↦ rw e (find_in-first drop_id r earlier later other.1 same)
    ]

drop-append_add : (front xs : List ℕ) (a : ℕ) → drop (length front + a) (front ++ xs) ≡ drop a xs
drop-append_add [] xs a = let e : 0 + a ≡ a = omega arith in rw e
drop-append_add (x ∷ front) xs a =
    let e : suc (length front) + a ≡ suc (length front + a) = omega arith in
    rw e (drop-append_add front xs a)

-- A cut that starts behind `front` is a cut of what follows.
slice-append_right :
    (front xs : List ℕ) (a n : ℕ)
    → slice (front ++ xs) (length front + a) (length front + a + n) ≡ slice xs a (a + n)
slice-append_right front xs a n =
    let width : length front + a + n - (length front + a) ≡ a + n - a = omega arith in
    rw (width, drop-append_add front xs a)

-- The call raised nothing.
abbrev pub IsOk : Result Answer → Type 0
IsOk r = (a : Answer) × (r ≡ ok a)

IsOk-if : (b : Bool) {x y : Result Answer} → IsOk x → IsOk y → IsOk (if b then x else y)
IsOk-if true p q = p
IsOk-if false p q = q

IsOk-catch :
    (r : Result (List ℕ))
    → ((e : Error) → r ≡ err e → (e ≡ corrupt) ⊎ (e ≡ unsupported))
    → IsOk (catch_decompress r)
unfolding catch_decompress
IsOk-catch (ok p) h = (plaintext p, refl)
IsOk-catch (err e) h = elim (h e refl) [
  | inl p ↦ (failed corrupt, rw p)
  | inr p ↦ (failed unsupported, rw p)
]

module _ (lz4 : Lz4) where
  IsOk-plaintext_of : (view : SlabView) (r : DropRecord) → IsOk (plaintext_of lz4 view r)
  unfolding plaintext_of
  IsOk-plaintext_of view r =
      IsOk-if (r.representation.aead != 0x00) (failed unsupported, refl)
        (IsOk-if (r.solid_window_index != 0) (failed unsupported, refl)
          (IsOk-if _ (failed corrupt, refl)
            (IsOk-catch _ (decompress_err lz4 r.representation.codec _ r.plaintext_len))))

  -- `plaintext_for` returns an answer for every view and identifier: it raises nothing.
  pub plaintext_for-total :
      (view : SlabView) (drop_id : List ℕ) → IsOk (plaintext_for lz4 view drop_id)
  unfolding plaintext_for
  plaintext_for-total view drop_id = elim (Option-cases (find_record view drop_id)) [
    | inl e ↦ (missing, rw (plaintext_for, e))
    | inr (r, e) ↦ rw (plaintext_for, e) (IsOk-plaintext_of view r)
  ]

module _ (lz4 : Lz4) (h : SlabHeader) (records : List DropRecord) (window : List ℕ) (r : DropRecord)
    (plain : r.representation.aead ≡ 0) (first_window : r.solid_window_index ≡ 0) where
  -- The bytes that are decompressed are those of the record's range in the window.
  plaintext_of_range :
      r.offset_in_window + r.len_in_window ≤ length window
      → plaintext_of lz4 (view_of h records window) r
        ≡ catch_decompress (
            decompress lz4 r.representation.codec
              (slice window r.offset_in_window (r.offset_in_window + r.len_in_window))
              r.plaintext_len)
  unfolding plaintext_of
  plaintext_of_range fits =
      let front = slab_header_bytes h ++ records_bytes records in
      let whole = append_assoc (slab_header_bytes h) (records_bytes records) window in
      let inside : ltb (length (slab_bytes h records window))
            (length front + r.offset_in_window + r.len_in_window)
          ≡ false =
        ground (arith, ap length whole, length-append front window) in
      let a : (r.representation.aead != 0x00) ≡ false = ground arith in
      let b : (r.solid_window_index != 0) ≡ false = ground arith in
      rw (a, b, inside, ← whole, slice-append_right front window r.offset_in_window r.len_in_window)

pub find_record-first :
    (h : SlabHeader) (records : List DropRecord) (window : List ℕ) (drop_id : List ℕ)
    (r : DropRecord)
    → IsFirst drop_id r records
    → find_record (view_of h records window) drop_id ≡ some r
unfolding find_record
find_record-first h records window drop_id r (earlier, later, e, other, same) =
    rw e (find_in-first drop_id r earlier later other same)

slice-middle :
    (xs ys zs : List ℕ) → slice (xs ++ (ys ++ zs)) (length xs) (length xs + length ys) ≡ ys
slice-middle xs ys zs =
    let width : length xs + length ys - length xs ≡ length ys = omega arith in
    rw (drop-append xs (ys ++ zs), width, take-append ys zs)

-- A drop that was compressed and stored in a well-formed slab is read back: if a record is the
-- first with its identifier, is plain, in window 0, and points at what `compress` returned for a
-- plaintext of the stated length, then the slab parses and `plaintext_for` returns the plaintext.
pub plaintext_for-stored :
    (lz4 : Lz4) (h : SlabHeader) (records : List DropRecord) (front stored back : List ℕ)
    (p drop_id : List ℕ) (r : DropRecord)
    → IsSlab h records (front ++ (stored ++ back))
    → IsFirst drop_id r records
    → r.representation.aead ≡ 0
    → r.solid_window_index ≡ 0
    → r.offset_in_window ≡ length front
    → r.len_in_window ≡ length stored
    → r.plaintext_len ≡ length p
    → compress lz4 r.representation.codec p ≡ ok stored
    → (view : SlabView) × (parse_slab (slab_bytes h records (front ++ (stored ++ back))) ≡ ok view)
      × (plaintext_for lz4 view drop_id ≡ ok (plaintext p))
unfolding plaintext_for
plaintext_for-stored lz4 h records front stored back p drop_id r v first plain window offset len
      size c =
    let inside : r.offset_in_window + r.len_in_window ≤ length (front ++ (stored ++ back)) =
      omega (arith, length-append front (stored ++ back), length-append stored back) in
    (
      view_of h records (front ++ (stored ++ back)),
      parse_slab-slab_bytes h records (front ++ (stored ++ back)) v,
      rw
          (
            plaintext_for,
            find_record-first h records (front ++ (stored ++ back)) drop_id r first,
            plaintext_of_range lz4 h records (front ++ (stored ++ back)) r plain window inside,
            offset,
            len,
            size,
            slice-middle front stored back,
            decompress-compress lz4 r.representation.codec p stored c,
          )
          (unfold catch_decompress in refl),
    )
