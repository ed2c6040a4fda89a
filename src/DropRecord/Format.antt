-- ===== src/DropRecord/Format.antt =====
-- The drop record against its layout.
use limnifs_py.Prelude.{
  ℕ, ◌^◌, ◌≤◌, ◌<◌, ◌≡◌, refl, sym, List, ◌∷◌, ◌++◌, append-nil, arith, length, length-append, ◌==◌,
  ◌!=◌, ◌&&◌, false,
}
use limnifs_py.Wire.{le_bytes, length-le_bytes}
use limnifs_py.Cursor.Reads.{
  Reads, Reads-pure, Reads-bind, Reads-cast, Reads-raise_if, Reads-lift, Reads-read, Reads-read_u8,
  Reads-read_u32_le,
}
use limnifs_py.Cursor.Consumes.{
  Consumes, Consumes-pure, Consumes-bind, Consumes-raise_if, Consumes-lift_ok, Consumes-read,
  Consumes-read_u8, Consumes-read_u32_le,
}
use limnifs_py.Cursor.Decodes.{Decodes}
use limnifs_py.FormatTypes.{representation_to_bytes}
use limnifs_py.FormatTypes.Laws.{
  IsDropId, IsRepresentation, make_drop_id_lem, make_drop_id_bytes, representation_from_bytes_lem,
  representation_from_bytes_bytes,
}
use limnifs_py.SlabHeader.{SlabHeader}
use limnifs_py.DropRecord.{DropRecord, drop_record_len, parse_drop_record}

-- Drop identifier, plaintext length, representation, window index, offset, length.
abbrev pub drop_record_bytes : DropRecord → List ℕ
drop_record_bytes d =
    d.drop_id.bytes
    ++ (le_bytes 4 d.plaintext_len
        ++ (representation_to_bytes d.representation
            ++ (d.solid_window_index
                ∷ (le_bytes 4 d.offset_in_window ++ le_bytes 4 d.len_in_window))))

-- In a plaintext slab nothing is sealed, in a slab without erasure coding nothing is coded. The
-- end of the range, offset + length, has no bound.
pub record IsDropRecord (slab : SlabHeader) (max_plaintext : ℕ) (d : DropRecord) : Type 0 where
  pub id : IsDropId d.drop_id
  pub below_ceiling : d.plaintext_len ≤ max_plaintext
  pub fits : d.plaintext_len < 2 ^ 32
  pub rep : IsRepresentation d.representation
  pub plain : slab.crypto_hint ≡ 0 → d.representation.aead ≡ 0
  pub no_ec : slab.ec_descriptor ≡ 0 → d.representation.ec ≡ 0
  pub window : d.solid_window_index < 256
  pub offset : d.offset_in_window < 2 ^ 32
  pub len : d.len_in_window < 2 ^ 32

pub length-drop_record_bytes :
    (d : DropRecord) → IsDropId d.drop_id → length (drop_record_bytes d) ≡ drop_record_len
length-drop_record_bytes d h =
    let tail = le_bytes 4 d.offset_in_window ++ le_bytes 4 d.len_in_window in
    let rest = representation_to_bytes d.representation ++ (d.solid_window_index ∷ tail) in
    omega (
      arith,
      length-append d.drop_id.bytes (le_bytes 4 d.plaintext_len ++ rest),
      length-append (le_bytes 4 d.plaintext_len) rest,
      length-append (le_bytes 4 d.offset_in_window) (le_bytes 4 d.len_in_window),
      length-le_bytes 4 d.plaintext_len,
      length-le_bytes 4 d.offset_in_window,
      length-le_bytes 4 d.len_in_window,
    )

-- A guard `if a == 0 and b != 0: raise …` passes exactly if `a ≡ 0` gives `b ≡ 0`.
zero_implies-guard : (a b : ℕ) → (a ≡ 0 → b ≡ 0) → (a == 0 && b != 0) ≡ false
zero_implies-guard a b h = ground arith

guard-zero_implies : (a b : ℕ) → (a == 0 && b != 0) ≡ false → a ≡ 0 → b ≡ 0
guard-zero_implies a b h e = ground arith

module _ (slab : SlabHeader) (max : ℕ) where
  parse-Reads :
      (d : DropRecord)
      → IsDropRecord slab max d
      → Reads (parse_drop_record slab max) (drop_record_bytes d) d
  unfolding parse_drop_record
  parse-Reads d v = Reads-bind _ (Reads-read 32 d.drop_id.bytes v.id) (
      Reads-bind _ (Reads-lift (make_drop_id_lem d.drop_id v.id)) (
        Reads-bind _ (Reads-read_u32_le d.plaintext_len v.fits) (
          Reads-bind _ (Reads-raise_if _ (ground (arith, v.below_ceiling))) (
            Reads-bind _ (Reads-read 3 (representation_to_bytes d.representation) refl) (
              Reads-bind _ (Reads-lift (representation_from_bytes_lem d.representation v.rep)) (
                Reads-bind _ (Reads-raise_if _ (zero_implies-guard _ _ v.plain)) (
                  Reads-bind _ (Reads-raise_if _ (zero_implies-guard _ _ v.no_ec)) (
                    Reads-bind _ (Reads-read_u8 d.solid_window_index v.window) (
                      Reads-bind _ (Reads-read_u32_le d.offset_in_window v.offset) (
                        Reads-cast (sym (append-nil (le_bytes 4 d.len_in_window))) (
                          Reads-bind _ (Reads-read_u32_le d.len_in_window v.len) (
                            Reads-bind _ (Reads-raise_if _ (ground arith))
                              (Reads-pure d)))))))))))))

  parse-Consumes :
      Consumes
        (parse_drop_record slab max)
        (λ bs d. (bs ≡ drop_record_bytes d) × IsDropRecord slab max d)
  unfolding parse_drop_record
  parse-Consumes = Consumes-bind (Consumes-read 32) λ bs id q.
      Consumes-lift_ok _ (make_drop_id_bytes id q.1) (
        Consumes-bind Consumes-read_u32_le λ bs1 plaintext_len q1.
          Consumes-raise_if _ _ tt λ below_ceiling. Consumes-bind (Consumes-read 3) λ bs2 raw q2.
            let (rep, made, layout, is_rep) = representation_from_bytes_bytes raw q2.1 q2.2 in
            Consumes-lift_ok _ made (
              Consumes-raise_if _ _ tt λ plain. Consumes-raise_if _ _ tt λ no_ec.
                Consumes-bind Consumes-read_u8 λ bs3 window q3.
                  Consumes-bind Consumes-read_u32_le λ bs4 offset q4.
                    Consumes-bind Consumes-read_u32_le λ bs5 len q5.
                      Consumes-raise_if _ _ tt λ no_overflow. Consumes-pure _ (
                        simp (append-nil, q.0, q1.0, q2.0, layout, q3.0, q4.0, q5.0),
                        record {
                          id = q.1;
                          below_ceiling = ground arith;
                          fits = q1.1;
                          rep = is_rep;
                          plain = guard-zero_implies _ _ plain;
                          no_ec = guard-zero_implies _ _ no_ec;
                          window = q3.1;
                          offset = q4.1;
                          len = q5.1;
                        },
                      )))

-- In every slab and for every ceiling, the parser of a drop record inverts the layout on the
-- records that agree with the slab's descriptors, whose plaintext length is within the ceiling,
-- and whose fields fit their widths, whatever their offset plus length is; it accepts nothing
-- else, raises a TruncatedError on every input that ends inside such a record, and raises only
-- ParseErrors.
pub parse_drop_record-Decodes :
    (slab : SlabHeader) (max_plaintext : ℕ)
    → Decodes
        (parse_drop_record slab max_plaintext)
        drop_record_bytes
        (IsDropRecord slab max_plaintext)
parse_drop_record-Decodes slab max = record {
  reads = parse-Reads slab max;
  consumes = parse-Consumes slab max;
}
