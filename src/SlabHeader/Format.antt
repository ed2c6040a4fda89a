-- ===== src/SlabHeader/Format.antt =====
-- The slab header against its layout.
use limnifs_py.Prelude.{
  ℕ, ◌^◌, ◌≤◌, ◌<◌, ◌≡◌, refl, List, [], ◌∷◌, ◌++◌, append-nil, append_assoc, arith, length,
  length-append, ne-guard, bytes_eq-guard, bytes_eq-guard_refl,
}
use limnifs_py.Wire.{le_bytes, length-le_bytes}
use limnifs_py.Cursor.Reads.{
  Reads, Reads-pure, Reads-bind, Reads-raise_if, Reads-lift, Reads-read, Reads-read_u8,
  Reads-read_u16_le, Reads-read_u64_le, Reads-read_magic,
}
use limnifs_py.Cursor.Consumes.{
  Consumes, Consumes-pure, Consumes-bind, Consumes-raise_if, Consumes-lift_ok, Consumes-read,
  Consumes-read_u8, Consumes-read_u16_le, Consumes-read_u64_le, Consumes-read_magic,
}
use limnifs_py.Cursor.Decodes.{Decodes}
use limnifs_py.FormatTypes.{slab_magic}
use limnifs_py.FormatTypes.Laws.{
  IsSlabId, slab_id_bytes, length-slab_id_bytes, slab_id_from_bytes-to_bytes,
  slab_id_from_bytes_bytes,
}
use limnifs_py.SlabHeader.{
  SlabHeader, slab_format_version, slab_header_len, ec_descriptor_extended, crypto_hint_extended,
  parse_slab_header,
}

-- Magic, version, slab identifier, total length, and the two descriptor bytes.
abbrev pub slab_header_bytes : SlabHeader → List ℕ
slab_header_bytes h =
    slab_magic
    ++ (le_bytes 2 h.format_version
        ++ (slab_id_bytes h.slab_id
            ++ (le_bytes 8 h.total_length ++ h.ec_descriptor ∷ h.crypto_hint ∷ [])))

-- Neither descriptor is the extended one, 0xFF.
pub record IsSlabHeader (max_total_length : ℕ) (h : SlabHeader) : Type 0 where
  pub version : h.format_version ≡ slab_format_version
  pub id : IsSlabId h.slab_id
  pub long_enough : slab_header_len ≤ h.total_length
  pub below_ceiling : h.total_length ≤ max_total_length
  pub fits : h.total_length < 2 ^ 64
  pub ec : h.ec_descriptor < ec_descriptor_extended
  pub crypto : h.crypto_hint < crypto_hint_extended

module _ (max : ℕ) where
  parse-Reads :
      (h : SlabHeader) → IsSlabHeader max h → Reads (parse_slab_header max) (slab_header_bytes h) h
  unfolding parse_slab_header
  parse-Reads h v = Reads-bind _ (Reads-read_magic slab_magic refl) (
      Reads-bind _ (Reads-raise_if _ (bytes_eq-guard_refl slab_magic)) (
        Reads-bind _ (Reads-read_u16_le h.format_version (omega (arith, v.version))) (
          Reads-bind _ (Reads-raise_if _ (ground (arith, v.version))) (
            Reads-bind _
              (Reads-read 40 (slab_id_bytes h.slab_id) (length-slab_id_bytes h.slab_id v.id))
              (Reads-bind _ (Reads-lift ((slab_id_from_bytes-to_bytes h.slab_id v.id).1)) (
                Reads-bind _ (Reads-read_u64_le h.total_length v.fits) (
                  Reads-bind _ (Reads-raise_if _ (ground (arith, v.long_enough))) (
                    Reads-bind _ (Reads-raise_if _ (ground (arith, v.below_ceiling))) (
                      Reads-bind _ (Reads-read_u8 h.ec_descriptor (omega (arith, v.ec))) (
                        Reads-bind _ (Reads-raise_if _ (ground (arith, v.ec))) (
                          Reads-bind _ (Reads-read_u8 h.crypto_hint (omega (arith, v.crypto))) (
                            Reads-bind _ (Reads-raise_if _ (ground (arith, v.crypto)))
                              (Reads-pure h)))))))))))))

  parse-Consumes :
      Consumes (parse_slab_header max) (λ bs h. (bs ≡ slab_header_bytes h) × IsSlabHeader max h)
  unfolding parse_slab_header
  parse-Consumes = Consumes-bind Consumes-read_magic λ bs magic q.
      Consumes-raise_if _ _ tt λ is_magic. Consumes-bind Consumes-read_u16_le λ bs1 version q1.
        Consumes-raise_if _ _ tt λ supported. Consumes-bind (Consumes-read 40) λ bs2 raw q2.
          let (id, made, layout, is_id) = slab_id_from_bytes_bytes raw q2.1 q2.2 in
          Consumes-lift_ok _ made (
            Consumes-bind Consumes-read_u64_le λ bs3 total q3.
              Consumes-raise_if _ _ tt λ long_enough. Consumes-raise_if _ _ tt λ below_ceiling.
                Consumes-bind Consumes-read_u8 λ bs4 ec q4. Consumes-raise_if _ _ tt λ ec_known.
                  Consumes-bind Consumes-read_u8 λ bs5 crypto q5.
                    Consumes-raise_if _ _ tt λ crypto_known. Consumes-pure _ (
                      simp (
                        append-nil,
                        append_assoc,
                        q.0,
                        bytes_eq-guard magic slab_magic is_magic,
                        q1.0,
                        q2.0,
                        layout,
                        q3.0,
                        q4.0,
                        q5.0,
                      ),
                      record {
                        version = ne-guard _ _ supported;
                        id = is_id;
                        long_enough = ground arith;
                        below_ceiling = ground arith;
                        fits = q3.1;
                        ec = ground arith;
                        crypto = ground arith;
                      },
                    ))

-- For every ceiling, the parser of the slab header inverts the layout on the headers of version 1
-- whose total length lies between 56 and the ceiling, whose descriptors are not extended, and
-- whose fields fit their widths, accepts nothing else, raises a TruncatedError on every input that
-- ends inside such a header, and raises only ParseErrors.
pub parse_slab_header-Decodes :
    (max_total_length : ℕ)
    → Decodes (parse_slab_header max_total_length) slab_header_bytes (IsSlabHeader max_total_length)
parse_slab_header-Decodes max = record { reads = parse-Reads max; consumes = parse-Consumes max }

pub length-slab_header_bytes :
    (h : SlabHeader) → IsSlabId h.slab_id → length (slab_header_bytes h) ≡ slab_header_len
length-slab_header_bytes h v =
    let tail = le_bytes 8 h.total_length ++ h.ec_descriptor ∷ h.crypto_hint ∷ [] in
    omega (
      arith,
      length-append (le_bytes 2 h.format_version) (slab_id_bytes h.slab_id ++ tail),
      length-append (slab_id_bytes h.slab_id) tail,
      length-append (le_bytes 8 h.total_length) (h.ec_descriptor ∷ h.crypto_hint ∷ []),
      length-le_bytes 2 h.format_version,
      length-slab_id_bytes h.slab_id v,
      length-le_bytes 8 h.total_length,
    )
