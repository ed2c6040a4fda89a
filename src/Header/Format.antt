-- ===== src/Header/Format.antt =====
-- The manifest header against its encoder.
use limnifs_py.Prelude.{
  ℕ, ◌^◌, ◌<◌, ◌≡◌, refl, ap, ◌∙◌, ◌↔◌, false, List, [], ◌∷◌, ◌++◌, append-nil, append_assoc, arith,
  length, replicate, bytes_eq-guard, bytes_eq-guard_refl,
}
use limnifs_py.Errors.{ok}
use limnifs_py.Wire.{le_bytes, pack_le, pack_hhh}
use limnifs_py.Cursor.Reads.{
  Reads, Reads-pure, Reads-bind, Reads-cast, Reads-raise_if, Reads-read, Reads-read_magic,
  Reads-read_u16_le,
}
use limnifs_py.Cursor.Consumes.{
  Consumes, Consumes-pure, Consumes-bind, Consumes-raise_if, Consumes-read, Consumes-read_magic,
  Consumes-read_u16_le,
}
use limnifs_py.Cursor.Decodes.{Decodes}
use limnifs_py.FormatTypes.{manifest_magic}
use limnifs_py.Header.{ManifestHeader, header_to_bytes, any_nonzero, parse_manifest_header}

-- The 16 bytes of a header, and the versions that fit them.
abbrev pub header_bytes : ManifestHeader → List ℕ
header_bytes h =
    let versions =
      le_bytes 2 h.drop_store_version
      ++ (le_bytes 2 h.metadata_version ++ le_bytes 2 h.manifest_version) in
    manifest_magic ++ (versions ++ replicate 6 0)

abbrev pub IsHeader : ManifestHeader → Type 0
IsHeader h =
    (h.drop_store_version < 2 ^ 16) × (h.metadata_version < 2 ^ 16) × (h.manifest_version < 2 ^ 16)

pub header_to_bytes_iff :
    (h : ManifestHeader) (bs : List ℕ)
    → (header_to_bytes h ≡ ok bs) ↔ ((bs ≡ header_bytes h) × IsHeader h)
unfolding header_to_bytes pack_hhh pack_le
header_to_bytes_iff h bs = ground arith

pub any_nonzero_iff : (bs : List ℕ) → (any_nonzero bs ≡ false) ↔ (bs ≡ replicate (length bs) 0)
unfolding any_nonzero
any_nonzero_iff [] = ground arith
any_nonzero_iff (b ∷ bs) = ground (arith, any_nonzero_iff bs)

zeros_eq : (bs : List ℕ) {n : ℕ} → length bs ≡ n → any_nonzero bs ≡ false → bs ≡ replicate n 0
zeros_eq bs size h = (any_nonzero_iff bs).0 h ∙ ap (λ k. replicate k 0) size

parse-Reads : (h : ManifestHeader) → IsHeader h → Reads parse_manifest_header (header_bytes h) h
unfolding parse_manifest_header
parse-Reads h (a, b, c) = Reads-cast (simp append_assoc) (
    Reads-bind _ (Reads-read_magic manifest_magic refl) (
      Reads-bind _ (Reads-raise_if _ (bytes_eq-guard_refl manifest_magic)) (
        Reads-bind _ (Reads-read_u16_le _ a) (
          Reads-bind _ (Reads-read_u16_le _ b) (
            Reads-bind _ (Reads-read_u16_le _ c) (
              Reads-bind _ (Reads-read 6 (replicate 6 0) refl)
                (Reads-bind _ (Reads-raise_if _ (unfold any_nonzero in refl)) (Reads-pure h))))))))

parse-Consumes : Consumes parse_manifest_header (λ bs h. (bs ≡ header_bytes h) × IsHeader h)
unfolding parse_manifest_header
parse-Consumes = Consumes-bind Consumes-read_magic λ bs magic q.
    Consumes-raise_if _ _ tt λ is_magic. Consumes-bind Consumes-read_u16_le λ bs1 v1 q1.
      Consumes-bind Consumes-read_u16_le λ bs2 v2 q2.
        Consumes-bind Consumes-read_u16_le λ bs3 v3 q3.
          Consumes-bind (Consumes-read 6) λ bs4 reserved q4. Consumes-raise_if _ _ tt λ zeros.
            Consumes-pure _ (
              simp (
                append-nil,
                append_assoc,
                q.0,
                bytes_eq-guard magic manifest_magic is_magic,
                q1.0,
                q2.0,
                q3.0,
                q4.0,
                zeros_eq reserved q4.1 zeros,
              ),
              (q1.1, q2.1, q3.1),
            )

-- The parser of the manifest header inverts `header_bytes` on the headers whose versions fit 16
-- bits, accepts nothing else, raises a TruncatedError on every input that ends inside such a
-- header, and raises only ParseErrors.
pub parse_manifest_header-Decodes : Decodes parse_manifest_header header_bytes IsHeader
parse_manifest_header-Decodes = record { reads = parse-Reads; consumes = parse-Consumes }

-- What `to_bytes` writes, `parse_manifest_header` reads back, whatever follows it, and an input
-- that ends inside it raises a TruncatedError.
pub parse-header_to_bytes :
    (h : ManifestHeader) (bs : List ℕ)
    → header_to_bytes h ≡ ok bs
    → Reads parse_manifest_header bs h
parse-header_to_bytes h bs e =
    let (same, valid) = (header_to_bytes_iff h bs).0 e in Reads-cast same (parse-Reads h valid)
