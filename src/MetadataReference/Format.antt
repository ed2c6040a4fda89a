-- ===== src/MetadataReference/Format.antt =====
-- The metadata reference against its layout.
use limnifs_py.Prelude.{
  is_empty, ℕ, ◌^◌, ◌≤◌, ◌<◌, ◌≡◌, ◌≢◌, refl, sym, ◌∙◌, false, ◌&&◌, Option, none, some, List, [],
  ◌∷◌, ◌++◌, append-nil, arith, length, flat_map, All, ne-guard, ==_iff, ltb, ◌==◌,
}
use limnifs_py.Errors.{ok}
use limnifs_py.Wire.{le_bytes}
use limnifs_py.Cursor.Reads.{
  Reads, Reads-pure, Reads-bind, Reads-cast, Reads-raise_if, Reads-lift, Reads-read, Reads-read_u8,
  Reads-read_u32_le,
}
use limnifs_py.Cursor.Consumes.{
  Consumes, Consumes-pure, Consumes-bind, Consumes-if, Consumes-raise, Consumes-raise_if,
  Consumes-lift_done, Consumes-read, Consumes-read_u8, Consumes-read_u32_le,
}
use limnifs_py.Cursor.Decodes.{Decodes}
use limnifs_py.Locator.{CharClasses}
use limnifs_py.Locator.Format.{
  locator_bytes, IsLocator, parse_locator_entries-Reads, parse_locator_entries-Consumes,
}
use limnifs_py.MetadataReference.{
  MetadataReference, make_metadata_reference, is_none, parse_inline,
  parse_metadata_reference_section, metadata_reference_section_version,
}

abbrev pub inline_len : Option (List ℕ) → ℕ
inline_len none = 0
inline_len (some bytes) = length bytes

abbrev pub inline_bytes : Option (List ℕ) → List ℕ
inline_bytes none = []
inline_bytes (some bytes) = bytes

-- A version byte, the hash, the locators, and the blob with its length, which is 0 for no blob.
abbrev pub reference_bytes : MetadataReference → List ℕ
reference_bytes r =
    metadata_reference_section_version
    ∷ (r.metadata_hash
        ++ (le_bytes 4 (length r.locators)
            ++ (flat_map locator_bytes r.locators
                ++ (le_bytes 4 (inline_len r.inline_metadata) ++ inline_bytes r.inline_metadata))))

-- A blob that is there is not empty.
abbrev pub IsInline : ℕ → Option (List ℕ) → Type 0
IsInline max none = Unit
IsInline max (some bytes) = (length bytes ≢ 0) × (length bytes ≤ max) × (length bytes < 2 ^ 32)

-- The blob can be reached, by a locator or in place.
pub record IsReference (chars : CharClasses) (max_uri max_inline : ℕ) (r : MetadataReference)
    : Type 0 where
  pub hash : length r.metadata_hash ≡ 32
  pub count : length r.locators < 2 ^ 32
  pub valid : All (IsLocator chars max_uri) r.locators
  pub inline : IsInline max_inline r.inline_metadata
  pub reachable : (is_empty r.locators && is_none r.inline_metadata) ≡ false

IsInline-Reads :
    (max : ℕ) (o : Option (List ℕ))
    → IsInline max o
    → Reads (parse_inline max (inline_len o)) (inline_bytes o) o
unfolding parse_inline
IsInline-Reads max none h = Reads-pure none
IsInline-Reads max (some bytes) h =
    let present : (length bytes == 0) ≡ false = ground (arith, h.0) in
    let below : ltb max (length bytes) ≡ false = ground (arith, h.1) in
    rw (present, below)
      (Reads-cast (sym (append-nil bytes))
        (Reads-bind _ (Reads-read (length bytes) bytes refl) (Reads-pure (some bytes))))

inline_len-lt : (max : ℕ) (o : Option (List ℕ)) → IsInline max o → inline_len o < 2 ^ 32
inline_len-lt max none h = omega arith
inline_len-lt max (some bytes) h = h.2

IsInline-Consumes :
    (max len : ℕ)
    → len < 2 ^ 32
    → Consumes
        (parse_inline max len)
        (λ bs o. (bs ≡ inline_bytes o) × (len ≡ inline_len o) × IsInline max o)
unfolding parse_inline
IsInline-Consumes max len fits =
    Consumes-if (len == 0) (λ absent. Consumes-pure none (refl, (==_iff len 0).0 absent, tt))
      λ present.
        Consumes-if (ltb max len) (λ above. Consumes-raise _ tt)
          λ below. Consumes-bind (Consumes-read len) λ bs bytes q.
            Consumes-pure (some bytes)
              (append-nil bs ∙ q.0, sym (q.1), (ground arith, ground arith, omega arith))

make_reference_lem :
    (r : MetadataReference)
    → length r.metadata_hash ≡ 32
    → make_metadata_reference r.metadata_hash r.locators r.inline_metadata ≡ ok r
unfolding make_metadata_reference
make_reference_lem r h = ground arith

module _ (chars : CharClasses) (max_uri max_inline : ℕ) where
  parse-Reads :
      (r : MetadataReference)
      → IsReference chars max_uri max_inline r
      → Reads (parse_metadata_reference_section chars max_uri max_inline) (reference_bytes r) r
  unfolding parse_metadata_reference_section
  parse-Reads r v = Reads-bind _ (Reads-read_u8 metadata_reference_section_version (omega arith)) (
      Reads-bind _ (Reads-raise_if _ refl) (
        Reads-bind _ (Reads-read 32 r.metadata_hash v.hash) (
          Reads-bind _ (Reads-read_u32_le _ v.count) (
            Reads-bind _ (parse_locator_entries-Reads chars max_uri r.locators v.valid) (
              Reads-bind _
                (Reads-read_u32_le _ (inline_len-lt max_inline r.inline_metadata v.inline))
                (Reads-cast (sym (append-nil _)) (
                  Reads-bind _ (IsInline-Reads max_inline r.inline_metadata v.inline) (
                    Reads-bind _ (Reads-raise_if _ v.reachable)
                      (Reads-lift (make_reference_lem r v.hash))))))))))

  parse-Consumes :
      Consumes
        (parse_metadata_reference_section chars max_uri max_inline)
        (λ bs r. (bs ≡ reference_bytes r) × IsReference chars max_uri max_inline r)
  unfolding parse_metadata_reference_section
  parse-Consumes = Consumes-bind Consumes-read_u8 λ bs version q.
      Consumes-raise_if _ _ tt λ supported. Consumes-bind (Consumes-read 32) λ bs1 hash q1.
        Consumes-bind Consumes-read_u32_le λ bs2 count q2.
          Consumes-bind (parse_locator_entries-Consumes chars max_uri count) λ bs3 locators q3.
            Consumes-bind Consumes-read_u32_le λ bs4 len q4.
              Consumes-bind (IsInline-Consumes max_inline len q4.1) λ bs5 inline q5.
                Consumes-raise_if _ _ tt λ reachable.
                  let r : MetadataReference = record {
                    metadata_hash = hash;
                    locators = locators;
                    inline_metadata = inline;
                  } in
                  Consumes-lift_done (make_reference_lem r q1.1) (
                    simp (
                      append-nil,
                      q.0,
                      q1.0,
                      q2.0,
                      q3.0,
                      q3.1,
                      q4.0,
                      q5.0,
                      q5.1,
                      ne-guard _ _ supported,
                    ),
                    record {
                      hash = q1.1;
                      count = omega (arith, q2.1, q3.1);
                      valid = q3.2;
                      inline = q5.2;
                      reachable = reachable;
                    },
                  )

-- For all character classes and both ceilings, the parser of the metadata reference inverts the
-- layout on the references with a hash of 32 bytes, fewer than 2^32 locators, all of them valid,
-- and a blob that is absent, or not empty, within its ceiling and shorter than 2^32 bytes, where
-- there is a locator or a blob; it accepts nothing else, raises a TruncatedError on every input
-- that ends inside such a section, and raises only ParseErrors.
pub parse_metadata_reference_section-Decodes :
    (chars : CharClasses) (max_uri max_inline : ℕ)
    → Decodes
        (parse_metadata_reference_section chars max_uri max_inline)
        reference_bytes
        (IsReference chars max_uri max_inline)
parse_metadata_reference_section-Decodes chars max_uri max_inline = record {
  reads = parse-Reads chars max_uri max_inline;
  consumes = parse-Consumes chars max_uri max_inline;
}
