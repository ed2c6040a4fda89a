-- ===== src/FeatureFlags/Format.antt =====
-- The feature flags section against its layout.
use limnifs_py.Prelude.{
  ℕ, ◌*◌, ◌^◌, ◌≤◌, ◌<◌, ◌≡◌, ◌≢◌, refl, sym, Bool, List, [], ◌∷◌, ◌++◌, map, append-nil, arith,
  length, length-append, flat_map, length-flat_map-ge, All, Distinct, if◌then◌else◌, nat_eq,
  contains→NotIn, ne-guard, NotIn→contains,
}
use limnifs_py.Errors.{Error, ok, err, corrupt, IsParseError, IsParseError-eq}
use limnifs_py.Wire.{le_bytes, length-le_bytes}
use limnifs_py.Cursor.Reads.{
  Reads, Reads-pure, Reads-bind, Reads-cast, Reads-raise_if, Reads-lift, Reads-check_remaining,
  Reads-read_u8, Reads-read_u16_le, Reads-read_u32_le,
}
use limnifs_py.Cursor.Consumes.{
  Consumes, Consumes-pure, Consumes-bind, Consumes-raise_if, Consumes-lift,
  Consumes-check_remaining, Consumes-read_u8, Consumes-read_u16_le, Consumes-read_u32_le,
}
use limnifs_py.Cursor.Decodes.{Decodes}
use limnifs_py.Cursor.Loop.{Unseen, EachFrom-Distinct, Reads-for_range, Consumes-for_range}
use limnifs_py.FeatureFlags.{
  FeatureFlag, FeatureFlags, flag_key, required_of_byte, parse_flag, parse_feature_flags_section,
  section_version, entry_len,
}

abbrev pub required_byte : Bool → ℕ
required_byte b = if b then 1 else 0

-- One row: the identifier, and a byte that is 0 or 1.
abbrev pub flag_bytes : FeatureFlag → List ℕ
flag_bytes f = le_bytes 2 f.flag_id ++ (required_byte f.required ∷ [])

-- The section: a version byte, the number of rows, the rows.
abbrev pub flags_bytes : FeatureFlags → List ℕ
flags_bytes fs =
    section_version ∷ (le_bytes 4 (length fs.entries) ++ flat_map flag_bytes fs.entries)

abbrev pub IsFlag : FeatureFlag → Type 0
IsFlag f = (f.flag_id ≢ 0) × (f.flag_id < 2 ^ 16)

abbrev pub IsFlags : FeatureFlags → Type 0
IsFlags fs =
    (length fs.entries < 2 ^ 32) × All IsFlag fs.entries × Distinct (map flag_key fs.entries)

required_of_byte_lem : (b : Bool) → required_of_byte (required_byte b) ≡ ok b
unfolding required_of_byte
required_of_byte_lem b = ground arith

IsFlag-Reads :
    (seen : List ℕ) (f : FeatureFlag)
    → Unseen IsFlag flag_key seen f
    → Reads (parse_flag seen) (flag_bytes f) f
unfolding parse_flag
IsFlag-Reads seen f ((nonzero, fits), unseen) = Reads-bind _ (Reads-read_u16_le _ fits) (
    Reads-bind _ (Reads-raise_if _ (ground arith)) (
      Reads-bind _ (Reads-read_u8 (required_byte f.required) (ground arith)) (
        Reads-bind _ (Reads-lift (required_of_byte_lem f.required))
          (Reads-bind _ (Reads-raise_if _ (NotIn→contains f.flag_id seen unseen)) (Reads-pure f)))))

required_err : (b : ℕ) (e : Error) → required_of_byte b ≡ err e → IsParseError e
unfolding required_of_byte
required_err b e h = IsParseError-eq {e' = corrupt} (ground arith) tt

required_ok : (b : ℕ) (r : Bool) → required_of_byte b ≡ ok r → b ≡ required_byte r
unfolding required_of_byte
required_ok b r h = ground arith

IsFlag-Consumes :
    (seen : List ℕ)
    → Consumes (parse_flag seen) (λ bs f. (bs ≡ flag_bytes f) × Unseen IsFlag flag_key seen f)
unfolding parse_flag
IsFlag-Consumes seen = Consumes-bind Consumes-read_u16_le λ bs flag_id q.
    Consumes-raise_if _ _ tt λ nonzero. Consumes-bind Consumes-read_u8 λ bs1 b q1.
      Consumes-lift (required_of_byte b) (required_err b) λ required r.
        Consumes-raise_if _ _ tt λ unseen. Consumes-pure _ (
          simp (q.0, q1.0, required_ok b required r),
          ((ground arith, q.1), contains→NotIn flag_id seen unseen),
        )

length-flag_bytes : (f : FeatureFlag) → length (flag_bytes f) ≡ entry_len
length-flag_bytes f = omega (
  arith,
  length-append (le_bytes 2 f.flag_id) (required_byte f.required ∷ []),
  length-le_bytes 2 f.flag_id,
)

entries_size :
    (fs : FeatureFlags)
    → All IsFlag fs.entries
    → length fs.entries * entry_len ≤ length (flat_map flag_bytes fs.entries)
entries_size fs =
    length-flat_map-ge flag_bytes entry_len IsFlag (λ f _. omega (arith, length-flag_bytes f))
      fs.entries

parse-Reads :
    (fs : FeatureFlags) → IsFlags fs → Reads parse_feature_flags_section (flags_bytes fs) fs
unfolding parse_feature_flags_section
parse-Reads fs (count, valid, distinct) =
    Reads-bind _ (Reads-read_u8 section_version (omega arith)) (
      Reads-bind _ (Reads-raise_if _ refl) (
        Reads-bind _ (Reads-read_u32_le _ count) (
          Reads-check_remaining (length fs.entries * entry_len) _ (entries_size fs valid) (
            Reads-cast (sym (append-nil _)) (
              Reads-bind _
                (Reads-for_range _ _ flag_bytes (Unseen IsFlag flag_key) IsFlag-Reads [] fs.entries
                  ((EachFrom-Distinct IsFlag flag_key fs.entries).1 (valid, distinct)))
                (Reads-pure fs))))))

parse-Consumes : Consumes parse_feature_flags_section (λ bs fs. (bs ≡ flags_bytes fs) × IsFlags fs)
unfolding parse_feature_flags_section
parse-Consumes = Consumes-bind Consumes-read_u8 λ bs version q.
    Consumes-raise_if _ _ tt λ supported. Consumes-bind Consumes-read_u32_le λ bs1 count q1.
      Consumes-check_remaining _ (
        Consumes-bind
          (Consumes-for_range _ _ flag_bytes (Unseen IsFlag flag_key) IsFlag-Consumes count [])
          λ bs2 entries q2.
            let (valid, distinct) = (EachFrom-Distinct IsFlag flag_key entries).0 q2.2 in
            Consumes-pure _ (
              simp (append-nil, q.0, q1.0, q2.0, q2.1, ne-guard _ _ supported),
              (omega (arith, q1.1, q2.1), valid, distinct),
            ))

-- The parser of the feature flags section inverts the layout on the tables of fewer than 2^32 rows
-- whose identifiers are distinct, not zero, and fit 16 bits, each required or not, accepts nothing
-- else, raises a TruncatedError on every input that ends inside such a section, and raises only
-- ParseErrors.
pub parse_feature_flags_section-Decodes : Decodes parse_feature_flags_section flags_bytes IsFlags
parse_feature_flags_section-Decodes = record { reads = parse-Reads; consumes = parse-Consumes }
