-- ===== src/EcParams/Format.antt =====
-- The erasure coding section against its layout.
use limnifs_py.Prelude.{
  ℕ, ◌+◌, ◌*◌, ◌^◌, ◌≤◌, ◌<◌, ◌≡◌, refl, sym, List, [], ◌∷◌, ◌++◌, map, append-nil, append_assoc,
  arith, length, length-append, flat_map, length-flat_map-ge, All, Distinct, contains→NotIn,
  ne-guard, NotIn→contains,
}
use limnifs_py.Errors.{Error, ok, err, corrupt, IsParseError, IsParseError-eq}
use limnifs_py.Wire.{le_bytes}
use limnifs_py.Cursor.Reads.{
  Reads, Reads-pure, Reads-bind, Reads-cast, Reads-raise_if, Reads-lift, Reads-check_remaining,
  Reads-read, Reads-read_u8, Reads-read_u16_le, Reads-read_u32_le, Reads-read_u64_le,
}
use limnifs_py.Cursor.Consumes.{
  Consumes, Consumes-pure, Consumes-bind, Consumes-raise_if, Consumes-lift, Consumes-lift_ok,
  Consumes-check_remaining, Consumes-read, Consumes-read_u8, Consumes-read_u16_le,
  Consumes-read_u32_le, Consumes-read_u64_le,
}
use limnifs_py.Cursor.Decodes.{Decodes}
use limnifs_py.Cursor.Loop.{Unseen, EachFrom-Distinct, Reads-for_range, Consumes-for_range}
use limnifs_py.FormatTypes.{SlabId, slab_id_eq}
use limnifs_py.FormatTypes.Laws.{IsSlabId, slab_id_bytes, length-slab_id_bytes, make_slab_id_lem}
use limnifs_py.EcParams.{
  EcOverride, EcParams, validate, parse_override, parse_ec_params_section,
  ec_params_section_version, default_ec_polynomial, max_shards, override_entry_len,
}

-- One row: the slab, the data shards, the parity shards.
abbrev pub override_bytes : EcOverride → List ℕ
override_bytes o = slab_id_bytes o.slab_id ++ (o.k ∷ o.m ∷ [])

-- The section: a version byte, the defaults, the polynomial, the number of rows, the rows.
abbrev pub ec_params_bytes : EcParams → List ℕ
ec_params_bytes p =
    ec_params_section_version
    ∷ p.k
    ∷ p.m
    ∷ (le_bytes 2 p.polynomial
        ++ (le_bytes 4 (length p.overrides) ++ flat_map override_bytes p.overrides))

-- Reed-Solomon over GF(2^8) has room for 255 shards.
abbrev pub IsShards : ℕ → ℕ → Type 0
IsShards k m = (1 ≤ k) × (1 ≤ m) × (k + m ≤ max_shards)

abbrev pub IsOverride : EcOverride → Type 0
IsOverride o = IsSlabId o.slab_id × IsShards o.k o.m

abbrev pub override_key : EcOverride → SlabId
override_key o = o.slab_id

abbrev pub IsEcParams : EcParams → Type 0
IsEcParams p =
    IsShards p.k p.m
    × (p.polynomial ≡ default_ec_polynomial)
    × (length p.overrides < 2 ^ 32)
    × All IsOverride p.overrides
    × Distinct (map override_key p.overrides)

validate_lem : (k m : ℕ) → IsShards k m → validate k m ≡ ok tt
unfolding validate
validate_lem k m h = ground arith

validate_ok : (k m : ℕ) (u : Unit {0}) → validate k m ≡ ok u → IsShards k m
unfolding validate
validate_ok k m u h = ground arith

validate_err : (k m : ℕ) (e : Error) → validate k m ≡ err e → IsParseError e
unfolding validate
validate_err k m e h = IsParseError-eq {e' = corrupt} (ground arith) tt

IsOverride-Reads :
    (seen : List SlabId) (o : EcOverride)
    → Unseen IsOverride override_key seen o
    → Reads (parse_override seen) (override_bytes o) o
unfolding parse_override
IsOverride-Reads seen o ((id, shards), unseen) =
    Reads-cast (append_assoc (le_bytes 8 o.slab_id.ordinal) o.slab_id.hash (o.k ∷ o.m ∷ [])) (
      Reads-bind _ (Reads-read_u64_le o.slab_id.ordinal id.0) (
        Reads-bind _ (Reads-read 32 o.slab_id.hash id.1) (
          Reads-bind _ (Reads-lift (make_slab_id_lem o.slab_id id)) (
            Reads-bind _ (Reads-read_u8 o.k (omega arith)) (
              Reads-bind _ (Reads-read_u8 o.m (omega arith)) (
                Reads-bind _ (Reads-lift (validate_lem o.k o.m shards)) (
                  Reads-bind _ (Reads-raise_if _ (NotIn→contains o.slab_id seen unseen))
                    (Reads-pure o))))))))

IsOverride-Consumes :
    (seen : List SlabId)
    → Consumes
        (parse_override seen)
        (λ bs o. (bs ≡ override_bytes o) × Unseen IsOverride override_key seen o)
unfolding parse_override
IsOverride-Consumes seen = Consumes-bind Consumes-read_u64_le λ bs ordinal q.
    Consumes-bind (Consumes-read 32) λ bs1 hash q1.
      let id : SlabId = record { ordinal = ordinal; hash = hash } in
      Consumes-lift_ok _ (make_slab_id_lem id (q.1, q1.1)) (
        Consumes-bind Consumes-read_u8 λ bs2 k q2. Consumes-bind Consumes-read_u8 λ bs3 m q3.
          Consumes-lift (validate k m) (validate_err k m) λ u valid.
            Consumes-raise_if _ _ tt λ unseen. Consumes-pure _ (
              simp (q.0, q1.0, q2.0, q3.0, append_assoc),
              (((q.1, q1.1), validate_ok k m u valid), contains→NotIn id seen unseen),
            ))

entries_size :
    (entries : List EcOverride)
    → All IsOverride entries
    → length entries * override_entry_len ≤ length (flat_map override_bytes entries)
entries_size = length-flat_map-ge override_bytes override_entry_len IsOverride λ o h. omega (
  arith,
  length-append (slab_id_bytes o.slab_id) (o.k ∷ o.m ∷ []),
  length-slab_id_bytes o.slab_id h.0,
)

parse-Reads : (p : EcParams) → IsEcParams p → Reads parse_ec_params_section (ec_params_bytes p) p
unfolding parse_ec_params_section
parse-Reads p (shards, polynomial, count, valid, distinct) =
    Reads-bind _ (Reads-read_u8 ec_params_section_version (omega arith)) (
      Reads-bind _ (Reads-raise_if _ refl) (
        Reads-bind _ (Reads-read_u8 p.k (omega arith)) (
          Reads-bind _ (Reads-read_u8 p.m (omega arith)) (
            Reads-bind _ (Reads-lift (validate_lem p.k p.m shards)) (
              Reads-bind _ (Reads-read_u16_le p.polynomial (omega arith)) (
                Reads-bind _ (Reads-raise_if _ (ground arith)) (
                  Reads-bind _ (Reads-read_u32_le _ count) (
                    Reads-check_remaining (length p.overrides * override_entry_len) _
                      (entries_size p.overrides valid)
                      (Reads-cast (sym (append-nil _)) (
                        Reads-bind _
                          (Reads-for_range _ _ override_bytes (Unseen IsOverride override_key)
                            IsOverride-Reads [] p.overrides
                            ((EachFrom-Distinct IsOverride override_key p.overrides).1
                              (valid, distinct)))
                          (Reads-pure p)))))))))))

parse-Consumes : Consumes parse_ec_params_section (λ bs p. (bs ≡ ec_params_bytes p) × IsEcParams p)
unfolding parse_ec_params_section
parse-Consumes = Consumes-bind Consumes-read_u8 λ bs version q.
    Consumes-raise_if _ _ tt λ supported. Consumes-bind Consumes-read_u8 λ bs1 k q1.
      Consumes-bind Consumes-read_u8 λ bs2 m q2.
        Consumes-lift (validate k m) (validate_err k m) λ u shards.
          Consumes-bind Consumes-read_u16_le λ bs3 polynomial q3.
            Consumes-raise_if _ _ tt λ standard. Consumes-bind Consumes-read_u32_le λ bs4 count q4.
              Consumes-check_remaining _ (
                Consumes-bind
                  (Consumes-for_range _ _ override_bytes (Unseen IsOverride override_key)
                    IsOverride-Consumes count [])
                  λ bs5 overrides q5.
                    let (valid, distinct) =
                      (EachFrom-Distinct IsOverride override_key overrides).0 q5.2 in
                    Consumes-pure _ (
                      simp (
                        append-nil,
                        q.0,
                        q1.0,
                        q2.0,
                        q3.0,
                        q4.0,
                        q5.0,
                        q5.1,
                        ne-guard _ _ supported,
                      ),
                      (
                        validate_ok k m u shards,
                        ne-guard _ _ standard,
                        omega (arith, q4.1, q5.1),
                        valid,
                        distinct,
                      ),
                    ))

-- The parser of the erasure coding section inverts the layout on the configurations with the
-- standard polynomial, fewer than 2^32 overrides of distinct slabs whose identifiers fit, and at
-- least one data shard, one parity shard and at most 255 together in the defaults and in every
-- override; it accepts nothing else, raises a TruncatedError on every input that ends inside such
-- a section, and raises only ParseErrors.
pub parse_ec_params_section-Decodes : Decodes parse_ec_params_section ec_params_bytes IsEcParams
parse_ec_params_section-Decodes = record { reads = parse-Reads; consumes = parse-Consumes }
