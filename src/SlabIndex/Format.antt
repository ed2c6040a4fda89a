-- ===== src/SlabIndex/Format.antt =====
-- The slab index against its layout.
use limnifs_py.Prelude.{
  ℕ, ◌*◌, ◌^◌, ◌≤◌, ◌<◌, ◌≡◌, ◌≢◌, refl, sym, List, [], ◌∷◌, ◌++◌, map, append-nil, append_assoc,
  arith, length, length-append, flat_map, length-flat_map-ge, All, Distinct, contains→NotIn,
  ne-guard, NotIn→contains,
}
use limnifs_py.Wire.{le_bytes, length-le_bytes}
use limnifs_py.Cursor.Reads.{
  Reads, Reads-pure, Reads-bind, Reads-cast, Reads-raise_if, Reads-lift, Reads-check_remaining,
  Reads-read, Reads-read_u8, Reads-read_u32_le, Reads-read_u64_le,
}
use limnifs_py.Cursor.Consumes.{
  Consumes, Consumes-pure, Consumes-bind, Consumes-raise_if, Consumes-lift_ok,
  Consumes-check_remaining, Consumes-read, Consumes-read_u8, Consumes-read_u32_le,
  Consumes-read_u64_le,
}
use limnifs_py.Cursor.Decodes.{Decodes}
use limnifs_py.Cursor.Loop.{Unseen, EachFrom-Distinct, Reads-for_range, Consumes-for_range}
use limnifs_py.FormatTypes.{SlabId, slab_id_eq}
use limnifs_py.FormatTypes.Laws.{IsSlabId, slab_id_bytes, length-slab_id_bytes, make_slab_id_lem}
use limnifs_py.Locator.{LocatorEntry, CharClasses}
use limnifs_py.Locator.Format.{
  locator_bytes, IsLocator, parse_locator_entries-Reads, parse_locator_entries-Consumes,
}
use limnifs_py.SlabIndex.{
  SlabIndexEntry, SlabIndex, index_key, parse_index_entry, parse_slab_index_section,
  slab_index_section_version, entry_fixed_len,
}

-- The number of locators, and the locators.
abbrev pub locators_bytes : List LocatorEntry → List ℕ
locators_bytes locators = le_bytes 4 (length locators) ++ flat_map locator_bytes locators

abbrev pub index_entry_bytes : SlabIndexEntry → List ℕ
index_entry_bytes e = slab_id_bytes e.slab_id ++ locators_bytes e.locators

-- The section: a version byte, the number of slabs, the slabs.
abbrev pub slab_index_bytes : SlabIndex → List ℕ
slab_index_bytes index =
    slab_index_section_version
    ∷ (le_bytes 4 (length index.entries) ++ flat_map index_entry_bytes index.entries)

-- Every slab can be reached.
abbrev pub IsIndexEntry : CharClasses → ℕ → SlabIndexEntry → Type 0
IsIndexEntry chars max e =
    IsSlabId e.slab_id
    × (length e.locators ≢ 0)
    × (length e.locators < 2 ^ 32)
    × All (IsLocator chars max) e.locators

abbrev pub IsSlabIndex : CharClasses → ℕ → SlabIndex → Type 0
IsSlabIndex chars max index =
    (length index.entries < 2 ^ 32)
    × All (IsIndexEntry chars max) index.entries
    × Distinct (map index_key index.entries)

module _ (chars : CharClasses) (max : ℕ) where
  entry-Reads :
      (seen : List SlabId) (e : SlabIndexEntry)
      → Unseen (IsIndexEntry chars max) index_key seen e
      → Reads (parse_index_entry chars max seen) (index_entry_bytes e) e
  unfolding parse_index_entry
  entry-Reads seen e ((id, reachable, count, valid), unseen) =
      Reads-cast
        (append_assoc (le_bytes 8 e.slab_id.ordinal) e.slab_id.hash (locators_bytes e.locators))
        (Reads-bind _ (Reads-read_u64_le e.slab_id.ordinal id.0) (
          Reads-bind _ (Reads-read 32 e.slab_id.hash id.1) (
            Reads-bind _ (Reads-lift (make_slab_id_lem e.slab_id id)) (
              Reads-bind _ (Reads-raise_if _ (NotIn→contains e.slab_id seen unseen)) (
                Reads-bind _ (Reads-read_u32_le _ count) (
                  Reads-bind _ (Reads-raise_if _ (ground arith)) (
                    Reads-cast (sym (append-nil _)) (
                      Reads-bind _ (parse_locator_entries-Reads chars max e.locators valid)
                        (Reads-pure e)))))))))

  entry-Consumes :
      (seen : List SlabId)
      → Consumes
          (parse_index_entry chars max seen)
          (λ bs e. (bs ≡ index_entry_bytes e) × Unseen (IsIndexEntry chars max) index_key seen e)
  unfolding parse_index_entry
  entry-Consumes seen = Consumes-bind Consumes-read_u64_le λ bs ordinal q.
      Consumes-bind (Consumes-read 32) λ bs1 hash q1.
        let id : SlabId = record { ordinal = ordinal; hash = hash } in
        Consumes-lift_ok _ (make_slab_id_lem id (q.1, q1.1)) (
          Consumes-raise_if _ _ tt λ unseen. Consumes-bind Consumes-read_u32_le λ bs2 count q2.
            Consumes-raise_if _ _ tt λ reachable.
              Consumes-bind (parse_locator_entries-Consumes chars max count) λ bs3 locators q3.
                Consumes-pure _ (
                  simp (append-nil, q.0, q1.0, q2.0, q3.0, q3.1, append_assoc),
                  (
                    ((q.1, q1.1), ground arith, omega (arith, q2.1, q3.1), q3.2),
                    contains→NotIn id seen unseen,
                  ),
                ))

  entries_size :
      (entries : List SlabIndexEntry)
      → All (IsIndexEntry chars max) entries
      → length entries * entry_fixed_len ≤ length (flat_map index_entry_bytes entries)
  entries_size =
      length-flat_map-ge index_entry_bytes entry_fixed_len (IsIndexEntry chars max) λ e h. omega (
        arith,
        length-append (slab_id_bytes e.slab_id) (locators_bytes e.locators),
        length-append (le_bytes 4 (length e.locators)) (flat_map locator_bytes e.locators),
        length-le_bytes 4 (length e.locators),
        length-slab_id_bytes e.slab_id h.0,
      )

  parse-Reads :
      (index : SlabIndex)
      → IsSlabIndex chars max index
      → Reads (parse_slab_index_section chars max) (slab_index_bytes index) index
  unfolding parse_slab_index_section
  parse-Reads index (count, valid, distinct) =
      Reads-bind _ (Reads-read_u8 slab_index_section_version (omega arith)) (
        Reads-bind _ (Reads-raise_if _ refl) (
          Reads-bind _ (Reads-read_u32_le _ count) (
            Reads-check_remaining (length index.entries * entry_fixed_len) _
              (entries_size index.entries valid)
              (Reads-cast (sym (append-nil _)) (
                Reads-bind _
                  (Reads-for_range _ _ index_entry_bytes (Unseen (IsIndexEntry chars max) index_key)
                    entry-Reads [] index.entries
                    ((EachFrom-Distinct (IsIndexEntry chars max) index_key index.entries).1
                      (valid, distinct)))
                  (Reads-pure index))))))

  parse-Consumes :
      Consumes
        (parse_slab_index_section chars max)
        (λ bs index. (bs ≡ slab_index_bytes index) × IsSlabIndex chars max index)
  unfolding parse_slab_index_section
  parse-Consumes = Consumes-bind Consumes-read_u8 λ bs version q.
      Consumes-raise_if _ _ tt λ supported. Consumes-bind Consumes-read_u32_le λ bs1 count q1.
        Consumes-check_remaining _ (
          Consumes-bind
            (Consumes-for_range _ _ index_entry_bytes (Unseen (IsIndexEntry chars max) index_key)
              entry-Consumes count [])
            λ bs2 entries q2.
              let (valid, distinct) =
                (EachFrom-Distinct (IsIndexEntry chars max) index_key entries).0 q2.2 in
              Consumes-pure _ (
                simp (append-nil, q.0, q1.0, q2.0, q2.1, ne-guard _ _ supported),
                (omega (arith, q1.1, q2.1), valid, distinct),
              ))

-- For all character classes and every ceiling, the parser of the slab index inverts the layout on
-- the indexes of fewer than 2^32 distinct slabs, each with an identifier whose fields fit and with
-- at least one and fewer than 2^32 valid locators; it accepts nothing else, raises a
-- TruncatedError on every input that ends inside such a section, and raises only ParseErrors.
pub parse_slab_index_section-Decodes :
    (chars : CharClasses) (max_locator_uri_bytes : ℕ)
    → Decodes
        (parse_slab_index_section chars max_locator_uri_bytes)
        slab_index_bytes
        (IsSlabIndex chars max_locator_uri_bytes)
parse_slab_index_section-Decodes chars max = record {
  reads = parse-Reads chars max;
  consumes = parse-Consumes chars max;
}
