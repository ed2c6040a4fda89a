-- ===== src/SlabIndex/Tests.antt =====
-- An index of two slabs with one ordinal and different hashes.
use limnifs_py.Prelude.{◌≡◌, ◌↔◌, some, [], ◌∷◌, arith, replicate, In}
use limnifs_py.Cursor.Reads.{Reads}
use limnifs_py.Locator.Tests.{ascii_chars, s3_locator, s3_locator_valid}
use limnifs_py.SlabIndex.{SlabIndex, SlabIndexEntry, find, parse_slab_index_section}
use limnifs_py.SlabIndex.Format.{IsSlabIndex, slab_index_bytes, parse_slab_index_section-Decodes}
use limnifs_py.SlabIndex.Lookup.{find_iff}

abbrev pub slab_1 : SlabIndexEntry
slab_1 = record {
  slab_id = record { ordinal = 1; hash = replicate 32 5 };
  locators = s3_locator ∷ [];
}

abbrev pub slab_2 : SlabIndexEntry
slab_2 = record {
  slab_id = record { ordinal = 1; hash = replicate 32 6 };
  locators = s3_locator ∷ s3_locator ∷ [];
}

abbrev pub two_slabs : SlabIndex
two_slabs = record { entries = slab_1 ∷ slab_2 ∷ [] }

pub two_slabs_valid : IsSlabIndex ascii_chars 4096 two_slabs
two_slabs_valid = (
  omega arith,
  (
    (omega arith, omega arith, omega arith, (s3_locator_valid, tt)),
    ((omega arith, omega arith, omega arith, (s3_locator_valid, (s3_locator_valid, tt))), tt),
  ),
  (((λ p. cc), tt), (tt, tt)),
)

parse_slab_index_section-Decodes_example :
    Reads (parse_slab_index_section ascii_chars 4096) (slab_index_bytes two_slabs) two_slabs
parse_slab_index_section-Decodes_example =
    (parse_slab_index_section-Decodes ascii_chars 4096).reads two_slabs two_slabs_valid

find_iff_example :
    (find two_slabs slab_2.slab_id ≡ some slab_2)
    ↔ (In slab_2 two_slabs.entries × (slab_2.slab_id ≡ slab_2.slab_id))
find_iff_example = find_iff ascii_chars 4096 two_slabs slab_2.slab_id slab_2 two_slabs_valid
