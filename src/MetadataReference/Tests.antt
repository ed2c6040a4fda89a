-- ===== src/MetadataReference/Tests.antt =====
-- A reference with one locator and two bytes in place.
use limnifs_py.Prelude.{◌*◌, refl, some, [], ◌∷◌, arith, replicate}
use limnifs_py.Cursor.Reads.{Reads}
use limnifs_py.Locator.Tests.{ascii_chars, s3_locator, s3_locator_valid}
use limnifs_py.MetadataReference.{MetadataReference, parse_metadata_reference_section}
use limnifs_py.MetadataReference.Format.{
  IsReference, reference_bytes, parse_metadata_reference_section-Decodes,
}

abbrev pub both_sources : MetadataReference
both_sources = record {
  metadata_hash = replicate 32 7;
  locators = s3_locator ∷ [];
  inline_metadata = some (1 ∷ 2 ∷ []);
}

pub both_sources_valid : IsReference ascii_chars 4096 (1024 * 1024) both_sources
both_sources_valid = record {
  hash = refl;
  count = omega arith;
  valid = (s3_locator_valid, tt);
  inline = omega arith;
  reachable = refl;
}

parse_metadata_reference_section-Decodes_example :
    Reads
      (parse_metadata_reference_section ascii_chars 4096 (1024 * 1024))
      (reference_bytes both_sources)
      both_sources
parse_metadata_reference_section-Decodes_example =
    (parse_metadata_reference_section-Decodes ascii_chars 4096 (1024 * 1024)).reads both_sources
      both_sources_valid
