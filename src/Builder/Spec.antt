-- ===== src/Builder/Spec.antt =====
-- limnifs/builder.py: the declarative descriptions of the sections.
use limnifs_py.Prelude.{ℕ, Bool, Option, none, List, []}
use limnifs_py.FormatTypes.{SlabId, ManifestRoot}
use limnifs_py.Merkle.{SectionHashes}

pub record HeaderSpec : Type 0 where
  pub drop_store_version : ℕ
  pub metadata_version : ℕ
  pub manifest_version : ℕ

pub record FeatureFlagSpec : Type 0 where
  pub flag_id : ℕ
  pub required : Bool

-- `MetadataReferenceExternalSpec` and `MetadataReferenceInlinedSpec`; a locator is a text.
pub data MetadataReferenceSpec : Type 0 where
  external : (metadata_hash : List ℕ) (locators : List (List ℕ)) → MetadataReferenceSpec
  inlined : (metadata : List ℕ) → MetadataReferenceSpec

pub record SlabIndexEntrySpec : Type 0 where
  pub slab_id : SlabId
  pub locators : List (List ℕ)

pub data HistoryOpSpec : Type 0 where
  build delta flatten turnover deepen : HistoryOpSpec

-- `int(op)`
abbrev pub int_of_op : HistoryOpSpec → ℕ
int_of_op build = 0x01
int_of_op delta = 0x02
int_of_op flatten = 0x03
int_of_op turnover = 0x04
int_of_op deepen = 0x05

pub record HistoryEntrySpec : Type 0 where
  pub op : HistoryOpSpec
  pub timestamp_ns : ℕ
  pub inputs : List ManifestRoot
  pub params : List ℕ

pub record ManifestSpec : Type 0 where
  pub header : HeaderSpec
  pub feature_flags : List FeatureFlagSpec
  pub metadata_reference : Option MetadataReferenceSpec
  pub slab_index : List SlabIndexEntrySpec
  pub history : List HistoryEntrySpec

-- `ManifestSpec()`
abbrev pub default_spec : ManifestSpec
default_spec = record {
  header = record { drop_store_version = 1; metadata_version = 1; manifest_version = 1 };
  feature_flags = [];
  metadata_reference = none;
  slab_index = [];
  history = [];
}

pub record ManifestArtifact : Type 0 where
  pub bytes : List ℕ
  pub merkle_root : ManifestRoot
  pub section_hashes : SectionHashes
