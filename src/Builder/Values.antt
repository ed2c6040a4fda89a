-- ===== src/Builder/Values.antt =====
-- The values of the sections that a specification describes.
use limnifs_py.Prelude.{ℕ, none, some, List, [], map}
use limnifs_py.Builder.Spec.{
  HeaderSpec, FeatureFlagSpec, MetadataReferenceSpec, external, inlined, SlabIndexEntrySpec,
  HistoryOpSpec, build, delta, flatten, turnover, deepen, HistoryEntrySpec,
}
use limnifs_py.FeatureFlags.{FeatureFlag, FeatureFlags}
use limnifs_py.MetadataReference.{MetadataReference}
use limnifs_py.SlabIndex.{SlabIndexEntry, SlabIndex}
use limnifs_py.History.{HistoryOp, HistoryEntry, History}
use limnifs_py.Merkle.{Blake3}
use limnifs_py.Header.{ManifestHeader}
use limnifs_py.Locator.{LocatorEntry}

abbrev pub header_of : HeaderSpec → ManifestHeader
header_of h = record {
  drop_store_version = h.drop_store_version;
  metadata_version = h.metadata_version;
  manifest_version = h.manifest_version;
}

abbrev pub flag_of : FeatureFlagSpec → FeatureFlag
flag_of f = record { flag_id = f.flag_id; required = f.required }

abbrev pub flags_of : List FeatureFlagSpec → FeatureFlags
flags_of flags = record { entries = map flag_of flags }

abbrev pub locator_of : List ℕ → LocatorEntry
locator_of uri = record { uri = uri }

abbrev pub reference_of : Blake3 → MetadataReferenceSpec → MetadataReference
reference_of blake3 (external metadata_hash locators) = record {
  metadata_hash = metadata_hash;
  locators = map locator_of locators;
  inline_metadata = none;
}
reference_of blake3 (inlined metadata) = record {
  metadata_hash = blake3.digest metadata;
  locators = [];
  inline_metadata = some metadata;
}

abbrev pub index_entry_of : SlabIndexEntrySpec → SlabIndexEntry
index_entry_of e = record { slab_id = e.slab_id; locators = map locator_of e.locators }

abbrev pub index_of : List SlabIndexEntrySpec → SlabIndex
index_of entries = record { entries = map index_entry_of entries }

abbrev pub op_of : HistoryOpSpec → HistoryOp
op_of build = HistoryOp.build
op_of delta = HistoryOp.delta
op_of flatten = HistoryOp.flatten
op_of turnover = HistoryOp.turnover
op_of deepen = HistoryOp.deepen

abbrev pub history_entry_of : HistoryEntrySpec → HistoryEntry
history_entry_of e = record {
  op = op_of e.op;
  timestamp_ns = e.timestamp_ns;
  inputs = e.inputs;
  params = e.params;
}

abbrev pub history_of : List HistoryEntrySpec → History
history_of entries = record { entries = map history_entry_of entries }
