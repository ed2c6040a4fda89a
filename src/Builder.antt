-- ===== src/Builder.antt =====
-- limnifs/builder.py: the encoders of the sections, and the builder that runs them and computes the
-- root.
pub mod Output
pub mod Spec
pub mod Values
pub mod Encoders
pub mod Artifact
pub mod Images
mod Tests
use limnifs_py.Prelude.{
  ℕ, Bool, Option, none, some, List, [], ◌∷◌, ◌++◌, length, replicate, is_empty, if◌then◌else◌,
}
use limnifs_py.Errors.{Result, ok, err, value_error, ◌>>=◌}
use limnifs_py.Wire.{pack_le, pack_hhh}
use limnifs_py.Utf8.{encode_text}
use limnifs_py.Cursor.{slice}
use limnifs_py.FormatTypes.{ManifestRoot, manifest_magic, slab_id_to_bytes}
use limnifs_py.FeatureFlags.{section_version}
use limnifs_py.MetadataReference.{metadata_reference_section_version}
use limnifs_py.SlabIndex.{slab_index_section_version}
use limnifs_py.History.{history_section_version}
use limnifs_py.Merkle.{
  Blake3, make_section_hashes, hash_section, hash_empty_section, compute_merkle_root,
}
use limnifs_py.Builder.Output.{Writer, ◌then◌, emit, emit_byte, emit_result, emit_each}
use limnifs_py.Builder.Spec.{
  HeaderSpec, FeatureFlagSpec, MetadataReferenceSpec, external, inlined, SlabIndexEntrySpec,
  HistoryEntrySpec, int_of_op, ManifestSpec, ManifestArtifact,
}

-- `_spec`, and its `metadata_reference`, which `__init__` has found not to be None.
pub record ManifestBuilder : Type 0 where
  pub spec : ManifestSpec
  pub reference : MetadataReferenceSpec

-- `ManifestBuilder.__init__`
unfoldable pub make_builder : ManifestSpec → Result ManifestBuilder
make_builder spec = elim spec.metadata_reference [
  | none ↦ err value_error
  | some reference ↦
      if is_empty spec.history
      then err value_error
      else ok (record { spec = spec; reference = reference })
]

unfoldable pub encode_locator : List ℕ → Writer
encode_locator uri out = do
  encoded ← encode_text uri
  (emit_result (pack_le 4 (length encoded)) then emit encoded) out

unfoldable pub encode_header : HeaderSpec → Writer
encode_header h =
    emit manifest_magic
    then emit_result (pack_hhh h.drop_store_version h.metadata_version h.manifest_version)
    then emit (replicate 6 0)

unfoldable pub encode_flag : FeatureFlagSpec → Writer
encode_flag flag =
    emit_result (pack_le 2 flag.flag_id) then emit_byte (if flag.required then 1 else 0)

unfoldable pub encode_feature_flags : List FeatureFlagSpec → Writer
encode_feature_flags flags =
    emit_byte section_version
    then emit_result (pack_le 4 (length flags))
    then emit_each encode_flag flags

abbrev pub locators_of : MetadataReferenceSpec → List (List ℕ)
locators_of (external metadata_hash locators) = locators
locators_of (inlined metadata) = []

-- `inline_metadata`, where None is `none`
abbrev pub inline_metadata_of : MetadataReferenceSpec → Option (List ℕ)
inline_metadata_of (external metadata_hash locators) = none
inline_metadata_of (inlined metadata) = some metadata

unfoldable pub encode_inline : Option (List ℕ) → Writer
encode_inline none = emit_result (pack_le 4 0)
encode_inline (some metadata) = emit_result (pack_le 4 (length metadata)) then emit metadata

unfoldable pub encode_index_entry : SlabIndexEntrySpec → Writer
encode_index_entry entry =
    emit_result (slab_id_to_bytes entry.slab_id)
    then emit_result (pack_le 4 (length entry.locators))
    then emit_each encode_locator entry.locators

unfoldable pub encode_slab_index : List SlabIndexEntrySpec → Writer
encode_slab_index entries =
    emit_byte slab_index_section_version
    then emit_result (pack_le 4 (length entries))
    then emit_each encode_index_entry entries

unfoldable pub encode_input : ManifestRoot → Writer
encode_input input_root = emit input_root.bytes

unfoldable pub encode_history_entry : HistoryEntrySpec → Writer
encode_history_entry entry =
    emit_byte (int_of_op entry.op)
    then emit_result (pack_le 8 entry.timestamp_ns)
    then emit_result (pack_le 4 (length entry.inputs))
    then emit_each encode_input entry.inputs
    then emit_result (pack_le 4 (length entry.params))
    then emit entry.params

unfoldable pub encode_history : List HistoryEntrySpec → Writer
encode_history entries =
    emit_byte history_section_version
    then emit_result (pack_le 4 (length entries))
    then emit_each encode_history_entry entries

module _ (blake3 : Blake3) where
  abbrev pub metadata_hash_of : MetadataReferenceSpec → List ℕ
  metadata_hash_of (external metadata_hash locators) = metadata_hash
  metadata_hash_of (inlined metadata) = hash_section blake3 metadata

  -- The function returns the hash, which is `metadata_hash_of reference`.
  unfoldable pub encode_metadata_reference : MetadataReferenceSpec → Writer
  encode_metadata_reference reference =
      emit_byte metadata_reference_section_version
      then emit (metadata_hash_of reference)
      then emit_result (pack_le 4 (length (locators_of reference)))
      then emit_each encode_locator (locators_of reference)
      then encode_inline (inline_metadata_of reference)

  -- `ManifestBuilder.build`. A section ends where the next one starts.
  unfoldable pub build_artifact : ManifestBuilder → Result ManifestArtifact
  build_artifact builder = do
    out_header ← encode_header builder.spec.header []
    let header_end = length out_header
    out_flags ← encode_feature_flags builder.spec.feature_flags out_header
    let flags_end = length out_flags
    out_reference ← encode_metadata_reference builder.reference out_flags
    let meta_ref_end = length out_reference
    out_index ← encode_slab_index builder.spec.slab_index out_reference
    let slab_index_end = length out_index
    out ← encode_history builder.spec.history out_index
    section_hashes ← make_section_hashes (record {
      metadata = metadata_hash_of builder.reference;
      format_header = hash_section blake3 (slice out 0 header_end);
      feature_flags = hash_section blake3 (slice out header_end flags_end);
      metadata_reference = hash_section blake3 (slice out flags_end meta_ref_end);
      slab_index = hash_section blake3 (slice out meta_ref_end slab_index_end);
      crypto_params = hash_empty_section blake3;
      ec_params = hash_empty_section blake3;
      dms_policy = hash_empty_section blake3;
      delta_linkage = hash_empty_section blake3;
      history = hash_section blake3 (slice out slab_index_end (length out));
    })
    merkle_root ← compute_merkle_root blake3 section_hashes
    ok (record { bytes = out; merkle_root = merkle_root; section_hashes = section_hashes })

  -- `ManifestBuilder(spec).build()`
  unfoldable pub build_manifest : ManifestSpec → Result ManifestArtifact
  unfolding build_artifact
  build_manifest spec = do builder ← make_builder spec; build_artifact builder
