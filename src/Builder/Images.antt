-- ===== src/Builder/Images.antt =====
-- The images that the builder makes, read by the verifier.
use limnifs_py.Prelude.{
  ℕ, ◌*◌, ◌^◌, ◌<◌, ◌≡◌, arith, refl, ap, some, List, [], map, length-map, All, All-of_map,
}
use limnifs_py.Errors.{ok}
use limnifs_py.FeatureFlags.Format.{IsFlag}
use limnifs_py.Locator.{CharClasses}
use limnifs_py.Locator.Format.{IsLocator}
use limnifs_py.MetadataReference.Format.{IsReference}
use limnifs_py.SlabIndex.Format.{IsIndexEntry}
use limnifs_py.History.Format.{IsEntry}
use limnifs_py.FormatTypes.Text.{manifest_root_to_text}
use limnifs_py.Merkle.{Blake3}
use limnifs_py.Verify.{Report, verify_bytes}
use limnifs_py.Verify.Layout.{IsManifest, report_of}
use limnifs_py.Verify.Complete.{verify_bytes-ok}
use limnifs_py.Builder.{ManifestBuilder, build_manifest}
use limnifs_py.Builder.Spec.{
  FeatureFlagSpec, MetadataReferenceSpec, external, inlined, SlabIndexEntrySpec, ManifestSpec,
  ManifestArtifact,
}
use limnifs_py.Builder.Values.{flag_of, locator_of, reference_of, index_entry_of, history_entry_of}
use limnifs_py.Builder.Encoders.{FitsLocator, FitsReference, FitsIndexEntry, FitsHistoryEntry}
use limnifs_py.Builder.Artifact.{manifest_of, artifact_of, Fits, build_manifest_iff}

module _ (chars : CharClasses) where
  fitting_locators :
      (max : ℕ) (locators : List (List ℕ))
      → All (IsLocator chars max) (map locator_of locators)
      → All FitsLocator locators
  fitting_locators max =
      All-of_map locator_of (IsLocator chars max) FitsLocator λ uri v. (v.text, v.fits)

  fitting_reference :
      (blake3 : Blake3) (r : MetadataReferenceSpec)
      → IsReference chars 4096 (1024 * 1024) (reference_of blake3 r)
      → FitsReference r
  fitting_reference blake3 (external metadata_hash locators) v = (
    omega (arith, v.count, length-map locator_of locators),
    fitting_locators 4096 locators v.valid,
  )
  fitting_reference blake3 (inlined metadata) v = v.inline.2

  fitting_index_entry :
      (max : ℕ) (e : SlabIndexEntrySpec)
      → IsIndexEntry chars max (index_entry_of e)
      → FitsIndexEntry e
  fitting_index_entry max e (id, some_locator, count, locators) = (
    id.0,
    omega (arith, length-map locator_of e.locators),
    fitting_locators max e.locators locators,
  )

  module _ (blake3 : Blake3) (b : ManifestBuilder) where
    fitting_manifest : IsManifest chars (manifest_of blake3 b) → Fits blake3 b
    fitting_manifest v = record {
      header = v.header;
      flags = (
        omega (arith, v.flags.0, length-map flag_of b.spec.feature_flags),
        All-of_map flag_of IsFlag (λ (f : FeatureFlagSpec). f.flag_id < 2 ^ 16) (λ f p. p.1)
            b.spec.feature_flags v.flags.1,
      );
      reference = fitting_reference blake3 b.reference v.reference;
      index = (
        omega (arith, v.index.0, length-map index_entry_of b.spec.slab_index),
        All-of_map index_entry_of (IsIndexEntry chars 4096) FitsIndexEntry
            (fitting_index_entry 4096) b.spec.slab_index v.index.1,
      );
      history = (
        omega (arith, v.history.1, length-map history_entry_of b.spec.history),
        All-of_map history_entry_of (IsEntry 4096) FitsHistoryEntry
            (λ e p. (p.timestamp, p.input_count, p.params_fit)) b.spec.history v.history.2,
      );
      hash = v.reference.hash;
    }

  -- What the builder makes verifies: from a specification with a metadata reference whose values
  -- are, with no optional sections, a valid image, whichever feature flags it requires, the
  -- builder returns an artifact, and verifying the artifact's bytes returns a report with the text
  -- of the artifact's root and no extra bytes.
  pub build_manifest-verify_bytes :
      (blake3 : Blake3) (spec : ManifestSpec) (r : MetadataReferenceSpec)
      → spec.metadata_reference ≡ some r
      → IsManifest chars (manifest_of blake3 (record { spec = spec; reference = r }))
      → (a : ManifestArtifact) × (report : Report) × (build_manifest blake3 spec ≡ ok a)
        × (verify_bytes blake3 chars a.bytes ≡ ok report)
        × (report.merkle_root ≡ manifest_root_to_text a.merkle_root)
        × (report.extra_bytes_after_history ≡ 0)
  build_manifest-verify_bytes blake3 spec r e v =
      let b : ManifestBuilder = record { spec = spec; reference = r } in
      let m = manifest_of blake3 b in
      (
        artifact_of blake3 b,
        report_of blake3 m [],
        (build_manifest_iff blake3 spec (artifact_of blake3 b)).1 (
          r,
          e,
          (λ none_left. v.history.0 (ap (map history_entry_of) none_left)),
          fitting_manifest blake3 b v,
          refl,
        ),
        verify_bytes-ok blake3 chars m [] v,
        refl,
        refl,
      )
