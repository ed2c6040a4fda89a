-- ===== src/Builder/Tests.antt =====
-- A specification with a flag, a slab and inlined metadata, built and verified.
use limnifs_py.Prelude.{◌≡◌, ◌≢◌, ◌↔◌, refl, some, [], ◌∷◌, true, arith, find_first}
use limnifs_py.Errors.{ok, err, value_error}
use limnifs_py.FeatureFlags.{get}
use limnifs_py.Locator.Tests.{ascii_chars}
use limnifs_py.Merkle.Tests.{constant_digest}
use limnifs_py.FormatTypes.Text.{manifest_root_to_text}
use limnifs_py.Verify.{Report, verify_bytes}
use limnifs_py.Verify.Layout.{IsManifest}
use limnifs_py.Merkle.{hash_section}
use limnifs_py.Builder.Spec.{
  MetadataReferenceSpec, inlined, build, ManifestSpec, ManifestArtifact, default_spec,
}
use limnifs_py.Builder.{ManifestBuilder, make_builder, build_manifest}
use limnifs_py.Builder.Artifact.{manifest_of, artifact_of, Fits, build_manifest_iff}
use limnifs_py.Builder.Images.{build_manifest-verify_bytes}

abbrev small_spec : ManifestSpec
small_spec = record default_spec {
  feature_flags = record { flag_id = 7; required = true } ∷ [];
  metadata_reference = some (inlined (1 ∷ 2 ∷ []));
  history = record { op = build; timestamp_ns = 5; inputs = []; params = b'p' ∷ [] } ∷ [];
}

abbrev small_builder : ManifestBuilder
small_builder = record { spec = small_spec; reference = inlined (1 ∷ 2 ∷ []) }

small_valid : IsManifest ascii_chars (manifest_of constant_digest small_builder)
unfolding get find_first hash_section
small_valid = record {
  header = omega arith;
  flags = omega arith;
  reference = record {
    hash = refl;
    count = omega arith;
    valid = tt;
    inline = omega arith;
    reachable = refl;
  };
  index = (omega arith, tt, tt);
  ec_present = refl;
  ec = tt;
  dms_present = refl;
  dms = tt;
  history = (
    (λ e. cc),
    omega arith,
    (
      record {
        timestamp = omega arith;
        input_count = omega arith;
        inputs = tt;
        params_fit = omega arith;
        params_below = omega arith;
      },
      tt,
    ),
  );
  metadata_bytes = omega arith;
}

build_manifest-verify_bytes_example :
    (a : ManifestArtifact) × (report : Report) × (build_manifest constant_digest small_spec ≡ ok a)
    × (verify_bytes constant_digest ascii_chars a.bytes ≡ ok report)
    × (report.merkle_root ≡ manifest_root_to_text a.merkle_root)
    × (report.extra_bytes_after_history ≡ 0)
build_manifest-verify_bytes_example =
    build_manifest-verify_bytes ascii_chars constant_digest small_spec (inlined (1 ∷ 2 ∷ [])) refl
      small_valid

build_manifest_iff_example :
    (build_manifest constant_digest small_spec ≡ ok (artifact_of constant_digest small_builder)) ↔ (
      (r : MetadataReferenceSpec) × (small_spec.metadata_reference ≡ some r)
      × (small_spec.history ≢ [])
      × Fits constant_digest (record { spec = small_spec; reference = r })
      × (artifact_of constant_digest small_builder
          ≡ artifact_of constant_digest (record { spec = small_spec; reference = r })))
build_manifest_iff_example =
    build_manifest_iff constant_digest small_spec (artifact_of constant_digest small_builder)

-- No metadata reference, and no history.
no_reference : make_builder default_spec ≡ err value_error
unfolding make_builder
no_reference = refl

no_history :
    make_builder (record default_spec { metadata_reference = some (inlined []) }) ≡ err value_error
unfolding make_builder
no_history = refl
