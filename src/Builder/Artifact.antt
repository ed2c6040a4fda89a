-- ===== src/Builder/Artifact.antt =====
-- What the builder makes of a specification, and where it raises.
use limnifs_py.Prelude.{
  ℕ, ◌≡◌, ◌≢◌, ◌↔◌, refl, sym, ap, ◌∙◌, none, some, List, [], ◌∷◌, ◌++◌, append-nil, append_assoc,
  arith, length, Option-cases, Bool-cases, inl, inr, is_empty, false,
}
use limnifs_py.Errors.{Result, ok, err, ok-injective, ◌>>=◌}
use limnifs_py.Cursor.{slice}
use limnifs_py.Header.Format.{header_bytes, IsHeader}
use limnifs_py.FeatureFlags.Format.{flags_bytes}
use limnifs_py.MetadataReference.Format.{reference_bytes}
use limnifs_py.SlabIndex.Format.{slab_index_bytes}
use limnifs_py.History.Format.{history_bytes}
use limnifs_py.Merkle.{
  Blake3, SectionHashes, make_section_hashes, all_32, hash_section, hash_empty_section,
}
use limnifs_py.Verify.Spans.{slice-span}
use limnifs_py.Verify.Layout.{Manifest, manifest_bytes, hashes_of, root_of}
use limnifs_py.Verify.Complete.{make_section_hashes_ok, compute_merkle_root_ok}
use limnifs_py.Builder.Spec.{
  MetadataReferenceSpec, external, inlined, ManifestSpec, ManifestArtifact,
}
use limnifs_py.Builder.{
  ManifestBuilder, make_builder, build_artifact, build_manifest, metadata_hash_of, encode_header,
  encode_feature_flags, encode_metadata_reference, encode_slab_index, encode_history,
}
use limnifs_py.Builder.Values.{header_of, flags_of, reference_of, index_of, history_of}
use limnifs_py.Builder.Encoders.{
  FitsFlags, FitsReference, FitsIndex, FitsHistory, Writes-header, Writes-flags, Writes-reference,
  Writes-index, Writes-history,
}

bind-ok {ℓ κ} :
    {A : Type ℓ} {B : Type κ} (r : Result A) (f : A → Result B) {b : B}
    → (r >>= f) ≡ ok b
    → (a : A) × (r ≡ ok a) × (f a ≡ ok b)
bind-ok (ok a) f h = (a, refl, h)
bind-ok (err e) f h = cc

-- Five sections, appended one by one, and cut out between their ends.
module _ (a b c d e : List ℕ) where
  abbrev whole : List ℕ
  whole = (((a ++ b) ++ c) ++ d) ++ e

  abbrev laid_out : List ℕ
  laid_out = a ++ (b ++ (c ++ (d ++ e)))

  whole-laid_out : whole ≡ laid_out
  whole-laid_out = simp append_assoc

  cut_first : slice whole 0 (length a) ≡ a
  cut_first = rw whole-laid_out (slice-span [] a (b ++ (c ++ (d ++ e))))

  cut_second : slice whole (length a) (length (a ++ b)) ≡ b
  cut_second = rw whole-laid_out (slice-span a b (c ++ (d ++ e)))

  cut_third : slice whole (length (a ++ b)) (length ((a ++ b) ++ c)) ≡ c
  cut_third =
      let e3 : whole ≡ (a ++ b) ++ (c ++ (d ++ e)) = simp append_assoc in
      ap (λ t. slice t (length (a ++ b)) (length ((a ++ b) ++ c))) e3
      ∙ slice-span (a ++ b) c (d ++ e)

  cut_fourth : slice whole (length ((a ++ b) ++ c)) (length (((a ++ b) ++ c) ++ d)) ≡ d
  cut_fourth =
      let e4 : whole ≡ ((a ++ b) ++ c) ++ (d ++ e) = append_assoc ((a ++ b) ++ c) d e in
      ap (λ t. slice t (length ((a ++ b) ++ c)) (length (((a ++ b) ++ c) ++ d))) e4
      ∙ slice-span ((a ++ b) ++ c) d e

  cut_fifth : slice whole (length (((a ++ b) ++ c) ++ d)) (length whole) ≡ e
  cut_fifth =
      let front = ((a ++ b) ++ c) ++ d in
      ap (λ t. slice (front ++ t) (length front) (length whole)) (sym (append-nil e))
      ∙ slice-span front e []

is_empty-NotNil {ℓ} : {A : Type ℓ} (xs : List A) → is_empty xs ≡ false ↔ (xs ≢ [])
is_empty-NotNil [] = ((λ h. cc), (λ h. absurd (h refl)))
is_empty-NotNil (x ∷ xs) = ((λ h e. cc), (λ h. refl))

-- What `__init__` lets through.
make_builder-ok :
    (spec : ManifestSpec) {b : ManifestBuilder}
    → make_builder spec ≡ ok b
    → (r : MetadataReferenceSpec) × (spec.metadata_reference ≡ some r)
      × (spec.history ≢ [])
      × (record { spec = spec; reference = r } ≡ b)
unfolding make_builder
make_builder-ok spec h = elim (Option-cases spec.metadata_reference) [
  | inl missing ↦ absurd (ground arith)
  | inr (r, e) ↦ elim (Bool-cases (is_empty spec.history)) [
    | inl empty ↦ absurd (ground arith)
    | inr some_history ↦ (r, e, (is_empty-NotNil spec.history).0 some_history, ground arith)
  ]
]

ok-make_builder :
    (spec : ManifestSpec) (r : MetadataReferenceSpec)
    → spec.metadata_reference ≡ some r
    → spec.history ≢ []
    → make_builder spec ≡ ok (record { spec = spec; reference = r })
unfolding make_builder
ok-make_builder spec r e h = ground (arith, e, (is_empty-NotNil spec.history).1 h)

module _ (blake3 : Blake3) where
  -- The optional sections are not there.
  abbrev pub manifest_of : ManifestBuilder → Manifest
  manifest_of b = record {
    header = header_of b.spec.header;
    flags = flags_of b.spec.feature_flags;
    reference = reference_of blake3 b.reference;
    index = index_of b.spec.slab_index;
    ec = none;
    dms = none;
    history = history_of b.spec.history;
  }

  abbrev pub artifact_of : ManifestBuilder → ManifestArtifact
  artifact_of b = record {
    bytes = manifest_bytes (manifest_of b) [];
    merkle_root = root_of blake3 (manifest_of b);
    section_hashes = hashes_of blake3 (manifest_of b);
  }

  -- Every number fits its width, every locator is a text without surrogates, and the hash of the
  -- metadata has 32 bytes.
  pub record Fits (b : ManifestBuilder) : Type 0 where
    pub header : IsHeader (header_of b.spec.header)
    pub flags : FitsFlags b.spec.feature_flags
    pub reference : FitsReference b.reference
    pub index : FitsIndex b.spec.slab_index
    pub history : FitsHistory b.spec.history
    pub hash : length (reference_of blake3 b.reference).metadata_hash ≡ 32

  metadata_hash_of_lem :
      (r : MetadataReferenceSpec)
      → metadata_hash_of blake3 r ≡ (reference_of blake3 r).metadata_hash
  unfolding hash_section
  metadata_hash_of_lem (external metadata_hash locators) = refl
  metadata_hash_of_lem (inlined metadata) = refl

  build_fitting : (b : ManifestBuilder) → Fits b → build_artifact blake3 b ≡ ok (artifact_of b)
  unfolding build_artifact hash_section hash_empty_section
  build_fitting b v =
      let ha = header_bytes (header_of b.spec.header) in
      let fl = flags_bytes (flags_of b.spec.feature_flags) in
      let re = reference_bytes (reference_of blake3 b.reference) in
      let ix = slab_index_bytes (index_of b.spec.slab_index) in
      let hi = history_bytes (history_of b.spec.history) in
      rw
        (
          metadata_hash_of_lem b.reference,
          (Writes-header b.spec.header).fit [] v.header,
          (Writes-flags b.spec.feature_flags).fit ha v.flags,
          (Writes-reference blake3 b.reference).fit (ha ++ fl) v.reference,
          (Writes-index b.spec.slab_index).fit ((ha ++ fl) ++ re) v.index,
          (Writes-history b.spec.history).fit (((ha ++ fl) ++ re) ++ ix) v.history,
          cut_first ha fl re ix hi,
          cut_second ha fl re ix hi,
          cut_third ha fl re ix hi,
          cut_fourth ha fl re ix hi,
          cut_fifth ha fl re ix hi,
          make_section_hashes_ok blake3 (manifest_of b) v.hash,
          compute_merkle_root_ok blake3 (manifest_of b),
          whole-laid_out ha fl re ix hi,
        )
        (simp append-nil)

  hashes-hash :
      (s : SectionHashes) {t : SectionHashes}
      → make_section_hashes s ≡ ok t
      → length s.metadata ≡ 32
  unfolding make_section_hashes all_32
  hashes-hash s h = ground arith

  fitting : (b : ManifestBuilder) {a : ManifestArtifact} → build_artifact blake3 b ≡ ok a → Fits b
  unfolding build_artifact
  fitting b h =
      let (out1, e1, h1) = bind-ok (encode_header b.spec.header []) _ h in
      let (out2, e2, h2) = bind-ok (encode_feature_flags b.spec.feature_flags out1) _ h1 in
      let (out3, e3, h3) = bind-ok (encode_metadata_reference blake3 b.reference out2) _ h2 in
      let (out4, e4, h4) = bind-ok (encode_slab_index b.spec.slab_index out3) _ h3 in
      let (out5, e5, h5) = bind-ok (encode_history b.spec.history out4) _ h4 in
      let (hashes, e6, h6) = bind-ok (make_section_hashes _) _ h5 in
      record {
        header = (Writes-header b.spec.header).needs [] e1;
        flags = (Writes-flags b.spec.feature_flags).needs out1 e2;
        reference = (Writes-reference blake3 b.reference).needs out2 e3;
        index = (Writes-index b.spec.slab_index).needs out3 e4;
        history = (Writes-history b.spec.history).needs out4 e5;
        hash = ap length (sym (metadata_hash_of_lem b.reference)) ∙ hashes-hash _ e6;
      }

  build_artifact_iff :
      (b : ManifestBuilder) (a : ManifestArtifact)
      → (build_artifact blake3 b ≡ ok a) ↔ (Fits b × (a ≡ artifact_of b))
  build_artifact_iff b a = (
    (λ h. let v = fitting b h in (v, ok-injective (sym h ∙ build_fitting b v))),
    (λ (v, e). build_fitting b v ∙ ap ok (sym e)),
  )

  -- The builder returns an artifact exactly if the specification has a metadata reference and a
  -- history that is not empty, every number and length fits its width, every locator is a text
  -- without surrogates, and the hash of the metadata has 32 bytes; the artifact is then the layout
  -- of the described sections, the metadata with the given hash and locators or inlined under its
  -- digest and without locators, with the digests of their bytes, of nothing for the optional
  -- ones, and the root over them.
  pub build_manifest_iff :
      (spec : ManifestSpec) (a : ManifestArtifact)
      → (build_manifest blake3 spec ≡ ok a) ↔ (
          (r : MetadataReferenceSpec) × (spec.metadata_reference ≡ some r)
          × (spec.history ≢ [])
          × Fits (record { spec = spec; reference = r })
          × (a ≡ artifact_of (record { spec = spec; reference = r })))
  unfolding build_manifest make_builder
  build_manifest_iff spec a = (
    (λ h.
        let (b, init, built) = bind-ok (make_builder spec) (build_artifact blake3) h in
        let (r, e, some_history, same) = make_builder-ok spec init in
        let (v, made) =
          (build_artifact_iff (record { spec = spec; reference = r }) a).0
            (ap (build_artifact blake3) same ∙ built) in
        (r, e, some_history, v, made)),
    (λ (r, e, some_history, v, made).
        rw (ok-make_builder spec r e some_history)
          ((build_artifact_iff (record { spec = spec; reference = r }) a).1 (v, made))),
  )
