-- ===== src/Verify/Identity.antt =====
-- The root identifies an image.
use limnifs_py.Prelude.{
  ℕ, ◌≡◌, ◌≢◌, ◌⊎◌, refl, sym, ap, ◌∙◌, inl, inr, List, [], ◌∷◌, map, All, length, bytes_eq,
  bytes_eq_iff, Bool-cases, arith,
}
use limnifs_py.Errors.{ok}
use limnifs_py.Wire.{IsByte}
use limnifs_py.FormatTypes.{ManifestRoot}
use limnifs_py.FormatTypes.Text.{manifest_root_to_text, encode_base32-injective}
use limnifs_py.Header.Format.{header_bytes}
use limnifs_py.FeatureFlags.Format.{flags_bytes}
use limnifs_py.Locator.{CharClasses}
use limnifs_py.MetadataReference.Format.{reference_bytes}
use limnifs_py.SlabIndex.Format.{slab_index_bytes}
use limnifs_py.EcParams.Format.{ec_params_bytes}
use limnifs_py.DmsPolicy.Shares.{dms_policy_bytes}
use limnifs_py.History.Format.{history_bytes}
use limnifs_py.Merkle.{Blake3, SectionHashes, merkle_input}
use limnifs_py.Merkle.Binding.{
  make_section_hashes_iff, AreSectionHashes, compute_merkle_root-binding,
}
use limnifs_py.Verify.{Report, verify_bytes}
use limnifs_py.Verify.Layout.{
  Manifest, manifest_bytes, option_bytes, IsManifest, hashes_of, root_of,
}
use limnifs_py.Verify.Complete.{make_section_hashes_ok, compute_merkle_root_ok}
use limnifs_py.Verify.Sound.{verify_bytes_sound}

abbrev pub sections : Manifest → List (List ℕ)
sections m =
    header_bytes m.header
    ∷ flags_bytes m.flags
    ∷ reference_bytes m.reference
    ∷ slab_index_bytes m.index
    ∷ option_bytes ec_params_bytes m.ec
    ∷ option_bytes dms_policy_bytes m.dms
    ∷ history_bytes m.history
    ∷ []

-- One of the pairs is of two different byte strings with one digest.
abbrev pub CollisionIn : Blake3 → List (List ℕ) → List (List ℕ) → Type 0
CollisionIn blake3 (x ∷ xs) (y ∷ ys) =
    ((x ≢ y) × (blake3.digest x ≡ blake3.digest y)) ⊎ CollisionIn blake3 xs ys
CollisionIn blake3 _ _ = ⊥

-- What is hashed for an image: the bytes under the root, and each section.
abbrev pub hashed : Blake3 → Manifest → List (List ℕ)
hashed blake3 m = merkle_input (hashes_of blake3 m) ∷ sections m

module _ (blake3 : Blake3) where
  -- Byte strings with the same digests, one by one, are the same, or a pair of them collides.
  same-digests :
      (xs ys : List (List ℕ))
      → map blake3.digest xs ≡ map blake3.digest ys
      → (xs ≡ ys) ⊎ CollisionIn blake3 xs ys
  same-digests [] [] e = inl refl
  same-digests [] (y ∷ ys) e = cc
  same-digests (x ∷ xs) [] e = cc
  same-digests (x ∷ xs) (y ∷ ys) e = elim (Bool-cases (bytes_eq x y)) [
    | inl same ↦
        let first = (bytes_eq_iff x y).0 same in
        elim (same-digests xs ys (ground arith)) [ inr c ↦ inr (inr c) | inl rest ↦ inl cc ]
    | inr other ↦ inr (inl ((λ p. cc (other, (bytes_eq_iff x y).1 p)), ground arith))
  ]

  hashes_of-AreSectionHashes :
      (m : Manifest) → length m.reference.metadata_hash ≡ 32 → AreSectionHashes (hashes_of blake3 m)
  hashes_of-AreSectionHashes m h =
      ((make_section_hashes_iff (hashes_of blake3 m) (hashes_of blake3 m)).0
        (make_section_hashes_ok blake3 m h)).1

  same-text :
      (m m' : Manifest)
      → manifest_root_to_text (root_of blake3 m) ≡ manifest_root_to_text (root_of blake3 m')
      → root_of blake3 m ≡ root_of blake3 m'
  unfolding manifest_root_to_text
  same-text m m' e =
      let digests =
        encode_base32-injective (root_of blake3 m).bytes (root_of blake3 m').bytes
          (blake3.digest-IsByte _) (blake3.digest-IsByte _) (ground arith) in
      ap (λ (bs : List ℕ). let r : ManifestRoot = record { bytes = bs } in r) digests

  -- Images with one root have the same sections, byte for byte, or what is hashed for them collides.
  same-root :
      (m m' : Manifest)
      → length m.reference.metadata_hash ≡ 32
      → length m'.reference.metadata_hash ≡ 32
      → root_of blake3 m ≡ root_of blake3 m'
      → (sections m ≡ sections m') ⊎ CollisionIn blake3 (hashed blake3 m) (hashed blake3 m')
  same-root m m' h h' e =
      elim (compute_merkle_root-binding blake3 (hashes_of blake3 m) (hashes_of blake3 m')
        (hashes_of-AreSectionHashes m h) (hashes_of-AreSectionHashes m' h')
        (compute_merkle_root_ok blake3 m ∙ (ap ok e ∙ sym (compute_merkle_root_ok blake3 m')))) [
          | inr c ↦ inr (inl c)
          | inl same ↦
              let digests =
                ap
                  (λ (s : SectionHashes).
                    s.format_header ∷ s.feature_flags ∷ s.metadata_reference ∷ s.slab_index
                    ∷ s.ec_params ∷ s.dms_policy ∷ s.history ∷ [])
                  same in
              elim (same-digests (sections m) (sections m') digests) [
                | inl all ↦ inl all
                | inr c ↦ inr (inr c)
              ]
        ]

  -- The root identifies an image: two files of bytes that verify with the same root are the
  -- layouts of two valid images, with something behind each, and the images have the same
  -- sections, byte for byte, or the digest collides on what is hashed for them: the bytes hashed
  -- into their roots, or the two byte strings of one of the sections, differ and have one digest.
  pub verify_bytes-binding :
      (chars : CharClasses) (buf buf' : List ℕ) (report report' : Report)
      → All IsByte buf
      → All IsByte buf'
      → verify_bytes blake3 chars buf ≡ ok report
      → verify_bytes blake3 chars buf' ≡ ok report'
      → report.merkle_root ≡ report'.merkle_root
      → (m : Manifest) × (m' : Manifest) × (extra : List ℕ) × (extra' : List ℕ) × IsManifest chars m
        × IsManifest chars m'
        × (buf ≡ manifest_bytes m extra)
        × (buf' ≡ manifest_bytes m' extra')
        × ((sections m ≡ sections m') ⊎ CollisionIn blake3 (hashed blake3 m) (hashed blake3 m'))
  verify_bytes-binding chars buf buf' report report' y y' h h' e =
      let (m, extra, valid, layout, reported) = verify_bytes_sound blake3 chars buf report y h in
      let (m', extra', valid', layout', reported') =
        verify_bytes_sound blake3 chars buf' report' y' h' in
      let text =
        sym (ap (λ (r : Report). r.merkle_root) reported)
        ∙ (e ∙ ap (λ (r : Report). r.merkle_root) reported') in
      (
        m,
        m',
        extra,
        extra',
        valid,
        valid',
        layout,
        layout',
        same-root m m' valid.reference.hash valid'.reference.hash (same-text m m' text),
      )
