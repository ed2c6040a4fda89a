-- ===== src/Verify/Complete.antt =====
-- Every image with the layout of the format verifies.
use limnifs_py.Prelude.{
  ℕ, ◌*◌, ◌≡◌, refl, sym, ap, ◌∙◌, Bool, true, Option, none, some, List, [], ◌∷◌, ◌++◌, All,
  append-nil, arith, length,
}
use limnifs_py.Errors.{ok}
use limnifs_py.Cursor.{Cursor, Parser, pure}
use limnifs_py.Cursor.Reads.{
  Reads, Reads-pure, Reads-bind, Reads-cast, cursor_at, make_cursor_start,
}
use limnifs_py.Cursor.Decodes.{Decodes}
use limnifs_py.FormatTypes.Laws.{make_manifest_root_bytes}
use limnifs_py.Header.Format.{header_bytes, parse_manifest_header-Decodes}
use limnifs_py.FeatureFlags.Format.{flags_bytes, parse_feature_flags_section-Decodes}
use limnifs_py.Locator.{CharClasses}
use limnifs_py.MetadataReference.{is_some}
use limnifs_py.MetadataReference.Format.{
  reference_bytes, inline_bytes, parse_metadata_reference_section-Decodes,
}
use limnifs_py.SlabIndex.Format.{slab_index_bytes, parse_slab_index_section-Decodes}
use limnifs_py.EcParams.Format.{ec_params_bytes, parse_ec_params_section-Decodes}
use limnifs_py.DmsPolicy.Shares.{dms_policy_bytes}
use limnifs_py.DmsPolicy.Format.{parse_dms_policy_section-Decodes}
use limnifs_py.History.Format.{history_bytes, parse_history_section-Decodes}
use limnifs_py.Merkle.{
  Blake3, make_section_hashes, all_32, slots, hash_section, hash_empty_section, compute_merkle_root,
}
use limnifs_py.SlabReader.{value, with_cursor}
use limnifs_py.Wire.{IsByte}
use limnifs_py.Summary.{inline_summary}
use limnifs_py.Summary.Blob.{inline_summary-total}
use limnifs_py.Summary.Inline.{IsInlineSummary, inline_summary-IsInlineSummary}
use limnifs_py.Verify.{optional, optional_hash, verify_sections, verify_bytes}
use limnifs_py.Verify.Spans.{spanned-next, lift-next, extra-next, behind}
use limnifs_py.Verify.Layout.{
  Manifest, ok_or_none, summary_in, option_bytes, IsOption, manifest_bytes, IsManifest, hashes_of,
  root_of, report_of,
}

Reads-optional {ℓ} :
    {A : Type ℓ} (p : Parser A) (encode : A → List ℕ) (Valid : A → Type 0) (present : Bool)
    (o : Option A)
    → Decodes p encode Valid
    → present ≡ is_some o
    → IsOption Valid o
    → Reads (optional present p) (option_bytes encode o) tt
unfolding optional
Reads-optional p encode Valid present none d e v = rw e (Reads-pure tt)
Reads-optional p encode Valid present (some a) d e v =
    rw e (Reads-cast (sym (append-nil (encode a))) (Reads-bind _ (d.reads a v) (Reads-pure tt)))

all_32_lem : (xs : List (List ℕ)) → All (λ x. length x ≡ 32) xs → all_32 xs ≡ true
unfolding all_32
all_32_lem [] h = refl
all_32_lem (x ∷ xs) h = ground (arith, h.0, all_32_lem xs h.1)

module _ (blake3 : Blake3) where
  pub optional_hash-digest {ℓ} :
      {A : Type ℓ} (encode : A → List ℕ) (present : Bool) (o : Option A)
      → present ≡ is_some o
      → optional_hash blake3 present (option_bytes encode o) ≡ blake3.digest (option_bytes encode o)
  unfolding optional_hash hash_section hash_empty_section
  optional_hash-digest encode present none e = rw e
  optional_hash-digest encode present (some a) e = rw e

  pub make_section_hashes_ok :
      (m : Manifest)
      → length m.reference.metadata_hash ≡ 32
      → make_section_hashes (hashes_of blake3 m) ≡ ok (hashes_of blake3 m)
  unfolding make_section_hashes
  make_section_hashes_ok m h =
      let d = λ (bs : List ℕ). blake3.length-digest bs in
      let sizes : all_32 (slots (hashes_of blake3 m)) ≡ true =
        all_32_lem (slots (hashes_of blake3 m))
          (h, (d _, (d _, (d _, (d _, (d _, (d _, (d _, (d _, (d _, tt)))))))))) in
      rw sizes

  pub compute_merkle_root_ok :
      (m : Manifest) → compute_merkle_root blake3 (hashes_of blake3 m) ≡ ok (root_of blake3 m)
  unfolding compute_merkle_root
  compute_merkle_root_ok m = make_manifest_root_bytes _ (blake3.length-digest _)

pub summary_in_ok :
    (m : Manifest)
    → All IsByte (inline_bytes m.reference.inline_metadata)
    → inline_summary m.reference.inline_metadata ≡ ok (summary_in m.reference.inline_metadata)
summary_in_ok m y =
    let (s, e) = inline_summary-total m.reference.inline_metadata y in
    e ∙ ap (λ r. ok (ok_or_none r)) (sym e)

module _ (blake3 : Blake3) (chars : CharClasses) (m : Manifest) (extra : List ℕ)
    (v : IsManifest chars m) where
  sections_run :
      (c : Cursor) × (verify_sections blake3 chars
          (manifest_bytes m extra)
          (cursor_at [] (manifest_bytes m extra))
        ≡ ok (report_of blake3 m extra, c))
  unfolding verify_sections hash_section hash_empty_section pure
  sections_run =
      let buf = manifest_bytes m extra in
      let from_7 = history_bytes m.history ++ extra in
      let from_6 = option_bytes dms_policy_bytes m.dms ++ from_7 in
      let from_5 = option_bytes ec_params_bytes m.ec ++ from_6 in
      let from_4 = slab_index_bytes m.index ++ from_5 in
      let from_3 = reference_bytes m.reference ++ from_4 in
      let from_2 = flags_bytes m.flags ++ from_3 in
      let to_2 = header_bytes m.header ++ flags_bytes m.flags in
      let to_3 = to_2 ++ reference_bytes m.reference in
      let to_4 = to_3 ++ slab_index_bytes m.index in
      let to_5 = to_4 ++ option_bytes ec_params_bytes m.ec in
      let to_6 = to_5 ++ option_bytes dms_policy_bytes m.dms in
      let to_7 = to_6 ++ history_bytes m.history in
      let e2 = behind [] (header_bytes m.header) from_2 refl in
      let e3 = behind (header_bytes m.header) (flags_bytes m.flags) from_3 e2 in
      let e4 = behind to_2 (reference_bytes m.reference) from_4 e3 in
      let e5 = behind to_3 (slab_index_bytes m.index) from_5 e4 in
      let e6 = behind to_4 (option_bytes ec_params_bytes m.ec) from_6 e5 in
      let e7 = behind to_5 (option_bytes dms_policy_bytes m.dms) from_7 e6 in
      (
        cursor_at to_7 extra,
        spanned-next buf [] _ from_2 _ _ refl
              (parse_manifest_header-Decodes.reads m.header v.header)
            ∙ (spanned-next buf (header_bytes m.header) _ from_3 _ _ e2
                  (parse_feature_flags_section-Decodes.reads m.flags v.flags)
                ∙ (spanned-next buf to_2 _ from_4 _ _ e3 (
                      (parse_metadata_reference_section-Decodes chars 4096 (1024 * 1024)).reads
                        m.reference v.reference)
                    ∙ (spanned-next buf to_3 _ from_5 _ _ e4
                          ((parse_slab_index_section-Decodes chars 4096).reads m.index v.index)
                        ∙ (spanned-next buf to_4 _ from_6 _ _ e5 (
                              Reads-optional _ ec_params_bytes _ _ m.ec
                                parse_ec_params_section-Decodes v.ec_present v.ec)
                            ∙ (spanned-next buf to_5 _ from_7 _ _ e6 (
                                  Reads-optional _ dms_policy_bytes _ _ m.dms
                                    (parse_dms_policy_section-Decodes 1024 4096) v.dms_present
                                    v.dms)
                                ∙ (spanned-next buf to_6 _ extra _ _ e7 (
                                      (parse_history_section-Decodes 4096).reads m.history
                                        v.history)
                                    ∙ (extra-next to_7 extra _
                                        ∙ (lift-next _ _ (
                                              rw
                                                (
                                                  optional_hash-digest blake3 ec_params_bytes _ m.ec
                                                      v.ec_present,
                                                  optional_hash-digest blake3 dms_policy_bytes _
                                                      m.dms v.dms_present,
                                                )
                                                (make_section_hashes_ok blake3 m v.reference.hash))
                                            ∙ (lift-next _ _ (compute_merkle_root_ok blake3 m)
                                                ∙ lift-next _ _
                                                    (summary_in_ok m v.metadata_bytes)))))))))),
      )

  pub verify_bytes-ok :
      verify_bytes blake3 chars (manifest_bytes m extra) ≡ ok (report_of blake3 m extra)
  unfolding verify_bytes
  verify_bytes-ok =
      let (c, e) = sections_run in
      ap (with_cursor (verify_sections blake3 chars (manifest_bytes m extra)))
        (make_cursor_start (manifest_bytes m extra))
      ∙ ap value e

  -- Every image whose sections are valid and stand in the order of the format verifies, whatever
  -- follows the history and whichever feature flags it requires: the report has the values of the
  -- sections, the number of extra bytes, and the root over the digests of exactly the bytes of
  -- each section, with the digest of nothing for a section that the feature flags do not declare;
  -- the report has a summary exactly if a blob is inlined that starts with an encoding of a
  -- metadata blob of the format, and it is then such a blob's: its counts, the number of its only
  -- root, and the rows of its inodes and directory nodes in the order of their keys.
  pub verify_bytes-manifest_bytes :
      (verify_bytes blake3 chars (manifest_bytes m extra) ≡ ok (report_of blake3 m extra))
      × IsInlineSummary m.reference.inline_metadata (report_of blake3 m extra).summary
  verify_bytes-manifest_bytes = (
    verify_bytes-ok,
    inline_summary-IsInlineSummary m.reference.inline_metadata _ v.metadata_bytes
        (summary_in_ok m v.metadata_bytes),
  )
