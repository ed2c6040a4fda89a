-- ===== src/Verify/Sound.antt =====
-- Whatever verifies has the layout of the format, and all that is raised are ParseErrors.
use limnifs_py.Prelude.{
  ℕ, ◌+◌, ◌*◌, ◌≡◌, refl, sym, ap, ◌∙◌, List, [], ◌++◌, append-nil, append_assoc, arith, length,
  length-append, All, All-append_left, All-append_right, subst, flat_map,
}
use limnifs_py.Errors.{ok, err, Error, IsParseError}
use limnifs_py.Wire.{IsByte, le_bytes}
use limnifs_py.Cursor.Reads.{cursor_at, make_cursor_start}
use limnifs_py.Cursor.Consumes.{Outcome, Consumes-pure, Consumes-lift_ok}
use limnifs_py.Header.Format.{header_bytes, parse_manifest_header-Decodes}
use limnifs_py.FeatureFlags.Format.{flags_bytes, parse_feature_flags_section-Decodes}
use limnifs_py.Locator.{CharClasses}
use limnifs_py.Locator.Format.{locator_bytes}
use limnifs_py.MetadataReference.{MetadataReference}
use limnifs_py.MetadataReference.Format.{
  reference_bytes, inline_len, inline_bytes, parse_metadata_reference_section-Decodes,
}
use limnifs_py.SlabIndex.Format.{slab_index_bytes, parse_slab_index_section-Decodes}
use limnifs_py.EcParams.Format.{ec_params_bytes, IsEcParams, parse_ec_params_section-Decodes}
use limnifs_py.DmsPolicy.Shares.{dms_policy_bytes, IsPolicy}
use limnifs_py.DmsPolicy.Format.{parse_dms_policy_section-Decodes}
use limnifs_py.History.Format.{history_bytes, parse_history_section-Decodes}
use limnifs_py.Merkle.{Blake3, hash_section, hash_empty_section}
use limnifs_py.SlabReader.{with_cursor}
use limnifs_py.Verify.{Report, verify_sections, verify_bytes}
use limnifs_py.Verify.Complete.{
  summary_in_ok, optional_hash-digest, make_section_hashes_ok, compute_merkle_root_ok,
}
use limnifs_py.Verify.Layout.{Manifest, option_bytes, manifest_bytes, IsManifest, report_of}
use limnifs_py.Verify.Outcomes.{
  Consumes-optional, spanned-bind, extra-bind, Outcome-value_ok, Outcome-value_err,
}

append_parts :
    (a1 a2 a3 a4 a5 a6 a7 after : List ℕ)
    → (a1 ++ (a2 ++ (a3 ++ (a4 ++ (a5 ++ (a6 ++ (a7 ++ []))))))) ++ after
      ≡ a1 ++ (a2 ++ (a3 ++ (a4 ++ (a5 ++ (a6 ++ (a7 ++ after))))))
append_parts a1 a2 a3 a4 a5 a6 a7 after = simp append_assoc

same_parts :
    {a1 a2 a3 a4 a5 a6 a7 b1 b2 b3 b4 b5 b6 b7 : List ℕ}
    → a1 ≡ b1
    → a2 ≡ b2
    → a3 ≡ b3
    → a4 ≡ b4
    → a5 ≡ b5
    → a6 ≡ b6
    → a7 ≡ b7
    → a1 ++ (a2 ++ (a3 ++ (a4 ++ (a5 ++ (a6 ++ (a7 ++ []))))))
      ≡ b1 ++ (b2 ++ (b3 ++ (b4 ++ (b5 ++ (b6 ++ (b7 ++ []))))))
same_parts h1 h2 h3 h4 h5 h6 h7 = cc

inline-IsByte :
    (r : MetadataReference) (buf before bs after : List ℕ)
    → buf ≡ (before ++ bs) ++ after
    → All IsByte buf
    → bs ≡ reference_bytes r
    → All IsByte (inline_bytes r.inline_metadata)
inline-IsByte r buf before bs after e y layout =
    let section : All IsByte (reference_bytes r) = subst (All IsByte) layout (
      All-append_right IsByte before bs
        (All-append_left IsByte (before ++ bs) after (subst (All IsByte) e y))) in
    let behind_hash = All-append_right IsByte r.metadata_hash _ section.1 in
    let behind_count = All-append_right IsByte (le_bytes 4 (length r.locators)) _ behind_hash in
    let behind_locators =
      All-append_right IsByte (flat_map locator_bytes r.locators) _ behind_count in
    All-append_right IsByte (le_bytes 4 (inline_len r.inline_metadata)) _ behind_locators

module _ (blake3 : Blake3) (chars : CharClasses) where
  -- The bytes in front of `extra` are a manifest's, and the report is the manifest's.
  abbrev Verified : List ℕ → List ℕ → Report → Type 0
  Verified buf bs report =
      (m : Manifest) × (extra : List ℕ) × IsManifest chars m
      × (bs ≡ manifest_bytes m [])
      × (length bs + length extra ≡ length buf)
      × (report ≡ report_of blake3 m extra)

  sections-Outcome :
      (buf : List ℕ)
      → All IsByte buf
      → Outcome (Verified buf) [] buf (verify_sections blake3 chars buf (cursor_at [] buf))
  unfolding verify_sections hash_section hash_empty_section
  sections-Outcome buf y =
      spanned-bind _ _ buf [] buf refl y (parse_manifest_header-Decodes.consumes)
        λ b1 r1 header e1 y1 q1.
          spanned-bind _ _ buf _ r1 e1 y1 (parse_feature_flags_section-Decodes.consumes)
            λ b2 r2 flags e2 y2 q2.
              spanned-bind _ _ buf _ r2 e2 y2
                ((parse_metadata_reference_section-Decodes chars 4096 (1024 * 1024)).consumes)
                λ b3 r3 reference e3 y3 q3.
                  spanned-bind _ _ buf _ r3 e3 y3
                    ((parse_slab_index_section-Decodes chars 4096).consumes)
                    λ b4 r4 index e4 y4 q4.
                      spanned-bind _ _ buf _ r4 e4 y4
                        (Consumes-optional _ ec_params_bytes IsEcParams _
                          parse_ec_params_section-Decodes)
                        λ b5 r5 u e5 y5 (ec, l5, p5, v5).
                          spanned-bind _ _ buf _ r5 e5 y5
                            (Consumes-optional _ dms_policy_bytes (IsPolicy 1024 4096) _
                              (parse_dms_policy_section-Decodes 1024 4096))
                            λ b6 r6 u' e6 y6 (dms, l6, p6, v6).
                              spanned-bind _ _ buf _ r6 e6 y6
                                ((parse_history_section-Decodes 4096).consumes)
                                λ b7 r7 history e7 y7 q7.
                                  let m : Manifest = record {
                                    header = header;
                                    flags = flags;
                                    reference = reference;
                                    index = index;
                                    ec = ec;
                                    dms = dms;
                                    history = history;
                                  } in
                                  let inline_y = inline-IsByte reference buf _ b3 r3 e3 y q3.0 in
                                  let whole : (b1
                                          ++ (b2 ++ (b3 ++ (b4 ++ (b5 ++ (b6 ++ (b7 ++ [])))))))
                                        ++ r7
                                      ≡ buf =
                                    simp (append_assoc, append-nil, e7) in
                                  extra-bind _ _ r7 (
                                    (Consumes-lift_ok _
                                        (rw
                                          (
                                            q1.0,
                                            q2.0,
                                            q3.0,
                                            q4.0,
                                            l5,
                                            l6,
                                            q7.0,
                                            optional_hash-digest blake3 ec_params_bytes _ ec p5,
                                            optional_hash-digest blake3 dms_policy_bytes _ dms p6,
                                          )
                                          (make_section_hashes_ok blake3 m q3.1.hash))
                                        (Consumes-lift_ok _ (compute_merkle_root_ok blake3 m) (
                                          Consumes-lift_ok _ (summary_in_ok m inline_y) (
                                            Consumes-pure (report_of blake3 m r7) (
                                              m,
                                              r7,
                                              record {
                                                header = q1.1;
                                                flags = q2.1;
                                                reference = q3.1;
                                                index = q4.1;
                                                ec_present = p5;
                                                ec = v5;
                                                dms_present = p6;
                                                dms = v6;
                                                history = q7.1;
                                                metadata_bytes = inline_y;
                                              },
                                              same_parts (q1.0) (q2.0) (q3.0) (q4.0) l5 l6 (q7.0),
                                              sym (length-append _ r7) ∙ ap length whole,
                                              refl,
                                            ))))).run
                                      _ r7 y7)

  -- Bytes that verify are an image of the format: they have the layout of valid sections in order,
  -- with the optional ones exactly where the feature flags declare them, followed by some extra
  -- bytes, and the report is that image's, with the root over the digests of its sections.
  pub verify_bytes_sound :
      (buf : List ℕ) (report : Report)
      → All IsByte buf
      → verify_bytes blake3 chars buf ≡ ok report
      → (m : Manifest) × (extra : List ℕ) × IsManifest chars m
        × (buf ≡ manifest_bytes m extra)
        × (report ≡ report_of blake3 m extra)
  unfolding verify_bytes
  verify_bytes_sound buf report y h =
      let (bs, after, e, (m, extra, valid, layout, size, reported)) =
        Outcome-value_ok (sections-Outcome buf y)
          (sym (ap (with_cursor (verify_sections blake3 chars buf)) (make_cursor_start buf)) ∙ h) in
      let len : length extra ≡ length after =
        omega (arith, size, ap length e, length-append bs after) in
      (
        m,
        after,
        valid,
        e
            ∙ ap (λ t. t ++ after) layout
            ∙ append_parts (header_bytes m.header) (flags_bytes m.flags)
                (reference_bytes m.reference) (slab_index_bytes m.index)
                (option_bytes ec_params_bytes m.ec) (option_bytes dms_policy_bytes m.dms)
                (history_bytes m.history) after,
        reported
            ∙ ap (λ (n : ℕ). record (report_of blake3 m []) { extra_bytes_after_history = n }) len,
      )

  -- All that verifying raises on bytes is a ParseError: no ValueError of a constructor and no
  -- struct.error comes through.
  pub verify_bytes_err :
      (buf : List ℕ) (e : Error)
      → All IsByte buf
      → verify_bytes blake3 chars buf ≡ err e
      → IsParseError e
  unfolding verify_bytes
  verify_bytes_err buf e y h =
      Outcome-value_err (sections-Outcome buf y)
        (sym (ap (with_cursor (verify_sections blake3 chars buf)) (make_cursor_start buf)) ∙ h)
