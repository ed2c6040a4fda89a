-- ===== src/Verify/Tests.antt =====
-- An image with every section that the format has, and three bytes behind it.
use limnifs_py.Prelude.{
  ◌⊎◌, ℕ, List, All, bytes_eq, ◌↔◌, ◌≡◌, refl, some, [], ◌∷◌, arith, find_first,
}
use limnifs_py.Errors.{ok, err, bad_magic, IsParseError}
use limnifs_py.Wire.{IsByte, le_bytes}
use limnifs_py.Utf8.{encode_char}
use limnifs_py.Cursor.{make_cursor, read_magic, read, position, raise_if, pure, ◌>>=◌}
use limnifs_py.FormatTypes.{manifest_magic}
use limnifs_py.Header.{current, parse_manifest_header}
use limnifs_py.FeatureFlags.{get}
use limnifs_py.FeatureFlags.Tests.{two_flags, two_flags_valid}
use limnifs_py.Locator.Tests.{ascii_chars}
use limnifs_py.MetadataReference.Tests.{both_sources, both_sources_valid}
use limnifs_py.SlabIndex.Tests.{two_slabs, two_slabs_valid}
use limnifs_py.EcParams.{EcParams}
use limnifs_py.DmsPolicy.Tests.{two_shares, two_shares_valid}
use limnifs_py.History.Tests.{two_entries, two_entries_valid}
use limnifs_py.Summary.Inline.{IsInlineSummary}
use limnifs_py.Merkle.Tests.{constant_digest}
use limnifs_py.Verify.Identity.{sections, CollisionIn, hashed, verify_bytes-binding}
use limnifs_py.Verify.Command.{IsImage, cmd_verify_iff}
use limnifs_py.Verify.{contents, cmd_verify, spanned, verify_sections, verify_bytes}
use limnifs_py.Verify.Layout.{Manifest, manifest_bytes, IsManifest, report_of}
use limnifs_py.Verify.Complete.{verify_bytes-ok, verify_bytes-manifest_bytes}
use limnifs_py.Verify.Sound.{verify_bytes_sound, verify_bytes_err}

abbrev four_and_two : EcParams
four_and_two = record { k = 4; m = 2; polynomial = 0x011d; overrides = [] }

abbrev full_manifest : Manifest
full_manifest = record {
  header = current;
  flags = two_flags;
  reference = both_sources;
  index = two_slabs;
  ec = some four_and_two;
  dms = some two_shares;
  history = two_entries;
}

full_manifest_valid : IsManifest ascii_chars full_manifest
unfolding get find_first
full_manifest_valid = record {
  header = omega arith;
  flags = two_flags_valid;
  reference = both_sources_valid;
  index = two_slabs_valid;
  ec_present = refl;
  ec = (omega arith, refl, omega arith, tt, tt);
  dms_present = refl;
  dms = two_shares_valid;
  history = two_entries_valid;
  metadata_bytes = omega arith;
}

verify_bytes-manifest_bytes_example :
    (verify_bytes constant_digest ascii_chars (manifest_bytes full_manifest (1 ∷ 2 ∷ 3 ∷ []))
      ≡ ok (report_of constant_digest full_manifest (1 ∷ 2 ∷ 3 ∷ [])))
    × IsInlineSummary full_manifest.reference.inline_metadata
        (report_of constant_digest full_manifest (1 ∷ 2 ∷ 3 ∷ [])).summary
verify_bytes-manifest_bytes_example =
    verify_bytes-manifest_bytes constant_digest ascii_chars full_manifest (1 ∷ 2 ∷ 3 ∷ [])
      full_manifest_valid

full_bytes : All IsByte (manifest_bytes full_manifest (1 ∷ 2 ∷ 3 ∷ []))
unfolding le_bytes encode_char
full_bytes = omega arith

verify_bytes_sound_example :
    (m : Manifest) × (extra : List ℕ) × IsManifest ascii_chars m
    × (manifest_bytes full_manifest (1 ∷ 2 ∷ 3 ∷ []) ≡ manifest_bytes m extra)
    × (report_of constant_digest full_manifest (1 ∷ 2 ∷ 3 ∷ []) ≡ report_of constant_digest m extra)
verify_bytes_sound_example =
    verify_bytes_sound constant_digest ascii_chars (manifest_bytes full_manifest (1 ∷ 2 ∷ 3 ∷ []))
      (report_of constant_digest full_manifest (1 ∷ 2 ∷ 3 ∷ [])) full_bytes
      (verify_bytes-ok constant_digest ascii_chars full_manifest (1 ∷ 2 ∷ 3 ∷ [])
        full_manifest_valid)

bad_magic_run :
    verify_bytes constant_digest ascii_chars (b'L' ∷ b'M' ∷ b'F' ∷ b'X' ∷ [])
    ≡ err (bad_magic (b'L' ∷ b'M' ∷ b'F' ∷ b'X' ∷ []) manifest_magic)
unfolding verify_bytes verify_sections spanned make_cursor parse_manifest_header read_magic read
    position raise_if bytes_eq pure ◌>>=◌
bad_magic_run = refl

verify_bytes_err_example : IsParseError (bad_magic (b'L' ∷ b'M' ∷ b'F' ∷ b'X' ∷ []) manifest_magic)
verify_bytes_err_example =
    verify_bytes_err constant_digest ascii_chars (b'L' ∷ b'M' ∷ b'F' ∷ b'X' ∷ [])
      (bad_magic (b'L' ∷ b'M' ∷ b'F' ∷ b'X' ∷ []) manifest_magic) (omega arith) bad_magic_run

cmd_verify_iff_example :
    ((cmd_verify constant_digest ascii_chars
          (contents (manifest_bytes full_manifest (1 ∷ 2 ∷ 3 ∷ [])))
        ≡ ok 0)
      ↔ IsImage ascii_chars (manifest_bytes full_manifest (1 ∷ 2 ∷ 3 ∷ [])))
    × (¬ IsImage ascii_chars (manifest_bytes full_manifest (1 ∷ 2 ∷ 3 ∷ []))
        → cmd_verify constant_digest ascii_chars
            (contents (manifest_bytes full_manifest (1 ∷ 2 ∷ 3 ∷ [])))
          ≡ ok 1)
cmd_verify_iff_example =
    cmd_verify_iff constant_digest ascii_chars (manifest_bytes full_manifest (1 ∷ 2 ∷ 3 ∷ []))
      full_bytes

bare_bytes : All IsByte (manifest_bytes full_manifest [])
unfolding le_bytes encode_char
bare_bytes = omega arith

verify_bytes-binding_example :
    (m : Manifest) × (m' : Manifest) × (extra : List ℕ) × (extra' : List ℕ) × IsManifest ascii_chars
      m
    × IsManifest ascii_chars m'
    × (manifest_bytes full_manifest (1 ∷ 2 ∷ 3 ∷ []) ≡ manifest_bytes m extra)
    × (manifest_bytes full_manifest [] ≡ manifest_bytes m' extra')
    × ((sections m ≡ sections m')
        ⊎ CollisionIn constant_digest (hashed constant_digest m) (hashed constant_digest m'))
verify_bytes-binding_example =
    verify_bytes-binding constant_digest ascii_chars (manifest_bytes full_manifest (1 ∷ 2 ∷ 3 ∷ []))
      (manifest_bytes full_manifest []) (report_of constant_digest full_manifest (1 ∷ 2 ∷ 3 ∷ []))
      (report_of constant_digest full_manifest []) full_bytes bare_bytes
      (verify_bytes-ok constant_digest ascii_chars full_manifest (1 ∷ 2 ∷ 3 ∷ [])
        full_manifest_valid)
      (verify_bytes-ok constant_digest ascii_chars full_manifest [] full_manifest_valid) refl
