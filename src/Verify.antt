-- ===== src/Verify.antt =====
-- limnifs/cli.py: `_verify_bytes`, which reads the sections of an image in order, computes its root
-- and reports them, and `_cmd_verify`, the command around it.
pub mod Spans
pub mod Layout
pub mod Complete
pub mod Outcomes
pub mod Sound
pub mod Command
pub mod Identity
mod Tests
use limnifs_py.Prelude.{ℕ, Bool, Option, List, [], length, if◌then◌else◌}
use limnifs_py.Errors.{Result, ok, err, truncated, bad_magic, corrupt, unsupported}
use limnifs_py.Cursor.{
  Cursor, Parser, pure, ◌>>=◌, ◌>>◌, lift, position, remaining_len, slice, make_cursor,
}
use limnifs_py.FormatTypes.Text.{manifest_root_to_text}
use limnifs_py.Header.{ManifestHeader, parse_manifest_header}
use limnifs_py.FeatureFlags.{FeatureFlag, FeatureFlags, get, parse_feature_flags_section}
use limnifs_py.Locator.{CharClasses, default_locator_max_uri_bytes}
use limnifs_py.MetadataReference.{
  MetadataReference, is_some, is_inlined, default_inline_metadata_max_bytes,
  parse_metadata_reference_section,
}
use limnifs_py.SlabIndex.{SlabIndex, index_len, parse_slab_index_section}
use limnifs_py.EcParams.{parse_ec_params_section}
use limnifs_py.DmsPolicy.{
  default_share_data_max_bytes, default_hint_max_bytes, parse_dms_policy_section,
}
use limnifs_py.History.{
  History, history_len, default_history_params_max_bytes, parse_history_section,
}
use limnifs_py.Merkle.{
  Blake3, SectionHashes, make_section_hashes, hash_section, hash_empty_section, compute_merkle_root,
}
use limnifs_py.SlabReader.{with_cursor}
use limnifs_py.Summary.{MetadataSummary, inline_summary}

-- The entries of the report, the root as a text. Those of the summary are one field.
pub record Report : Type 0 where
  pub drop_store_version : ℕ
  pub metadata_version : ℕ
  pub manifest_version : ℕ
  pub feature_flags : List FeatureFlag
  pub metadata_inlined : Bool
  pub slab_index_entries : ℕ
  pub history_entries : ℕ
  pub extra_bytes_after_history : ℕ
  pub merkle_root : List ℕ
  pub summary : Option MetadataSummary

-- `start = cursor.position; a = p(cursor); end = cursor.position`, and `buf[start:end]`
unfoldable pub spanned {ℓ} : {A : Type ℓ} → List ℕ → Parser A → Parser (A × List ℕ)
spanned buf p = do start ← position; a ← p; end ← position; pure (a, slice buf start end)

-- `if present: p(cursor)`
unfoldable pub optional {ℓ} : {A : Type ℓ} → Bool → Parser A → Parser (Unit {0})
optional present p = if present then (do p; pure tt) else pure tt

unfoldable pub extra_bytes : Parser ℕ
extra_bytes c = ok (remaining_len c, c)

module _ (blake3 : Blake3) where
  -- `hash_section(span) if present else hash_empty_section()`
  unfoldable pub optional_hash : Bool → List ℕ → List ℕ
  optional_hash present span =
      if present then hash_section blake3 span else hash_empty_section blake3

module _ (blake3 : Blake3) (chars : CharClasses) where
  unfoldable pub verify_sections : List ℕ → Parser Report
  verify_sections buf = do
    header ← spanned buf parse_manifest_header
    flags ← spanned buf parse_feature_flags_section
    reference ← spanned buf (
        parse_metadata_reference_section chars default_locator_max_uri_bytes
          default_inline_metadata_max_bytes)
    index ← spanned buf (parse_slab_index_section chars default_locator_max_uri_bytes)
    let has_ec = is_some (get flags.0 0x0001)
    ec ← spanned buf (optional has_ec parse_ec_params_section)
    let has_dms = is_some (get flags.0 0x0002)
    dms ← spanned buf (
        optional has_dms
          (parse_dms_policy_section default_share_data_max_bytes default_hint_max_bytes))
    history ← spanned buf (parse_history_section default_history_params_max_bytes)
    extra ← extra_bytes
    hashes ← lift (
        make_section_hashes (record {
          metadata = reference.0.metadata_hash;
          format_header = hash_section blake3 header.1;
          feature_flags = hash_section blake3 flags.1;
          metadata_reference = hash_section blake3 reference.1;
          slab_index = hash_section blake3 index.1;
          crypto_params = hash_empty_section blake3;
          ec_params = optional_hash blake3 has_ec ec.1;
          dms_policy = optional_hash blake3 has_dms dms.1;
          delta_linkage = hash_empty_section blake3;
          history = hash_section blake3 history.1;
        }))
    merkle_root ← lift (compute_merkle_root blake3 hashes)
    summary ← lift (inline_summary reference.0.inline_metadata)
    pure (record {
      drop_store_version = header.0.drop_store_version;
      metadata_version = header.0.metadata_version;
      manifest_version = header.0.manifest_version;
      feature_flags = flags.0.entries;
      metadata_inlined = is_inlined reference.0;
      slab_index_entries = index_len index.0;
      history_entries = history_len history.0;
      extra_bytes_after_history = extra;
      merkle_root = manifest_root_to_text merkle_root;
      summary = summary;
    })

  unfoldable pub verify_bytes : List ℕ → Result Report
  verify_bytes buf = with_cursor (verify_sections buf) (make_cursor buf 0)

-- What `_read_file` does: it returns the contents or raises an OSError.
pub data FileRead : Type 0 where
  contents : List ℕ → FileRead
  os_error : FileRead

-- `except ParseError: … return 1`; a report is printed and the code is 0.
abbrev pub exit_code : Result Report → Result ℕ
exit_code (ok report) = ok 0
exit_code (err (truncated have need)) = ok 1
exit_code (err (bad_magic found expected)) = ok 1
exit_code (err corrupt) = ok 1
exit_code (err unsupported) = ok 1
exit_code (err e) = err e

module _ (blake3 : Blake3) (chars : CharClasses) where
  -- `_cmd_verify`
  unfoldable pub cmd_verify : FileRead → Result ℕ
  cmd_verify (contents buf) = exit_code (verify_bytes blake3 chars buf)
  cmd_verify os_error = ok 1
