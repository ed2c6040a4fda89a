-- ===== src/Verify/Layout.antt =====
-- The layout of an image, its root, and the report that it deserves.
use limnifs_py.Prelude.{ℕ, ◌*◌, ◌≡◌, Option, none, some, List, [], ◌++◌, length, All}
use limnifs_py.FormatTypes.{ManifestRoot}
use limnifs_py.FormatTypes.Text.{manifest_root_to_text}
use limnifs_py.Header.{ManifestHeader}
use limnifs_py.Header.Format.{header_bytes, IsHeader}
use limnifs_py.FeatureFlags.{FeatureFlags, get}
use limnifs_py.FeatureFlags.Format.{flags_bytes, IsFlags}
use limnifs_py.Locator.{CharClasses}
use limnifs_py.MetadataReference.{MetadataReference, is_some}
use limnifs_py.MetadataReference.Format.{reference_bytes, inline_bytes, IsReference}
use limnifs_py.SlabIndex.{SlabIndex}
use limnifs_py.SlabIndex.Format.{slab_index_bytes, IsSlabIndex}
use limnifs_py.EcParams.{EcParams}
use limnifs_py.EcParams.Format.{ec_params_bytes, IsEcParams}
use limnifs_py.DmsPolicy.{DmsPolicy}
use limnifs_py.DmsPolicy.Shares.{dms_policy_bytes, IsPolicy}
use limnifs_py.History.{History}
use limnifs_py.History.Format.{history_bytes, IsHistory}
use limnifs_py.Merkle.{Blake3, SectionHashes, merkle_input}
use limnifs_py.Errors.{Result, ok, err}
use limnifs_py.Wire.{IsByte}
use limnifs_py.Summary.{MetadataSummary, inline_summary}
use limnifs_py.Verify.{Report}

-- The values of the sections.
pub record Manifest : Type 0 where
  pub header : ManifestHeader
  pub flags : FeatureFlags
  pub reference : MetadataReference
  pub index : SlabIndex
  pub ec : Option EcParams
  pub dms : Option DmsPolicy
  pub history : History

abbrev pub option_bytes {ℓ} : {A : Type ℓ} → (A → List ℕ) → Option A → List ℕ
option_bytes encode none = []
option_bytes encode (some a) = encode a

abbrev pub IsOption {ℓ} : {A : Type ℓ} → (A → Type 0) → Option A → Type 0
IsOption Valid none = Unit
IsOption Valid (some a) = Valid a

-- The sections in the order of the format, and what stands behind them.
abbrev pub manifest_bytes : Manifest → List ℕ → List ℕ
manifest_bytes m extra =
    header_bytes m.header
    ++ (flags_bytes m.flags
        ++ (reference_bytes m.reference
            ++ (slab_index_bytes m.index
                ++ (option_bytes ec_params_bytes m.ec
                    ++ (option_bytes dms_policy_bytes m.dms
                        ++ (history_bytes m.history ++ extra))))))

-- Every section is valid within the default ceilings, and the optional ones are there exactly if
-- the flags 1 and 2 are declared. A blob in place is made of bytes.
pub record IsManifest (chars : CharClasses) (m : Manifest) : Type 0 where
  pub header : IsHeader m.header
  pub flags : IsFlags m.flags
  pub reference : IsReference chars 4096 (1024 * 1024) m.reference
  pub index : IsSlabIndex chars 4096 m.index
  pub ec_present : is_some (get m.flags 1) ≡ is_some m.ec
  pub ec : IsOption IsEcParams m.ec
  pub dms_present : is_some (get m.flags 2) ≡ is_some m.dms
  pub dms : IsOption (IsPolicy 1024 4096) m.dms
  pub history : IsHistory 4096 m.history
  pub metadata_bytes : All IsByte (inline_bytes m.reference.inline_metadata)

abbrev pub ok_or_none {ℓ} : {A : Type ℓ} → Result (Option A) → Option A
ok_or_none (ok o) = o
ok_or_none (err e) = none

-- The summary of the blob in place, where that is one.
abbrev pub summary_in : Option (List ℕ) → Option MetadataSummary
summary_in metadata = ok_or_none (inline_summary metadata)

module _ (blake3 : Blake3) where
  -- The digests of the sections, of nothing for a section that is not there.
  abbrev pub hashes_of : Manifest → SectionHashes
  hashes_of m = record {
    metadata = m.reference.metadata_hash;
    format_header = blake3.digest (header_bytes m.header);
    feature_flags = blake3.digest (flags_bytes m.flags);
    metadata_reference = blake3.digest (reference_bytes m.reference);
    slab_index = blake3.digest (slab_index_bytes m.index);
    crypto_params = blake3.digest [];
    ec_params = blake3.digest (option_bytes ec_params_bytes m.ec);
    dms_policy = blake3.digest (option_bytes dms_policy_bytes m.dms);
    delta_linkage = blake3.digest [];
    history = blake3.digest (history_bytes m.history);
  }

  abbrev pub root_of : Manifest → ManifestRoot
  root_of m = record { bytes = blake3.digest (merkle_input (hashes_of m)) }

  abbrev pub report_of : Manifest → List ℕ → Report
  report_of m extra = record {
    drop_store_version = m.header.drop_store_version;
    metadata_version = m.header.metadata_version;
    manifest_version = m.header.manifest_version;
    feature_flags = m.flags.entries;
    metadata_inlined = is_some m.reference.inline_metadata;
    slab_index_entries = length m.index.entries;
    history_entries = length m.history.entries;
    extra_bytes_after_history = length extra;
    merkle_root = manifest_root_to_text (root_of m);
    summary = summary_in m.reference.inline_metadata;
  }
