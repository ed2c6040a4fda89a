-- ===== src/Merkle.antt =====
-- limnifs/merkle.py: the image's identity, a hash over the hashes of its sections.
pub mod Binding
pub mod Tests
use limnifs_py.Prelude.{
  ℕ, ◌≡◌, Bool, false, true, ◌&&◌, List, [], ◌∷◌, ◌++◌, length, All, ◌==◌, if◌then◌else◌,
}
use limnifs_py.Errors.{Result, ok, err, value_error}
use limnifs_py.Wire.{IsByte}
use limnifs_py.FormatTypes.{ManifestRoot, make_manifest_root}

-- The package `blake3`: `digest bs` is `blake3(bs).digest()`, 32 bytes.
pub record Blake3 : Type 0 where
  pub digest : List ℕ → List ℕ
  pub length-digest : (bs : List ℕ) → length (digest bs) ≡ 32
  pub digest-IsByte : (bs : List ℕ) → All IsByte (digest bs)

-- b"limnifs/v1"
abbrev pub merkle_domain_separator : List ℕ
merkle_domain_separator = b'l' ∷ b'i' ∷ b'm' ∷ b'n' ∷ b'i' ∷ b'f' ∷ b's' ∷ b'/' ∷ b'v' ∷ b'1' ∷ []

pub record SectionHashes : Type 0 where
  pub metadata : List ℕ
  pub format_header : List ℕ
  pub feature_flags : List ℕ
  pub metadata_reference : List ℕ
  pub slab_index : List ℕ
  pub crypto_params : List ℕ
  pub ec_params : List ℕ
  pub dms_policy : List ℕ
  pub delta_linkage : List ℕ
  pub history : List ℕ

-- The slots in the order of `__post_init__` and of `compute_merkle_root`.
abbrev pub slots : SectionHashes → List (List ℕ)
slots s =
    s.metadata ∷ s.format_header ∷ s.feature_flags ∷ s.metadata_reference ∷ s.slab_index
    ∷ s.crypto_params ∷ s.ec_params ∷ s.dms_policy ∷ s.delta_linkage ∷ s.history ∷ []

unfoldable pub all_32 : List (List ℕ) → Bool
all_32 [] = true
all_32 (x ∷ xs) = length x == 32 && all_32 xs

-- `SectionHashes(…)` with the tests of `__post_init__`.
unfoldable pub make_section_hashes : SectionHashes → Result SectionHashes
make_section_hashes s = if all_32 (slots s) then ok s else err value_error

-- `state.update(x)` for each slot in turn: the hasher has been fed the concatenation.
unfoldable pub update_all : List ℕ → List (List ℕ) → List ℕ
update_all state [] = state
update_all state (x ∷ xs) = update_all (state ++ x) xs

unfoldable pub merkle_input : SectionHashes → List ℕ
unfolding update_all
merkle_input s = update_all merkle_domain_separator (slots s)

module _ (blake3 : Blake3) where
  unfoldable pub hash_section : List ℕ → List ℕ
  hash_section buf = blake3.digest buf

  unfoldable pub hash_empty_section : List ℕ
  unfolding hash_section
  hash_empty_section = hash_section []

  unfoldable pub compute_merkle_root : SectionHashes → Result ManifestRoot
  compute_merkle_root s = make_manifest_root (blake3.digest (merkle_input s))

  unfoldable pub section_hashes_minimal :
      (metadata format_header feature_flags metadata_reference slab_index history : List ℕ)
      → Result SectionHashes
  unfolding make_section_hashes
  section_hashes_minimal metadata format_header feature_flags metadata_reference slab_index
        history =
      let empty = hash_empty_section in
      make_section_hashes (record {
        metadata = metadata;
        format_header = format_header;
        feature_flags = feature_flags;
        metadata_reference = metadata_reference;
        slab_index = slab_index;
        crypto_params = empty;
        ec_params = empty;
        dms_policy = empty;
        delta_linkage = empty;
        history = history;
      })
