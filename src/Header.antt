-- ===== src/Header.antt =====
-- limnifs/header.py: the fixed manifest header.
pub mod Format
mod Tests
use limnifs_py.Prelude.{ℕ, Bool, false, ◌||◌, not, List, [], ◌∷◌, ◌++◌, replicate, ◌!=◌, bytes_eq}
use limnifs_py.Errors.{Result, bad_magic, corrupt, map_ok}
use limnifs_py.Wire.{pack_hhh}
use limnifs_py.Cursor.{Parser, pure, ◌>>=◌, ◌>>◌, raise_if, read, read_u16_le, read_magic}
use limnifs_py.FormatTypes.{manifest_magic}

abbrev pub manifest_header_len : ℕ
manifest_header_len = 16

abbrev pub current_drop_store_version : ℕ
current_drop_store_version = 1

abbrev pub current_metadata_version : ℕ
current_metadata_version = 1

abbrev pub current_manifest_version : ℕ
current_manifest_version = 1

pub record ManifestHeader : Type 0 where
  pub drop_store_version : ℕ
  pub metadata_version : ℕ
  pub manifest_version : ℕ

-- `ManifestHeader.to_bytes`
unfoldable pub header_to_bytes : ManifestHeader → Result (List ℕ)
header_to_bytes h =
    map_ok (λ versions. manifest_magic ++ (versions ++ replicate 6 0))
      (pack_hhh h.drop_store_version h.metadata_version h.manifest_version)

-- `ManifestHeader.current`
abbrev pub current : ManifestHeader
current = record {
  drop_store_version = current_drop_store_version;
  metadata_version = current_metadata_version;
  manifest_version = current_manifest_version;
}

-- `any(b != 0 for b in raw)`
unfoldable pub any_nonzero : List ℕ → Bool
any_nonzero [] = false
any_nonzero (b ∷ bs) = b != 0 || any_nonzero bs

unfoldable pub parse_manifest_header : Parser ManifestHeader
parse_manifest_header = do
  magic ← read_magic
  raise_if (not (bytes_eq magic manifest_magic)) (bad_magic magic manifest_magic)
  drop_store_version ← read_u16_le
  metadata_version ← read_u16_le
  manifest_version ← read_u16_le
  reserved ← read 6
  raise_if (any_nonzero reserved) corrupt
  pure (record {
    drop_store_version = drop_store_version;
    metadata_version = metadata_version;
    manifest_version = manifest_version;
  })
