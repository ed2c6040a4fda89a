-- ===== src/SlabIndex.antt =====
-- limnifs/slab_index.py: the slabs that an image refers to, each with its locators.
pub mod Format
pub mod Lookup
pub mod Tests
use limnifs_py.Prelude.{
  is_empty, ℕ, ◌+◌, ◌*◌, Bool, not, Option, none, some, List, [], ◌∷◌, length, ◌==◌, ◌!=◌,
  if◌then◌else◌, contains, find_first,
}
use limnifs_py.Errors.{corrupt, unsupported}
use limnifs_py.Cursor.{
  Parser, pure, ◌>>=◌, ◌>>◌, raise_if, lift, read, read_u8, read_u32_le, read_u64_le,
  check_remaining,
}
use limnifs_py.Cursor.Loop.{for_range}
use limnifs_py.FormatTypes.{SlabId, slab_id_beq, slab_id_eq, make_slab_id}
use limnifs_py.Locator.{LocatorEntry, CharClasses, parse_locator_entries}

abbrev pub slab_index_section_version : ℕ
slab_index_section_version = 1

abbrev pub prefix_len : ℕ
prefix_len = 5

abbrev pub entry_fixed_len : ℕ
entry_fixed_len = 40 + 4

pub record SlabIndexEntry : Type 0 where
  pub slab_id : SlabId
  pub locators : List LocatorEntry

pub record SlabIndex : Type 0 where
  pub entries : List SlabIndexEntry

-- `__len__` and `__bool__`
abbrev pub index_len : SlabIndex → ℕ
index_len index = length index.entries

abbrev pub index_bool : SlabIndex → Bool
index_bool index = not (is_empty index.entries)

abbrev pub index_key : SlabIndexEntry → SlabId
index_key entry = entry.slab_id

unfoldable pub find : SlabIndex → SlabId → Option SlabIndexEntry
find index slab_id = find_first index_key slab_id index.entries

module _ (chars : CharClasses) where
  -- One round of the loop; `seen` holds the slab identifiers of the rounds before.
  unfoldable pub parse_index_entry : ℕ → List SlabId → Parser SlabIndexEntry
  parse_index_entry max_locator_uri_bytes seen = do
    ordinal ← read_u64_le
    hash ← read 32
    slab_id ← lift (make_slab_id ordinal hash)
    raise_if (contains slab_id seen) corrupt
    locator_count ← read_u32_le
    raise_if (locator_count == 0) corrupt
    locators ← parse_locator_entries chars locator_count max_locator_uri_bytes
    pure (record { slab_id = slab_id; locators = locators })

  unfoldable pub parse_slab_index_section : ℕ → Parser SlabIndex
  parse_slab_index_section max_locator_uri_bytes = do
    version ← read_u8
    raise_if (version != slab_index_section_version) unsupported
    entry_count ← read_u32_le
    check_remaining (entry_count * entry_fixed_len)
    entries ←
        for_range (parse_index_entry max_locator_uri_bytes) (λ seen e. e.slab_id ∷ seen) entry_count
          []
    pure (record { entries = entries })
