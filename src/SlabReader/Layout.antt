-- ===== src/SlabReader/Layout.antt =====
-- The bytes of a whole slab.
use limnifs_py.Prelude.{
  ℕ, ◌+◌, ◌*◌, ◌≡◌, List, [], ◌∷◌, ◌++◌, arith, length, length-append, flat_map, All,
}
use limnifs_py.SlabHeader.{SlabHeader, default_slab_max_bytes}
use limnifs_py.SlabHeader.Format.{IsSlabHeader, slab_header_bytes}
use limnifs_py.DropRecord.{DropRecord, default_drop_max_plaintext_bytes, drop_record_len}
use limnifs_py.DropRecord.Format.{IsDropRecord, drop_record_bytes, length-drop_record_bytes}

abbrev pub records_bytes : List DropRecord → List ℕ
records_bytes = flat_map drop_record_bytes

-- Header, drop records, solid window.
abbrev pub slab_bytes : SlabHeader → List DropRecord → List ℕ → List ℕ
slab_bytes h records window = slab_header_bytes h ++ (records_bytes records ++ window)

-- The sum of the stored lengths.
abbrev pub window_len : List DropRecord → ℕ
window_len [] = 0
window_len (r ∷ records) = r.len_in_window + window_len records

abbrev pub IsRecordOf : SlabHeader → DropRecord → Type 0
IsRecordOf h = IsDropRecord h default_drop_max_plaintext_bytes

-- The total length is that of the slab, and the window is as long as the records say.
pub record IsSlab (h : SlabHeader) (records : List DropRecord) (window : List ℕ) : Type 0 where
  pub header : IsSlabHeader default_slab_max_bytes h
  pub total : h.total_length ≡ length (slab_bytes h records window)
  pub records_valid : All (IsRecordOf h) records
  pub window_size : length window ≡ window_len records

pub length-records_bytes :
    (h : SlabHeader) (records : List DropRecord)
    → All (IsRecordOf h) records
    → length (records_bytes records) ≡ length records * drop_record_len
length-records_bytes h [] v = omega arith
length-records_bytes h (r ∷ records) v = omega (
  arith,
  length-append (drop_record_bytes r) (records_bytes records),
  length-drop_record_bytes r v.0.id,
  length-records_bytes h records v.1,
)
