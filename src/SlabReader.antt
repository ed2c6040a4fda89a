-- ===== src/SlabReader.antt =====
-- limnifs/slab_reader.py: walking a slab's drop records, and reading a drop's plaintext.
pub mod Layout
pub mod Parse
pub mod Sound
pub mod Lookup
mod Tests
use limnifs_py.Prelude.{
  ℕ, zero, suc, ◌+◌, ◌-◌, Option, none, some, List, [], ◌∷◌, length, ltb, ◌==◌, ◌!=◌, if◌then◌else◌,
  bytes_eq,
}
use limnifs_py.Errors.{Error, Result, ok, err, corrupt, unsupported, out_of_fuel}
use limnifs_py.Cursor.{
  Cursor, Parser, pure, ◌>>=◌, ◌>>◌, raise_if, raise, make_cursor, position, slice,
}
use limnifs_py.SlabHeader.{SlabHeader, default_slab_max_bytes, parse_slab_header}
use limnifs_py.DropRecord.{
  DropRecord, drop_record_len, default_drop_max_plaintext_bytes, parse_drop_record,
}
use limnifs_py.Codec.{Lz4, decompress}

pub record SlabView : Type 0 where
  pub bytes : List ℕ
  pub header : SlabHeader
  pub drop_records : List DropRecord
  pub solid_window_start : ℕ

-- The `while True` loop from the window length that was summed up so far. The cursor never passes
-- the end of the buffer, which is at `total_length`, so the subtractions do not stop at 0 early.
unfoldable pub parse_drop_records : ℕ → SlabHeader → ℕ → Parser (List DropRecord)
parse_drop_records zero header window_len_sum = raise out_of_fuel
parse_drop_records (suc fuel) header window_len_sum = do
  cursor_pos ← position
  let remaining_after_cursor = header.total_length - cursor_pos
  let step = do
    raise_if (ltb remaining_after_cursor window_len_sum) corrupt
    raise_if (ltb (remaining_after_cursor - window_len_sum) drop_record_len) corrupt
    record_ ← parse_drop_record header default_drop_max_plaintext_bytes
    records ← parse_drop_records fuel header (window_len_sum + record_.len_in_window)
    pure (record_ ∷ records)
  if remaining_after_cursor == window_len_sum then pure [] else step

unfoldable pub parse_slab_view : List ℕ → Parser SlabView
parse_slab_view raw = do
  header ← parse_slab_header default_slab_max_bytes
  raise_if (header.total_length != length raw) corrupt
  drop_records ← parse_drop_records (length raw) header 0
  solid_window_start ← position
  pure (record {
    bytes = raw;
    header = header;
    drop_records = drop_records;
    solid_window_start = solid_window_start;
  })

-- `value` without the cursor, which is local to the caller.
abbrev pub value {ℓ} : {A : Type ℓ} → Result (A × Cursor) → Result A
value (ok (a, _)) = ok a
value (err e) = err e

-- `Cursor(data)`, then the rest of `parse_slab`.
abbrev pub with_cursor {ℓ} : {A : Type ℓ} → Parser A → Result Cursor → Result A
with_cursor p (ok c) = value (p c)
with_cursor p (err e) = err e

unfoldable pub parse_slab : List ℕ → Result SlabView
parse_slab raw = with_cursor (parse_slab_view raw) (make_cursor raw 0)

unfoldable pub find_in : List ℕ → List DropRecord → Option DropRecord
find_in drop_id [] = none
find_in drop_id (r ∷ records) =
    if bytes_eq r.drop_id.bytes drop_id then some r else find_in drop_id records

-- `SlabView.find_record`
unfoldable pub find_record : SlabView → List ℕ → Option DropRecord
unfolding find_in
find_record view drop_id = find_in drop_id view.drop_records

-- The tuple that `plaintext_for` returns: `(True, plaintext)`, `(False, error)`, `(False, None)`.
pub data Answer : Type 0 where
  plaintext : List ℕ → Answer
  failed : Error → Answer
  missing : Answer

-- `except (CorruptError, UnsupportedFeatureError) as e: return False, e`; others pass through.
unfoldable pub catch_decompress : Result (List ℕ) → Result Answer
catch_decompress (ok p) = ok (plaintext p)
catch_decompress (err corrupt) = ok (failed corrupt)
catch_decompress (err unsupported) = ok (failed unsupported)
catch_decompress (err e) = err e

module _ (lz4 : Lz4) where
  unfoldable pub plaintext_of : SlabView → DropRecord → Result Answer
  unfolding catch_decompress
  plaintext_of view r =
      if r.representation.aead != 0x00
      then ok (failed unsupported)
      else if r.solid_window_index != 0
      then ok (failed unsupported)
      else let start = view.solid_window_start + r.offset_in_window in
        let end = start + r.len_in_window in
        if ltb (length view.bytes) end
        then ok (failed corrupt)
        else catch_decompress
            (decompress lz4 r.representation.codec (slice view.bytes start end) r.plaintext_len)

  unfoldable pub plaintext_for : SlabView → List ℕ → Result Answer
  unfolding plaintext_of find_record
  plaintext_for view drop_id = elim (find_record view drop_id) [
    | none ↦ ok missing
    | some r ↦ plaintext_of view r
  ]
