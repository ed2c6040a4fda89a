-- ===== src/Summary/Blob.antt =====
-- The summary of the bytes of a blob.
use limnifs_py.Prelude.{ℕ, ◌≡◌, refl, ap, ◌∙◌, Option, none, some, List, [], ◌∷◌, ◌++◌, All}
use limnifs_py.Errors.{
  Error, Result, ok, err, truncated, bad_magic, corrupt, unsupported, value_error, struct_error,
  overflow_error, out_of_fuel, IsParseError, map_ok,
}
use limnifs_py.Wire.{IsByte}
use limnifs_py.Cursor.{Cursor, Parser, make_cursor}
use limnifs_py.Cursor.Reads.{cursor_at, make_cursor_start}
use limnifs_py.Cursor.Consumes.{Consumes-err}
use limnifs_py.SlabReader.{value, with_cursor}
use limnifs_py.Inode.{default_inline_data_max_bytes}
use limnifs_py.Metadata.{MetadataBlob, parse_metadata_blob}
use limnifs_py.Metadata.Format.{BlobBytes, parse_metadata_blob-Recognises}
use limnifs_py.MetadataReference.Format.{inline_bytes}
use limnifs_py.Summary.Described.{IsSummary, summary_of_blob-IsSummary}
use limnifs_py.Summary.{
  MetadataSummary, summary_of_blob, metadata_summary, catch_parse_error, inline_summary,
}

pub with_cursor_start {ℓ} :
    {A : Type ℓ} (p : Parser A) (buf : List ℕ)
    → with_cursor p (make_cursor buf 0) ≡ value (p (cursor_at [] buf))
with_cursor_start p buf = ap (with_cursor p) (make_cursor_start buf)

-- Bytes that start with an encoding of a metadata blob, whatever follows it, are summarised: with
-- the numbers of the inodes and of the directory nodes, the number of the only directory to which
-- no entry refers, if there is one alone, and two lists: for each inode its number, mode and kind
-- of content, in ascending order of the numbers, and for each directory node the number of its
-- entries and the first one's name, empty without entries, in ascending order of the number of
-- entries and then of the name.
pub metadata_summary-BlobBytes :
    (b : MetadataBlob) (bs extra : List ℕ)
    → BlobBytes default_inline_data_max_bytes bs b
    → (s : MetadataSummary) × (metadata_summary (bs ++ extra) ≡ ok s) × IsSummary b s
unfolding metadata_summary
metadata_summary-BlobBytes b bs extra v =
    let r = (parse_metadata_blob-Recognises default_inline_data_max_bytes).reads bs b v in
    (
      summary_of_blob b,
      ap (map_ok summary_of_blob) (
          with_cursor_start (parse_metadata_blob default_inline_data_max_bytes) (bs ++ extra)
          ∙ ap value (r.whole [] extra)),
      summary_of_blob-IsSummary b,
    )

caught : (e : Error) → IsParseError e → catch_parse_error (err e) ≡ ok none
unfolding catch_parse_error
caught (truncated have need) p = refl
caught (bad_magic found expected) p = refl
caught corrupt p = refl
caught unsupported p = refl
caught value_error p = absurd p
caught struct_error p = absurd p
caught overflow_error p = absurd p
caught out_of_fuel p = absurd p

summary-total :
    (r : Result (MetadataBlob × Cursor))
    → ((e : Error) → r ≡ err e → IsParseError e)
    → (s : Option MetadataSummary) × (catch_parse_error (map_ok summary_of_blob (value r)) ≡ ok s)
unfolding catch_parse_error
summary-total (ok (b, c)) p = (some (summary_of_blob b), refl)
summary-total (err e) p = (none, caught e (p e refl))

-- The summary is made or left out: nothing is raised.
pub inline_summary-total :
    (metadata : Option (List ℕ))
    → All IsByte (inline_bytes metadata)
    → (s : Option MetadataSummary) × (inline_summary metadata ≡ ok s)
unfolding inline_summary metadata_summary
inline_summary-total none y = (none, refl)
inline_summary-total (some []) y = (none, refl)
inline_summary-total (some (b ∷ bytes)) y =
    let p = parse_metadata_blob default_inline_data_max_bytes in
    let (s, e) = summary-total (p (cursor_at [] (b ∷ bytes))) (λ e.
      Consumes-err [] (b ∷ bytes)
        ((parse_metadata_blob-Recognises default_inline_data_max_bytes).consumes) y) in
    (
      s,
      ap (λ r. catch_parse_error (map_ok summary_of_blob r)) (with_cursor_start p (b ∷ bytes)) ∙ e,
    )
