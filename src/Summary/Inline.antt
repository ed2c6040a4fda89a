-- ===== src/Summary/Inline.antt =====
-- The summary of the blob that an image carries in place.
use limnifs_py.Prelude.{
  ℕ, ◌≡◌, refl, sym, ap, ◌∙◌, ◌⊎◌, inl, inr, Option, none, some, List, [], ◌∷◌, ◌++◌, arith, All,
  length, length-append, flat_map,
}
use limnifs_py.Errors.{
  Error, Result, ok, err, truncated, bad_magic, corrupt, unsupported, value_error, struct_error,
  overflow_error, out_of_fuel, ok-injective, map_ok,
}
use limnifs_py.Wire.{IsByte, le_bytes, length-le_bytes}
use limnifs_py.Cursor.{Cursor}
use limnifs_py.Cursor.Reads.{cursor_at}
use limnifs_py.Cursor.Consumes.{Consumes-ok}
use limnifs_py.SlabReader.{value}
use limnifs_py.Inode.{default_inline_data_max_bytes}
use limnifs_py.DirectoryNode.Format.{node_bytes}
use limnifs_py.Metadata.{MetadataBlob, parse_metadata_blob}
use limnifs_py.Metadata.Format.{BlobBytes, parse_metadata_blob-Recognises}
use limnifs_py.MetadataReference.Format.{inline_bytes}
use limnifs_py.Summary.{
  MetadataSummary, summary_of_blob, metadata_summary, catch_parse_error, inline_summary,
}
use limnifs_py.Summary.Blob.{with_cursor_start}
use limnifs_py.Summary.Described.{IsSummary, summary_of_blob-IsSummary}

-- The bytes start with an encoding of the blob, its inline data within the default ceiling.
abbrev pub StartsWith : List ℕ → MetadataBlob → Type 0
StartsWith bytes b =
    (bs : List ℕ) × (rest : List ℕ) × (bytes ≡ bs ++ rest)
    × BlobBytes default_inline_data_max_bytes bs b

-- There is a summary exactly if a blob is there and starts with an encoding of the format, and it
-- is that blob's.
abbrev pub IsInlineSummary : Option (List ℕ) → Option MetadataSummary → Type 0
IsInlineSummary none s = s ≡ none
IsInlineSummary (some bytes) s =
    ((s ≡ none) × ¬ ((b : MetadataBlob) × StartsWith bytes b))
    ⊎ ((b : MetadataBlob) × (t : MetadataSummary) × StartsWith bytes b
        × (s ≡ some t)
        × IsSummary b t)

caught-none : (e : Error) (s : Option MetadataSummary) → catch_parse_error (err e) ≡ ok s → s ≡ none
unfolding catch_parse_error
caught-none (truncated have need) s h = ok-injective (sym h)
caught-none (bad_magic found expected) s h = ok-injective (sym h)
caught-none corrupt s h = ok-injective (sym h)
caught-none unsupported s h = ok-injective (sym h)
caught-none value_error s h = cc
caught-none struct_error s h = cc
caught-none overflow_error s h = cc
caught-none out_of_fuel s h = cc

-- No encoding of a blob is empty.
nothing-StartsWith : (b : MetadataBlob) → ¬ StartsWith [] b
nothing-StartsWith b (bs, rest, e, v) =
    let back = le_bytes 4 (length b.dir_nodes) ++ flat_map node_bytes b.dir_nodes in
    omega (
      arith,
      ap length e,
      length-append bs rest,
      ap length v.layout,
      length-append (le_bytes 4 (length b.inodes)) (v.bytes ++ back),
      length-le_bytes 4 (length b.inodes),
    )

parsed-IsInlineSummary :
    (bytes : List ℕ) (s : Option MetadataSummary) (r : Result (MetadataBlob × Cursor))
    → All IsByte bytes
    → parse_metadata_blob default_inline_data_max_bytes (cursor_at [] bytes) ≡ r
    → catch_parse_error (map_ok summary_of_blob (value r)) ≡ ok s
    → IsInlineSummary (some bytes) s
unfolding catch_parse_error
parsed-IsInlineSummary bytes s (ok (b, c)) y run h =
    let (bs, after, e, at, v) =
      Consumes-ok [] bytes ((parse_metadata_blob-Recognises default_inline_data_max_bytes).consumes)
        y run in
    inr (b, summary_of_blob b, (bs, after, e, v), ok-injective (sym h), summary_of_blob-IsSummary b)
parsed-IsInlineSummary bytes s (err e) y run h = inl (
  caught-none e s h,
  (λ (b, (bs, rest, layout, v)).
      let r = (parse_metadata_blob-Recognises default_inline_data_max_bytes).reads bs b v in
      let p = parse_metadata_blob default_inline_data_max_bytes in
      cc (run, ap (λ t. p (cursor_at [] t)) layout, r.whole [] rest)),
)

pub inline_summary-IsInlineSummary :
    (metadata : Option (List ℕ)) (s : Option MetadataSummary)
    → All IsByte (inline_bytes metadata)
    → inline_summary metadata ≡ ok s
    → IsInlineSummary metadata s
unfolding inline_summary metadata_summary
inline_summary-IsInlineSummary none s y h = ok-injective (sym h)
inline_summary-IsInlineSummary (some []) s y h =
    inl (ok-injective (sym h), (λ (b, start). nothing-StartsWith b start))
inline_summary-IsInlineSummary (some (b ∷ bytes)) s y h =
    let p = parse_metadata_blob default_inline_data_max_bytes in
    parsed-IsInlineSummary (b ∷ bytes) s (p (cursor_at [] (b ∷ bytes))) y refl (
      sym (ap (λ r. catch_parse_error (map_ok summary_of_blob r)) (with_cursor_start p (b ∷ bytes)))
      ∙ h)
