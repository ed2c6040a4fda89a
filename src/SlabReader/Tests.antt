-- ===== src/SlabReader/Tests.antt =====
-- Runs on one small slab, and the theorems about slabs at it.
use limnifs_py.Prelude.{ℕ, ◌≡◌, refl, sym, some, List, [], ◌∷◌, arith, length, replicate, All}
use limnifs_py.Errors.{ok, err, corrupt, truncated, IsParseError}
use limnifs_py.Wire.{IsByte, le_bytes}
use limnifs_py.Cursor.{◌>>=◌, read, read_magic, make_cursor}
use limnifs_py.Cursor.Reads.{Reads}
use limnifs_py.FormatTypes.{slab_id_from_bytes, slab_id_to_bytes}
use limnifs_py.FormatTypes.Laws.{slab_id_bytes, slab_id_from_bytes-to_bytes}
use limnifs_py.SlabHeader.{SlabHeader, default_slab_max_bytes, parse_slab_header}
use limnifs_py.SlabHeader.Format.{IsSlabHeader, slab_header_bytes, parse_slab_header-Decodes}
use limnifs_py.DropRecord.{DropRecord, default_drop_max_plaintext_bytes, parse_drop_record}
use limnifs_py.DropRecord.Format.{IsDropRecord, drop_record_bytes, parse_drop_record-Decodes}
use limnifs_py.Codec
use limnifs_py.Codec.{Lz4, compress, decompress}
use limnifs_py.SlabReader.{SlabView, plaintext, parse_slab, parse_slab_view, plaintext_for}
use limnifs_py.SlabReader.Layout.{slab_bytes, IsSlab}
use limnifs_py.SlabReader.Parse.{view_of, parse_slab-slab_bytes}
use limnifs_py.SlabReader.Sound.{IsViewOf, parse_slab_sound, parse_slab_err}
use limnifs_py.SlabReader.Lookup.{IsFirst, IsOk, plaintext_for-total, plaintext_for-stored}

abbrev hash : List ℕ
hash = replicate 32 7

abbrev drop_a : DropRecord
drop_a = record {
  drop_id = record { bytes = replicate 32 1 };
  plaintext_len = 2;
  representation = record { codec = 0; aead = 0; ec = 0 };
  solid_window_index = 0;
  offset_in_window = 0;
  len_in_window = 2;
}

abbrev drop_b : DropRecord
drop_b = record {
  drop_id = record { bytes = replicate 32 2 };
  plaintext_len = 3;
  representation = record { codec = 0; aead = 0; ec = 0 };
  solid_window_index = 0;
  offset_in_window = 2;
  len_in_window = 3;
}

abbrev drops : List DropRecord
drops = drop_a ∷ drop_b ∷ []

abbrev window : List ℕ
window = b'h' ∷ b'i' ∷ b'y' ∷ b'o' ∷ b'u' ∷ []

-- 56 + 2 * 48 + 5 bytes.
abbrev header : SlabHeader
header = record {
  format_version = 1;
  slab_id = record { ordinal = 5; hash = hash };
  total_length = 157;
  ec_descriptor = 0;
  crypto_hint = 0;
}

header_valid : IsSlabHeader default_slab_max_bytes header
header_valid = record {
  version = refl;
  id = omega arith;
  long_enough = omega arith;
  below_ceiling = omega arith;
  fits = omega arith;
  ec = omega arith;
  crypto = omega arith;
}

drop_a_valid : IsDropRecord header default_drop_max_plaintext_bytes drop_a
drop_a_valid = record {
  id = refl;
  below_ceiling = omega arith;
  fits = omega arith;
  rep = omega arith;
  plain = λ _. refl;
  no_ec = λ _. refl;
  window = omega arith;
  offset = omega arith;
  len = omega arith;
}

drop_b_valid : IsDropRecord header default_drop_max_plaintext_bytes drop_b
drop_b_valid = record {
  id = refl;
  below_ceiling = omega arith;
  fits = omega arith;
  rep = omega arith;
  plain = λ _. refl;
  no_ec = λ _. refl;
  window = omega arith;
  offset = omega arith;
  len = omega arith;
}

example-IsSlab : IsSlab header drops window
unfolding le_bytes
example-IsSlab = record {
  header = header_valid;
  total = refl;
  records_valid = (drop_a_valid, (drop_b_valid, tt));
  window_size = refl;
}

abbrev raw : List ℕ
raw = slab_bytes header drops window

raw-IsByte : All IsByte raw
unfolding le_bytes
raw-IsByte = omega arith

-- A block is the plaintext itself.
abbrev identity_lz4 : Lz4
identity_lz4 = record {
  compress_block = λ p. some p;
  decompress_block = λ block n. some block;
  decompress-compress = λ p block e. sym e;
}

parse_slab_header-Decodes_example :
    Reads (parse_slab_header default_slab_max_bytes) (slab_header_bytes header) header
parse_slab_header-Decodes_example =
    (parse_slab_header-Decodes default_slab_max_bytes).reads header header_valid

parse_drop_record-Decodes_example :
    Reads
      (parse_drop_record header default_drop_max_plaintext_bytes)
      (drop_record_bytes drop_b)
      drop_b
parse_drop_record-Decodes_example =
    (parse_drop_record-Decodes header default_drop_max_plaintext_bytes).reads drop_b drop_b_valid

parse_slab-slab_bytes_example : parse_slab raw ≡ ok (view_of header drops window)
parse_slab-slab_bytes_example = parse_slab-slab_bytes header drops window example-IsSlab

parse_slab_sound_example : IsViewOf raw (view_of header drops window)
parse_slab_sound_example =
    parse_slab_sound raw (view_of header drops window) raw-IsByte
      (parse_slab-slab_bytes header drops window example-IsSlab)

parse_slab_empty : parse_slab [] ≡ err (truncated 0 4)
unfolding parse_slab parse_slab_view make_cursor parse_slab_header read_magic read ◌>>=◌
parse_slab_empty = refl

parse_slab_err_example : IsParseError (truncated 0 4)
parse_slab_err_example = parse_slab_err [] (truncated 0 4) tt parse_slab_empty

drop_b-IsFirst : IsFirst (replicate 32 2) drop_b drops
drop_b-IsFirst = (drop_a ∷ [], [], refl, ((λ p. cc), tt), refl)

plaintext_for-total_example :
    IsOk (plaintext_for identity_lz4 (view_of header drops window) (replicate 32 2))
plaintext_for-total_example =
    plaintext_for-total identity_lz4 (view_of header drops window) (replicate 32 2)

compress_store : compress identity_lz4 0 (b'y' ∷ b'o' ∷ b'u' ∷ []) ≡ ok (b'y' ∷ b'o' ∷ b'u' ∷ [])
unfolding compress
compress_store = refl

plaintext_for-stored_example :
    (view : SlabView) × (parse_slab raw ≡ ok view)
    × (plaintext_for identity_lz4 view (replicate 32 2) ≡ ok (plaintext (b'y' ∷ b'o' ∷ b'u' ∷ [])))
plaintext_for-stored_example =
    plaintext_for-stored identity_lz4 header drops (b'h' ∷ b'i' ∷ []) (b'y' ∷ b'o' ∷ b'u' ∷ []) []
      (b'y' ∷ b'o' ∷ b'u' ∷ []) (replicate 32 2) drop_b example-IsSlab drop_b-IsFirst refl refl refl
      refl refl compress_store

compress_lz4 : compress identity_lz4 1 (b'y' ∷ b'o' ∷ []) ≡ ok (2 ∷ 0 ∷ 0 ∷ 0 ∷ b'y' ∷ b'o' ∷ [])
unfolding compress le_bytes
compress_lz4 = refl

codec_round_trip_example :
    decompress identity_lz4 1 (2 ∷ 0 ∷ 0 ∷ 0 ∷ b'y' ∷ b'o' ∷ []) 2 ≡ ok (b'y' ∷ b'o' ∷ [])
codec_round_trip_example =
    Codec.decompress-compress identity_lz4 1 (b'y' ∷ b'o' ∷ []) (2 ∷ 0 ∷ 0 ∷ 0 ∷ b'y' ∷ b'o' ∷ [])
      compress_lz4

decompress-length_example : length {A = ℕ} (b'y' ∷ b'o' ∷ []) ≡ 2
decompress-length_example =
    Codec.decompress-length identity_lz4 1 (2 ∷ 0 ∷ 0 ∷ 0 ∷ b'y' ∷ b'o' ∷ []) 2 (b'y' ∷ b'o' ∷ [])
      codec_round_trip_example

-- A store drop of the wrong length is corrupt.
decompress_store_mismatch : decompress identity_lz4 0 (1 ∷ 2 ∷ []) 99 ≡ err corrupt
unfolding decompress
decompress_store_mismatch = refl

slab_id_from_bytes-to_bytes_example :
    (slab_id_to_bytes header.slab_id ≡ ok (slab_id_bytes header.slab_id))
    × (slab_id_from_bytes (slab_id_bytes header.slab_id) ≡ ok header.slab_id)
slab_id_from_bytes-to_bytes_example = slab_id_from_bytes-to_bytes header.slab_id (omega arith)
