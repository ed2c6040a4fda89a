-- ===== src/Codec.antt =====
-- limnifs/codec.py: compression and decompression by codec identifier.
use limnifs_py.Prelude.{
  ℕ, ◌^◌, ◌≡◌, ◌⊎◌, Option, none, some, List, ◌++◌, arith, length, drop, drop-append, length-append,
  ltb, ◌==◌, ◌!=◌, if◌then◌else◌, subst, inl, inr, Option-cases,
}
use limnifs_py.Errors.{Error, Result, ok, err, corrupt, unsupported, overflow_error}
use limnifs_py.Wire.{le_bytes, length-le_bytes}

abbrev pub codec_store : ℕ
codec_store = 0x00

abbrev pub codec_lz4 : ℕ
codec_lz4 = 0x01

-- The package `lz4.block`: `compress(plaintext, store_size=False)`, which is `none` where it raises
-- an OverflowError, on a plaintext above its maximum size, and `decompress(block,
-- uncompressed_size=n)`, which is `none` where it raises. A block decompresses to what it was made
-- from, given that length.
pub record Lz4 : Type 0 where
  pub compress_block : List ℕ → Option (List ℕ)
  pub decompress_block : List ℕ → ℕ → Option (List ℕ)
  pub decompress-compress :
      (plaintext block : List ℕ)
      → compress_block plaintext ≡ some block
      → decompress_block block (length plaintext) ≡ some plaintext

module _ (lz4 : Lz4) where
  -- `len(plaintext).to_bytes(4, "little") + block`, where `to_bytes` raises an OverflowError from
  -- 2^32 on.
  unfoldable pub prepend_size : ℕ → Option (List ℕ) → Result (List ℕ)
  prepend_size size none = err overflow_error
  prepend_size size (some block) =
      if ltb size (2 ^ 32) then ok (le_bytes 4 size ++ block) else err overflow_error

  unfoldable pub compress : ℕ → List ℕ → Result (List ℕ)
  unfolding prepend_size
  compress codec_id plaintext =
      if codec_id == codec_store
      then ok plaintext
      else if codec_id == codec_lz4
      then prepend_size (length plaintext) (lz4.compress_block plaintext)
      else err unsupported

  unfoldable pub check_length : Option (List ℕ) → ℕ → Result (List ℕ)
  check_length none expected_len = err corrupt
  check_length (some result) expected_len =
      if length result != expected_len then err corrupt else ok result

  unfoldable pub decompress : ℕ → List ℕ → ℕ → Result (List ℕ)
  unfolding check_length
  decompress codec_id compressed expected_len =
      if codec_id == codec_store
      then (if length compressed != expected_len then err corrupt else ok compressed)
      else if codec_id == codec_lz4
      then (if ltb (length compressed) 4
          then err corrupt
          else check_length (lz4.decompress_block (drop 4 compressed) expected_len) expected_len)
      else err unsupported

  unfoldable pub compress_lz4_with_size : List ℕ → Result (List ℕ)
  unfolding compress
  compress_lz4_with_size = compress codec_lz4

  -- What decompresses has the length that was asked for, whatever the codec and the bytes.
  pub decompress-length :
      (codec_id : ℕ) (compressed : List ℕ) (expected_len : ℕ) (plaintext : List ℕ)
      → decompress codec_id compressed expected_len ≡ ok plaintext
      → length plaintext ≡ expected_len
  unfolding decompress
  decompress-length codec_id compressed n plaintext h = ground arith

  -- What `compress` returns decompresses, at the plaintext's length, to the plaintext.
  pub decompress-compress :
      (codec_id : ℕ) (plaintext compressed : List ℕ)
      → compress codec_id plaintext ≡ ok compressed
      → decompress codec_id compressed (length plaintext) ≡ ok plaintext
  unfolding compress decompress
  decompress-compress codec_id plaintext compressed h =
      elim (Option-cases (lz4.compress_block plaintext)) [
        | inl raised ↦ ground (arith, raised)
        | inr (block, made) ↦
            let prefix = le_bytes 4 (length plaintext) in
            let back : drop 4 (prefix ++ block) ≡ block =
              subst (λ k. drop k (prefix ++ block) ≡ block) (length-le_bytes 4 (length plaintext))
                (drop-append prefix block) in
            ground (
              arith,
              made,
              lz4.decompress-compress plaintext block made,
              back,
              length-append prefix block,
              length-le_bytes 4 (length plaintext),
            )
      ]

  -- All that `decompress` raises are the two errors that the slab reader catches.
  pub decompress_err :
      (codec_id : ℕ) (compressed : List ℕ) (n : ℕ) (e : Error)
      → decompress codec_id compressed n ≡ err e
      → (e ≡ corrupt) ⊎ (e ≡ unsupported)
  unfolding decompress
  decompress_err codec_id compressed n e h = ground arith
