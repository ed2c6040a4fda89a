-- ===== src/FormatTypes/Text.antt =====
-- limnifs/format_types.py: the base32 texts of the identifiers.
use limnifs_py.Prelude.{
  refl, sym, map, ℕ, ◌-◌, ◌%◌, ◌≡◌, ap, ◌∙◌, List, [], ◌∷◌, ◌++◌, length, length-map, drop, take,
  bytes_eq, arith, All, ◌!=◌, if◌then◌else◌,
}
use limnifs_py.Errors.{ok-injective, Result, ok, err, value_error, ◌>>=◌}
use limnifs_py.Wire.{IsByte}
use limnifs_py.Base32.{
  b32encode, b32decode, rstrip_padding, padding, lower, lower_char, upper_char, Upper,
}
use limnifs_py.Base32.Laws.{
  body, pads, b32encode-body, body-All, length-body, rstrip-digits, upper-lower, lower-ascii,
}
use limnifs_py.Base32.Quanta.{b32decode-body}
use limnifs_py.FormatTypes.{DropId, make_drop_id, ManifestRoot, blake3_len}
use limnifs_py.FormatTypes.Laws.{IsDropId, make_drop_id_lem}

unfoldable pub encode_base32_lower_nopad : List ℕ → List ℕ
encode_base32_lower_nopad raw = lower (rstrip_padding (b32encode raw))

-- "b3:"
abbrev pub text_prefix : List ℕ
text_prefix = b'b' ∷ b'3' ∷ b':' ∷ []

unfoldable pub drop_id_to_text : DropId → List ℕ
drop_id_to_text d = text_prefix ++ encode_base32_lower_nopad d.bytes

unfoldable pub manifest_root_to_text : ManifestRoot → List ℕ
manifest_root_to_text r = text_prefix ++ encode_base32_lower_nopad r.bytes

module _ (upper : Upper) where
  -- `(-len(text)) % 8` characters of padding
  unfoldable pub decode_base32_lower_nopad : List ℕ → Result (List ℕ)
  decode_base32_lower_nopad text =
      b32decode (upper.upper text ++ padding ((8 - length text % 8) % 8))

  -- `DropId.parse_text`
  unfoldable pub drop_id_parse_text : List ℕ → Result DropId
  drop_id_parse_text text =
      let parsed = do
        decoded ← decode_base32_lower_nopad (drop 3 text)
        if length decoded != blake3_len then err value_error else make_drop_id decoded
      in if bytes_eq (take 3 text) text_prefix then parsed else err value_error

encode-body : (raw : List ℕ) → encode_base32_lower_nopad raw ≡ lower (body raw)
unfolding encode_base32_lower_nopad
encode-body raw =
    ap lower
      (ap rstrip_padding (b32encode-body raw) ∙ rstrip-digits (body raw) (pads raw) (body-All raw))

module _ (upper : Upper) where
  decode-encode :
      (raw : List ℕ)
      → All IsByte raw
      → decode_base32_lower_nopad upper (encode_base32_lower_nopad raw) ≡ ok raw
  unfolding decode_base32_lower_nopad lower
  decode-encode raw y =
      let text = lower (body raw) in
      let shout : upper.upper text ≡ body raw =
        upper.upper_ascii text (lower-ascii (body raw) (body-All raw))
        ∙ upper-lower (body raw) (body-All raw) in
      let (missing, whole, known) = length-body raw in
      let pad : (8 - length text % 8) % 8 ≡ pads raw =
        ap (λ (n : ℕ). (8 - n % 8) % 8) (length-map lower_char (body raw)) ∙ missing in
      rw (encode-body raw, shout, pad) (b32decode-body raw y)

  -- For every `str.upper` that agrees with ASCII, the text of a drop identifier of 32 bytes
  -- parses, without an error, to the identifier.
  pub drop_id_parse_text-to_text :
      (d : DropId)
      → IsDropId d
      → All IsByte d.bytes
      → drop_id_parse_text upper (drop_id_to_text d) ≡ ok d
  unfolding drop_id_parse_text drop_id_to_text bytes_eq
  drop_id_parse_text-to_text d size y =
      rw (decode-encode d.bytes y, make_drop_id_lem d size) (ground (arith, size))

-- Byte strings with the same text are the same.
pub encode_base32-injective :
    (xs ys : List ℕ)
    → All IsByte xs
    → All IsByte ys
    → encode_base32_lower_nopad xs ≡ encode_base32_lower_nopad ys
    → xs ≡ ys
encode_base32-injective xs ys p q e =
    let shout : Upper = record { upper = map upper_char; upper_ascii = λ text h. refl } in
    ok-injective (
      sym (decode-encode shout xs p)
      ∙ (ap (decode_base32_lower_nopad shout) e ∙ decode-encode shout ys q))
