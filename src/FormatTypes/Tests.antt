-- ===== src/FormatTypes/Tests.antt =====
-- The text of an identifier, and texts of the same identifier.
use limnifs_py.Prelude.{◌≡◌, refl, [], ◌∷◌, ◌++◌, map, arith, replicate, bytes_eq}
use limnifs_py.Errors.{ok}
use limnifs_py.Base32.{
  Upper, upper_char, lower, padding, digit_char, digit_value, quantum, b32encode, rstrip_padding,
  big_endian_5, accumulate, decode_quanta, trim, is_padding, all_ascii, b32decode,
}
use limnifs_py.FormatTypes.{DropId, make_drop_id}
use limnifs_py.FormatTypes.Text.{
  text_prefix, encode_base32_lower_nopad, decode_base32_lower_nopad, drop_id_to_text,
  drop_id_parse_text, drop_id_parse_text-to_text,
}

-- `upper` on ASCII texts, and here on all.
abbrev ascii_upper : Upper
ascii_upper = record { upper = map upper_char; upper_ascii = λ text h. refl }

abbrev zeros : DropId
zeros = record { bytes = replicate 32 0 }

drop_id_parse_text-to_text_example :
    drop_id_parse_text ascii_upper (drop_id_to_text zeros) ≡ ok zeros
drop_id_parse_text-to_text_example = drop_id_parse_text-to_text ascii_upper zeros refl (omega arith)

text_of_zeros : drop_id_to_text zeros ≡ text_prefix ++ replicate 52 b'a'
unfolding drop_id_to_text encode_base32_lower_nopad b32encode rstrip_padding lower quantum
    digit_char
text_of_zeros = refl

-- The last character has four bits to spare, which are ignored.
check_spare_bits :
    drop_id_parse_text ascii_upper (text_prefix ++ (replicate 51 b'a' ++ (b'b' ∷ []))) ≡ ok zeros
unfolding drop_id_parse_text decode_base32_lower_nopad b32decode rstrip_padding all_ascii
    decode_quanta accumulate digit_value trim is_padding big_endian_5 make_drop_id bytes_eq
check_spare_bits = refl

-- Padding is accepted.
check_padding :
    drop_id_parse_text ascii_upper (text_prefix ++ (replicate 52 b'a' ++ padding 4)) ≡ ok zeros
unfolding drop_id_parse_text decode_base32_lower_nopad b32decode rstrip_padding all_ascii
    decode_quanta accumulate digit_value trim is_padding big_endian_5 make_drop_id bytes_eq
check_padding = refl
