-- ===== src/Header/Tests.antt =====
-- The current header, written and read back.
use limnifs_py.Prelude.{ℕ, ◌≡◌, refl, List, [], ◌∷◌}
use limnifs_py.Errors.{ok}
use limnifs_py.Wire.{le_bytes, pack_hhh}
use limnifs_py.Cursor.Reads.{Reads}
use limnifs_py.Header.{current, header_to_bytes, parse_manifest_header}
use limnifs_py.Header.Format.{parse-header_to_bytes}

abbrev current_bytes : List ℕ
current_bytes = b'L' ∷ b'M' ∷ b'F' ∷ b'S' ∷ 1 ∷ 0 ∷ 1 ∷ 0 ∷ 1 ∷ 0 ∷ 0 ∷ 0 ∷ 0 ∷ 0 ∷ 0 ∷ 0 ∷ []

header_to_bytes-current : header_to_bytes current ≡ ok current_bytes
unfolding header_to_bytes pack_hhh le_bytes
header_to_bytes-current = refl

parse-header_to_bytes_example : Reads parse_manifest_header current_bytes current
parse-header_to_bytes_example = parse-header_to_bytes current current_bytes header_to_bytes-current
