-- ===== src/Utf8.antt =====
-- Python's strict UTF-8: `text.encode("utf-8")` and `raw.decode("utf-8")`. A text is the list of
-- its code points.
pub mod Laws
pub mod Texts
use limnifs_py.Prelude.{
  ℕ, zero, suc, ◌+◌, ◌-◌, ◌*◌, ◌/◌, ◌%◌, Bool, true, Option, none, some, List, [], ◌∷◌, ◌&&◌, ◌||◌,
  flat_map, ltb, leb, ◌==◌, if◌then◌else◌,
}
use limnifs_py.Errors.{Result, ok, err, corrupt, value_error}

-- The one to four bytes of a code point.
unfoldable pub encode_char : ℕ → List ℕ
encode_char c =
    if ltb c 0x80
    then c ∷ []
    else if ltb c 0x800
    then (0xc0 + c / 64) ∷ (0x80 + c % 64) ∷ []
    else if ltb c 0x10000
    then (0xe0 + c / 4096) ∷ (0x80 + c / 64 % 64) ∷ (0x80 + c % 64) ∷ []
    else (0xf0 + c / 262144) ∷ (0x80 + c / 4096 % 64) ∷ (0x80 + c / 64 % 64) ∷ (0x80 + c % 64) ∷ []

abbrev pub encode : List ℕ → List ℕ
encode = flat_map encode_char

-- A code point that has an encoding: it is in range and no surrogate.
unfoldable pub is_scalar : ℕ → Bool
is_scalar c = ltb c 0xd800 || (leb 0xe000 c && ltb c 0x110000)

unfoldable pub all_scalar : List ℕ → Bool
all_scalar [] = true
all_scalar (c ∷ text) = is_scalar c && all_scalar text

-- `text.encode("utf-8")`: a UnicodeEncodeError, which is a ValueError, on a surrogate.
unfoldable pub encode_text : List ℕ → Result (List ℕ)
encode_text text = if all_scalar text then ok (encode text) else err value_error

-- Between two characters, or inside one: how many bytes follow the next one, the bits so far, and
-- the range of the next byte, lowest and one past the highest.
pub data State : Type 0 where
  ready : State
  inside : (more bits lowest past : ℕ) → State

pub data Move : Type 0 where
  reject : Move
  goto : State → Move
  emit : ℕ → Move

-- The second byte's range excludes overlong forms, surrogates and code points past 0x10FFFF.
unfoldable pub first_byte : ℕ → Move
first_byte b =
    if ltb b 0x80
    then emit b
    else if ltb b 0xc2
    then reject
    else if ltb b 0xe0
    then goto (inside 0 (b - 0xc0) 0x80 0xc0)
    else if ltb b 0xf0
    then goto
        (inside 1 (b - 0xe0) (if b == 0xe0 then 0xa0 else 0x80) (if b == 0xed then 0xa0 else 0xc0))
    else if ltb b 0xf5
    then goto
        (inside 2 (b - 0xf0) (if b == 0xf0 then 0x90 else 0x80) (if b == 0xf4 then 0x90 else 0xc0))
    else reject

abbrev with_bits : ℕ → ℕ → Move
with_bits zero bits = emit bits
with_bits (suc more) bits = goto (inside more bits 0x80 0xc0)

unfoldable pub step : State → ℕ → Move
unfolding first_byte
step ready b = first_byte b
step (inside more bits lowest past) b =
    if leb lowest b && ltb b past then with_bits more (bits * 64 + (b - 0x80)) else reject

abbrev pub push : ℕ → Option (List ℕ) → Option (List ℕ)
push c none = none
push c (some cs) = some (c ∷ cs)

-- `none` is a UnicodeDecodeError.
unfoldable pub decode_from : State → List ℕ → Option (List ℕ)
decode_from ready [] = some []
decode_from (inside more bits lowest past) [] = none
decode_from s (b ∷ bs) = elim (step s b) [
  | reject ↦ none
  | goto s' ↦ decode_from s' bs
  | emit c ↦ push c (decode_from ready bs)
]

unfoldable pub decode : List ℕ → Option (List ℕ)
unfolding decode_from step
decode = decode_from ready

-- `raw.decode("utf-8")` where a `UnicodeDecodeError` is turned into a `CorruptError`.
unfoldable pub decode_text : List ℕ → Result (List ℕ)
decode_text raw = elim (decode raw) [ none ↦ err corrupt | some text ↦ ok text ]
