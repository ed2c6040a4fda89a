-- ===== src/Base32.antt =====
-- Python's `base64.b32encode` and `b32decode`, and the string methods used around them. A text is the
-- list of its code points.
pub mod Digits
pub mod Laws
pub mod Quanta
use limnifs_py.Prelude.{
  ℕ, ◌+◌, ◌-◌, ◌*◌, ◌/◌, ◌%◌, ◌^◌, ◌<◌, ◌≡◌, Bool, true, false, not, ◌&&◌, ◌||◌, List, [], ◌∷◌,
  ◌++◌, map, length, take, replicate, is_empty, All, ltb, leb, ◌==◌, ◌!=◌, if◌then◌else◌,
}
use limnifs_py.Errors.{Result, ok, err, value_error, ◌>>=◌}

-- A to Z and 2 to 7.
unfoldable pub digit_char : ℕ → ℕ
digit_char d = if ltb d 26 then 65 + d else 24 + d

unfoldable pub digit_value : ℕ → Result ℕ
digit_value c =
    if leb 65 c && leb c 90
    then ok (c - 65)
    else if leb 50 c && leb c 55
    then ok (c - 24)
    else err value_error

-- The eight digits of 40 bits.
unfoldable pub quantum : ℕ → List ℕ
quantum n =
    (n / 2 ^ 35 % 32)
    ∷ (n / 2 ^ 30 % 32)
    ∷ (n / 2 ^ 25 % 32)
    ∷ (n / 2 ^ 20 % 32)
    ∷ (n / 2 ^ 15 % 32)
    ∷ (n / 2 ^ 10 % 32)
    ∷ (n / 2 ^ 5 % 32)
    ∷ (n % 32)
    ∷ []

-- `int.from_bytes` of five bytes.
abbrev pub five_bytes : ℕ → ℕ → ℕ → ℕ → ℕ → ℕ
five_bytes a b c d e = (((a * 256 + b) * 256 + c) * 256 + d) * 256 + e

abbrev pub padding : ℕ → List ℕ
padding n = replicate n b'='

-- Zeros fill up the last five bytes, and the digits that come of them alone are replaced.
unfoldable pub b32encode : List ℕ → List ℕ
b32encode [] = []
b32encode (a ∷ []) = take 2 (map digit_char (quantum (five_bytes a 0 0 0 0))) ++ padding 6
b32encode (a ∷ b ∷ []) = take 4 (map digit_char (quantum (five_bytes a b 0 0 0))) ++ padding 4
b32encode (a ∷ b ∷ c ∷ []) = take 5 (map digit_char (quantum (five_bytes a b c 0 0))) ++ padding 3
b32encode (a ∷ b ∷ c ∷ d ∷ []) =
    take 7 (map digit_char (quantum (five_bytes a b c d 0))) ++ padding 1
b32encode (a ∷ b ∷ c ∷ d ∷ e ∷ rest) =
    map digit_char (quantum (five_bytes a b c d e)) ++ b32encode rest

-- `text.rstrip("=")`
unfoldable pub rstrip_padding : List ℕ → List ℕ
rstrip_padding [] = []
rstrip_padding (c ∷ text) =
    let rest = rstrip_padding text in if is_empty rest && (c == b'=') then [] else c ∷ rest

-- `int.to_bytes(5, "big")`
unfoldable pub big_endian_5 : ℕ → List ℕ
big_endian_5 n =
    (n / 2 ^ 32 % 256)
    ∷ (n / 2 ^ 24 % 256)
    ∷ (n / 2 ^ 16 % 256)
    ∷ (n / 2 ^ 8 % 256)
    ∷ (n % 256)
    ∷ []

-- `acc = (acc << 5) + b32rev[c]` for each digit: a binascii.Error, which is a ValueError, on another
-- character.
unfoldable pub accumulate : ℕ → List ℕ → Result ℕ
accumulate acc [] = ok acc
accumulate acc (c ∷ text) = do d ← digit_value c; accumulate (acc * 32 + d) text

-- The loop over the eights; the last may be shorter.
unfoldable pub decode_quanta : List ℕ → Result (List ℕ)
decode_quanta [] = ok []
decode_quanta (a ∷ b ∷ c ∷ d ∷ e ∷ f ∷ g ∷ h ∷ rest) = do
  acc ← accumulate 0 (a ∷ b ∷ c ∷ d ∷ e ∷ f ∷ g ∷ h ∷ [])
  accs ← decode_quanta rest
  ok (acc ∷ accs)
decode_quanta text = do acc ← accumulate 0 text; ok (acc ∷ [])

-- The bytes of the accumulators; of the last one only those that no padding belongs to.
unfoldable pub trim : ℕ → List ℕ → List ℕ
trim padchars [] = []
trim padchars (acc ∷ []) =
    if padchars == 0
    then big_endian_5 acc
    else take ((43 - 5 * padchars) / 8) (big_endian_5 (acc * 32 ^ padchars))
trim padchars (acc ∷ next ∷ accs) = big_endian_5 acc ++ trim padchars (next ∷ accs)

-- `padchars in {0, 1, 3, 4, 6}`
unfoldable pub is_padding : ℕ → Bool
is_padding n = n == 0 || (n == 1 || (n == 3 || (n == 4 || n == 6)))

unfoldable pub all_ascii : List ℕ → Bool
all_ascii [] = true
all_ascii (c ∷ text) = ltb c 128 && all_ascii text

unfoldable pub b32decode : List ℕ → Result (List ℕ)
b32decode text =
    let s = rstrip_padding text in
    let padchars = length text - length s in
    let decoded = do
      accs ← decode_quanta s
      if is_padding padchars then ok (trim padchars accs) else err value_error
    in if all_ascii text
      then (if length text % 8 == 0 then decoded else err value_error)
      else err value_error

abbrev pub lower_char : ℕ → ℕ
lower_char c = if leb 65 c && leb c 90 then c + 32 else c

abbrev pub upper_char : ℕ → ℕ
upper_char c = if leb 97 c && leb c 122 then c - 32 else c

-- `text.lower()` for an ASCII text.
unfoldable pub lower : List ℕ → List ℕ
lower = map lower_char

-- `str.upper`, which is known on ASCII texts.
pub record Upper : Type 0 where
  pub upper : List ℕ → List ℕ
  pub upper_ascii : (text : List ℕ) → All (λ c. c < 128) text → upper text ≡ map upper_char text
