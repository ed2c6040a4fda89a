-- ===== src/Base32/Digits.antt =====
-- Forty bits as eight digits and as five bytes.
use limnifs_py.Prelude.{
  ℕ, ◌+◌, ◌*◌, ◌/◌, ◌%◌, ◌^◌, ◌<◌, ◌≡◌, refl, ap, ◌∙◌, List, [], ◌∷◌, map, arith, take, All,
}
use limnifs_py.Errors.{ok}
use limnifs_py.Wire.{IsByte}
use limnifs_py.Base32.{digit_char, digit_value, quantum, five_bytes, big_endian_5, accumulate}

pub digit_value-digit_char : (d : ℕ) → d < 32 → digit_value (digit_char d) ≡ ok d
unfolding digit_value digit_char
digit_value-digit_char d h = ground arith

accumulate-digit :
    (acc d : ℕ) (text : List ℕ)
    → d < 32
    → accumulate acc (digit_char d ∷ text) ≡ accumulate (acc * 32 + d) text
unfolding accumulate
accumulate-digit acc d text h = rw (digit_value-digit_char d h)

-- Digits come back.
abbrev value_of : ℕ → List ℕ → ℕ
value_of acc [] = acc
value_of acc (d ∷ ds) = value_of (acc * 32 + d) ds

pub accumulate-digits :
    (acc : ℕ) (ds : List ℕ)
    → All (λ d. d < 32) ds
    → accumulate acc (map digit_char ds) ≡ ok (value_of acc ds)
unfolding accumulate
accumulate-digits acc [] h = refl
accumulate-digits acc (d ∷ ds) h =
    accumulate-digit acc d (map digit_char ds) h.0 ∙ accumulate-digits (acc * 32 + d) ds h.1

pub quantum-digits : (n : ℕ) → All (λ d. d < 32) (quantum n)
unfolding quantum
quantum-digits n = omega arith

pub accumulate-quantum : (n : ℕ) → n < 2 ^ 40 → accumulate 0 (map digit_char (quantum n)) ≡ ok n
unfolding quantum
accumulate-quantum n h = accumulate-digits 0 (quantum n) (quantum-digits n) ∙ ap ok (omega arith)

pub big_endian_5-five_bytes :
    (a b c d e : ℕ)
    → IsByte a
    → IsByte b
    → IsByte c
    → IsByte d
    → IsByte e
    → big_endian_5 (five_bytes a b c d e) ≡ a ∷ b ∷ c ∷ d ∷ e ∷ []
unfolding big_endian_5
big_endian_5-five_bytes a b c d e ha hb hc hd he =
    let n = five_bytes a b c d e in
    let e0 : n / 2 ^ 32 % 256 ≡ a = omega arith in
    let e1 : n / 2 ^ 24 % 256 ≡ b = omega arith in
    let e2 : n / 2 ^ 16 % 256 ≡ c = omega arith in
    let e3 : n / 2 ^ 8 % 256 ≡ d = omega arith in let e4 : n % 256 ≡ e = omega arith in cc

-- The first digits of forty bits whose other digits are zero give the bits back, shifted.
pub accumulate-take_2 :
    (n : ℕ)
    → n < 2 ^ 40
    → n % 2 ^ 30 ≡ 0
    → (acc : ℕ) × (accumulate 0 (take 2 (map digit_char (quantum n))) ≡ ok acc) × (acc * 32 ^ 6 ≡ n)
unfolding quantum
accumulate-take_2 n h z = (_, accumulate-digits 0 (take 2 (quantum n)) (omega arith), omega arith)

pub accumulate-take_4 :
    (n : ℕ)
    → n < 2 ^ 40
    → n % 2 ^ 20 ≡ 0
    → (acc : ℕ) × (accumulate 0 (take 4 (map digit_char (quantum n))) ≡ ok acc) × (acc * 32 ^ 4 ≡ n)
unfolding quantum
accumulate-take_4 n h z = (_, accumulate-digits 0 (take 4 (quantum n)) (omega arith), omega arith)

pub accumulate-take_5 :
    (n : ℕ)
    → n < 2 ^ 40
    → n % 2 ^ 15 ≡ 0
    → (acc : ℕ) × (accumulate 0 (take 5 (map digit_char (quantum n))) ≡ ok acc) × (acc * 32 ^ 3 ≡ n)
unfolding quantum
accumulate-take_5 n h z = (_, accumulate-digits 0 (take 5 (quantum n)) (omega arith), omega arith)

pub accumulate-take_7 :
    (n : ℕ)
    → n < 2 ^ 40
    → n % 2 ^ 5 ≡ 0
    → (acc : ℕ) × (accumulate 0 (take 7 (map digit_char (quantum n))) ≡ ok acc) × (acc * 32 ^ 1 ≡ n)
unfolding quantum
accumulate-take_7 n h z = (_, accumulate-digits 0 (take 7 (quantum n)) (omega arith), omega arith)
