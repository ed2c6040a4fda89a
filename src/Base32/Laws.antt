-- ===== src/Base32/Laws.antt =====
-- The digits and the padding of an encoding, and what the string methods make of them.
use limnifs_py.Prelude.{
  ℕ, zero, suc, ◌+◌, ◌-◌, ◌%◌, ◌≤◌, ◌<◌, ◌≡◌, ◌⊎◌, refl, sym, ap, ◌∙◌, true, List, [], ◌∷◌, ◌++◌,
  map, append_assoc, arith, length, take, All, All-append,
}
use limnifs_py.Base32.{
  digit_char, quantum, five_bytes, padding, b32encode, rstrip_padding, is_padding, all_ascii,
  upper_char, lower,
}
use limnifs_py.Base32.Digits.{quantum-digits}

-- The digits of the encoding, and how much padding follows them.
abbrev pub body : List ℕ → List ℕ
body [] = []
body (a ∷ []) = take 2 (map digit_char (quantum (five_bytes a 0 0 0 0)))
body (a ∷ b ∷ []) = take 4 (map digit_char (quantum (five_bytes a b 0 0 0)))
body (a ∷ b ∷ c ∷ []) = take 5 (map digit_char (quantum (five_bytes a b c 0 0)))
body (a ∷ b ∷ c ∷ d ∷ []) = take 7 (map digit_char (quantum (five_bytes a b c d 0)))
body (a ∷ b ∷ c ∷ d ∷ e ∷ rest) = map digit_char (quantum (five_bytes a b c d e)) ++ body rest

abbrev pub pads : List ℕ → ℕ
pads [] = 0
pads (a ∷ []) = 6
pads (a ∷ b ∷ []) = 4
pads (a ∷ b ∷ c ∷ []) = 3
pads (a ∷ b ∷ c ∷ d ∷ []) = 1
pads (a ∷ b ∷ c ∷ d ∷ e ∷ rest) = pads rest

pub b32encode-body : (raw : List ℕ) → b32encode raw ≡ body raw ++ padding (pads raw)
unfolding b32encode
b32encode-body [] = refl
b32encode-body (a ∷ []) = refl
b32encode-body (a ∷ b ∷ []) = refl
b32encode-body (a ∷ b ∷ c ∷ []) = refl
b32encode-body (a ∷ b ∷ c ∷ d ∷ []) = refl
b32encode-body (a ∷ b ∷ c ∷ d ∷ e ∷ rest) =
    let digits = map digit_char (quantum (five_bytes a b c d e)) in
    ap (λ t. digits ++ t) (b32encode-body rest)
    ∙ sym (append_assoc digits (body rest) (padding (pads rest)))

abbrev pub IsDigitChar : ℕ → Type 0
IsDigitChar c = ((65 ≤ c) × (c ≤ 90)) ⊎ ((50 ≤ c) × (c ≤ 55))

digit_char-IsDigitChar : (d : ℕ) → d < 32 → IsDigitChar (digit_char d)
unfolding digit_char
digit_char-IsDigitChar d h = ground arith

digits-All : (ds : List ℕ) → All (λ d. d < 32) ds → All IsDigitChar (map digit_char ds)
digits-All [] h = tt
digits-All (d ∷ ds) h = (digit_char-IsDigitChar d h.0, digits-All ds h.1)

quantum-All : (n : ℕ) → All IsDigitChar (map digit_char (quantum n))
quantum-All n = digits-All (quantum n) (quantum-digits n)

take-All : (k : ℕ) (cs : List ℕ) → All IsDigitChar cs → All IsDigitChar (take k cs)
take-All zero cs h = tt
take-All (suc k) [] h = tt
take-All (suc k) (c ∷ cs) h = (h.0, take-All k cs h.1)

pub body-All : (raw : List ℕ) → All IsDigitChar (body raw)
body-All [] = tt
body-All (a ∷ []) = take-All 2 _ (quantum-All (five_bytes a 0 0 0 0))
body-All (a ∷ b ∷ []) = take-All 4 _ (quantum-All (five_bytes a b 0 0 0))
body-All (a ∷ b ∷ c ∷ []) = take-All 5 _ (quantum-All (five_bytes a b c 0 0))
body-All (a ∷ b ∷ c ∷ d ∷ []) = take-All 7 _ (quantum-All (five_bytes a b c d 0))
body-All (a ∷ b ∷ c ∷ d ∷ e ∷ rest) =
    All-append IsDigitChar (map digit_char (quantum (five_bytes a b c d e))) (body rest)
      (quantum-All (five_bytes a b c d e)) (body-All rest)

-- The padding is what is missing to a multiple of eight.
pub length-body :
    (raw : List ℕ)
    → ((8 - length (body raw) % 8) % 8 ≡ pads raw)
      × ((length (body raw) + pads raw) % 8 ≡ 0)
      × (is_padding (pads raw) ≡ true)
unfolding quantum is_padding
length-body [] = (refl, refl, refl)
length-body (a ∷ []) = (refl, refl, refl)
length-body (a ∷ b ∷ []) = (refl, refl, refl)
length-body (a ∷ b ∷ c ∷ []) = (refl, refl, refl)
length-body (a ∷ b ∷ c ∷ d ∷ []) = (refl, refl, refl)
length-body (a ∷ b ∷ c ∷ d ∷ e ∷ rest) =
    let (missing, whole, known) = length-body rest in
    (omega (arith, missing), omega (arith, whole), known)

rstrip-all : (n : ℕ) → rstrip_padding (padding n) ≡ []
unfolding rstrip_padding
rstrip-all zero = refl
rstrip-all (suc n) = rw (rstrip-all n)

pub rstrip-digits :
    (cs : List ℕ) (n : ℕ) → All IsDigitChar cs → rstrip_padding (cs ++ padding n) ≡ cs
unfolding rstrip_padding
rstrip-digits [] n h = rstrip-all n
rstrip-digits (c ∷ cs) n h = ground (arith, h.0, rstrip-digits cs n h.1)

pub upper-lower : (cs : List ℕ) → All IsDigitChar cs → map upper_char (lower cs) ≡ cs
unfolding lower
upper-lower [] h = refl
upper-lower (c ∷ cs) h = ground (arith, h.0, upper-lower cs h.1)

pub lower-ascii : (cs : List ℕ) → All IsDigitChar cs → All (λ c. c < 128) (lower cs)
unfolding lower
lower-ascii [] h = tt
lower-ascii (c ∷ cs) h = (ground (arith, h.0), lower-ascii cs h.1)

pub all_ascii-digits :
    (cs : List ℕ) (n : ℕ) → All IsDigitChar cs → all_ascii (cs ++ padding n) ≡ true
unfolding all_ascii
all_ascii-digits [] zero h = refl
all_ascii-digits [] (suc n) h = all_ascii-digits [] n tt
all_ascii-digits (c ∷ cs) n h = ground (arith, h.0, all_ascii-digits cs n h.1)
