-- ===== src/Base32/Quanta.antt =====
-- The digits of an encoding decode.
use limnifs_py.Prelude.{
  ℕ, ◌+◌, ◌-◌, ◌*◌, ◌/◌, ◌%◌, ◌^◌, ◌<◌, ◌≡◌, ◌≢◌, refl, sym, ap, ◌∙◌, true, List, [], ◌∷◌, ◌++◌,
  map, append-nil, arith, length, length-append, length-replicate, take, All, ◌==◌,
}
use limnifs_py.Errors.{Result, ok, ◌>>=◌}
use limnifs_py.Wire.{IsByte}
use limnifs_py.Base32.{
  digit_char, quantum, five_bytes, padding, big_endian_5, accumulate, decode_quanta, trim,
  b32decode,
}
use limnifs_py.Base32.Digits.{
  accumulate-quantum, accumulate-take_2, accumulate-take_4, accumulate-take_5, accumulate-take_7,
  big_endian_5-five_bytes,
}
use limnifs_py.Base32.Laws.{body, pads, body-All, length-body, rstrip-digits, all_ascii-digits}

-- The loop accumulates the digits, and the trimmed bytes are what was encoded.
abbrev Decoded : List ℕ → Type 0
Decoded raw =
    (accs : List ℕ) × (decode_quanta (body raw) ≡ ok accs)
    × (trim (pads raw) accs ≡ raw)
    × (accs ≡ [] → pads raw ≡ 0)

trim-next :
    (n padchars : ℕ) (accs : List ℕ)
    → (accs ≡ [] → padchars ≡ 0)
    → trim padchars (n ∷ accs) ≡ big_endian_5 n ++ trim padchars accs
unfolding trim
trim-next n padchars [] h = rw (h refl) (sym (append-nil (big_endian_5 n)))
trim-next n padchars (acc ∷ accs) h = refl

-- The last quantum, of which `k` bytes count.
last_quantum :
    (n k padchars : ℕ) (cs : List ℕ) (acc : ℕ)
    → padchars ≢ 0
    → (43 - 5 * padchars) / 8 ≡ k
    → accumulate 0 cs ≡ ok acc
    → acc * 32 ^ padchars ≡ n
    → trim padchars (acc ∷ []) ≡ take k (big_endian_5 n)
unfolding trim
last_quantum n k padchars cs acc some_padding kept e shifted = ground (arith, shifted, kept)

decode_quantum :
    (n : ℕ) (text : List ℕ)
    → n < 2 ^ 40
    → decode_quanta (map digit_char (quantum n) ++ text)
      ≡ (decode_quanta text >>= λ accs. ok (n ∷ accs))
unfolding decode_quanta quantum
decode_quantum n text h =
    ap (λ (r : Result ℕ). r >>= λ acc. decode_quanta text >>= λ accs. ok (acc ∷ accs))
      (accumulate-quantum n h)

-- Fewer than eight characters are one quantum.
one_quantum :
    (cs : List ℕ) (acc : ℕ)
    → cs ≢ []
    → length cs < 8
    → accumulate 0 cs ≡ ok acc
    → decode_quanta cs ≡ ok (acc ∷ [])
unfolding decode_quanta
one_quantum [] acc some_char short e = absurd (some_char refl)
one_quantum (a ∷ []) acc some_char short e = rw e
one_quantum (a ∷ b ∷ []) acc some_char short e = rw e
one_quantum (a ∷ b ∷ c ∷ []) acc some_char short e = rw e
one_quantum (a ∷ b ∷ c ∷ d ∷ []) acc some_char short e = rw e
one_quantum (a ∷ b ∷ c ∷ d ∷ f ∷ []) acc some_char short e = rw e
one_quantum (a ∷ b ∷ c ∷ d ∷ f ∷ g ∷ []) acc some_char short e = rw e
one_quantum (a ∷ b ∷ c ∷ d ∷ f ∷ g ∷ h ∷ []) acc some_char short e = rw e
one_quantum (a ∷ b ∷ c ∷ d ∷ f ∷ g ∷ h ∷ i ∷ cs) acc some_char short e = absurd (omega arith)

quanta : (raw : List ℕ) → All IsByte raw → Decoded raw
unfolding quantum
quanta [] y = ([], unfold decode_quanta in refl, unfold trim in refl, λ h. refl)
quanta (a ∷ []) y =
    let n = five_bytes a 0 0 0 0 in
    let (acc, e, shifted) = accumulate-take_2 n (omega (arith, y.0)) (omega arith) in
    (
      acc ∷ [],
      one_quantum _ acc (λ h. cc) (omega arith) e,
      last_quantum n 1 6 _ acc (λ h. omega arith) refl e shifted
          ∙ ap (take 1) (
              big_endian_5-five_bytes a 0 0 0 0 y.0 (omega arith) (omega arith) (omega arith)
                (omega arith)),
      λ h. cc,
    )
quanta (a ∷ b ∷ []) (ha, (hb, y)) =
    let n = five_bytes a b 0 0 0 in
    let (acc, e, shifted) = accumulate-take_4 n (omega arith) (omega arith) in
    (
      acc ∷ [],
      one_quantum _ acc (λ h. cc) (omega arith) e,
      last_quantum n 2 4 _ acc (λ h. omega arith) refl e shifted
          ∙ ap (take 2)
              (big_endian_5-five_bytes a b 0 0 0 ha hb (omega arith) (omega arith) (omega arith)),
      λ h. cc,
    )
quanta (a ∷ b ∷ c ∷ []) (ha, (hb, (hc, y))) =
    let n = five_bytes a b c 0 0 in
    let (acc, e, shifted) = accumulate-take_5 n (omega arith) (omega arith) in
    (
      acc ∷ [],
      one_quantum _ acc (λ h. cc) (omega arith) e,
      last_quantum n 3 3 _ acc (λ h. omega arith) refl e shifted
          ∙ ap (take 3) (big_endian_5-five_bytes a b c 0 0 ha hb hc (omega arith) (omega arith)),
      λ h. cc,
    )
quanta (a ∷ b ∷ c ∷ d ∷ []) (ha, (hb, (hc, (hd, y)))) =
    let n = five_bytes a b c d 0 in
    let (acc, e, shifted) = accumulate-take_7 n (omega arith) (omega arith) in
    (
      acc ∷ [],
      one_quantum _ acc (λ h. cc) (omega arith) e,
      last_quantum n 4 1 _ acc (λ h. omega arith) refl e shifted
          ∙ ap (take 4) (big_endian_5-five_bytes a b c d 0 ha hb hc hd (omega arith)),
      λ h. cc,
    )
quanta (a ∷ b ∷ c ∷ d ∷ e ∷ rest) (ha, (hb, (hc, (hd, (he, y))))) =
    let n = five_bytes a b c d e in
    let (accs, decoded, trimmed, none_left) = quanta rest y in
    (
      n ∷ accs,
      decode_quantum n (body rest) (omega arith)
          ∙ ap (λ (r : Result (List ℕ)). r >>= λ accs'. ok (n ∷ accs')) decoded,
      trim-next n (pads rest) accs none_left
          ∙ (ap (λ t. big_endian_5 n ++ t) trimmed
              ∙ ap (λ t. t ++ rest) (big_endian_5-five_bytes a b c d e ha hb hc hd he)),
      λ h. cc,
    )

pub b32decode-body :
    (raw : List ℕ) → All IsByte raw → b32decode (body raw ++ padding (pads raw)) ≡ ok raw
unfolding b32decode
b32decode-body raw y =
    let (accs, decoded, trimmed, none_left) = quanta raw y in
    let (missing, whole, known) = length-body raw in
    let size : length (body raw ++ padding (pads raw)) ≡ length (body raw) + pads raw = omega (
      arith,
      length-append (body raw) (padding (pads raw)),
      length-replicate {A = ℕ} (pads raw) b'=',
    ) in
    let left : length (body raw) + pads raw - length (body raw) ≡ pads raw = omega arith in
    let aligned : (((length (body raw) + pads raw) % 8) == 0) ≡ true = ground (arith, whole) in
    rw (
      rstrip-digits (body raw) (pads raw) (body-All raw),
      all_ascii-digits (body raw) (pads raw) (body-All raw),
      size,
      aligned,
      left,
      decoded,
      known,
      trimmed,
    )
