-- ===== src/Utf8/Laws.antt =====
-- Encoding and strict decoding are inverse to one another.
use native.Mathlib.Decide.{dec_lt}
use limnifs_py.Prelude.{
  ℕ, zero, suc, ◌+◌, ◌-◌, ◌*◌, ◌≤◌, ◌<◌, ◌≡◌, refl, sym, subst, ap, ◌∙◌, ◌⊎◌, inl, inr, Option,
  none, some, List, [], ◌∷◌, ◌++◌, arith, length, length-append, All, ltb, leb, ◌==◌, ◌&&◌,
  if◌then◌else◌, Bool-cases, nat_eq,
}
use limnifs_py.Errors.{Error, ok, err, corrupt, IsParseError, IsParseError-eq}
use limnifs_py.Utf8.{
  decode_text, encode_char, encode, ready, inside, step, push, decode_from, decode,
}

-- A code point that is no surrogate.
abbrev pub IsScalar : ℕ → Type 0
IsScalar c = (c < 0xd800) ⊎ ((0xe000 ≤ c) × (c < 0x110000))

char-decode :
    (c : ℕ) (bs : List ℕ)
    → IsScalar c
    → decode_from ready (encode_char c ++ bs) ≡ push c (decode_from ready bs)
unfolding encode_char decode_from step
char-decode c bs h = ground arith

-- A text without surrogates decodes from its encoding.
pub decode-encode : (text : List ℕ) → All IsScalar text → decode (encode text) ≡ some text
unfolding decode
decode-encode [] h = refl
decode-encode (c ∷ text) h = char-decode c (encode text) h.0 ∙ ap (push c) (decode-encode text h.1)

push-inv :
    (c : ℕ) (o : Option (List ℕ)) {text : List ℕ}
    → push c o ≡ some text
    → (rest : List ℕ) × (o ≡ some rest) × (text ≡ c ∷ rest)
push-inv c none h = cc
push-inv c (some cs) h = (cs, refl, ground arith)

-- What a successful decoding from inside a character says of the next byte.
last-inv :
    (bits lowest past : ℕ) (bs : List ℕ) {text : List ℕ}
    → decode_from (inside 0 bits lowest past) bs ≡ some text
    → (b : ℕ) × (after : List ℕ) × (rest : List ℕ) × (bs ≡ b ∷ after)
      × (lowest ≤ b)
      × (b < past)
      × (decode_from ready after ≡ some rest)
      × (text ≡ (bits * 64 + (b - 0x80)) ∷ rest)
unfolding decode_from step
last-inv bits lowest past [] h = cc
last-inv bits lowest past (b ∷ bs) {text = text} h =
    elim (Bool-cases (leb lowest b && ltb b past)) [
      | inl e ↦
          let (rest, p, q) =
            push-inv (bits * 64 + (b - 0x80)) (decode_from ready bs) {text = text} (ground arith) in
          (b, bs, rest, refl, ground arith, ground arith, p, q)
      | inr e ↦ ground arith
    ]

next-inv :
    (more bits lowest past : ℕ) (bs : List ℕ) {text : List ℕ}
    → decode_from (inside (suc more) bits lowest past) bs ≡ some text
    → (b : ℕ) × (after : List ℕ) × (bs ≡ b ∷ after)
      × (lowest ≤ b)
      × (b < past)
      × (decode_from (inside more (bits * 64 + (b - 0x80)) 0x80 0xc0) after ≡ some text)
unfolding decode_from step
next-inv more bits lowest past [] h = cc
next-inv more bits lowest past (b ∷ bs) h = elim (Bool-cases (leb lowest b && ltb b past)) [
  | inl e ↦ (b, bs, refl, ground arith, ground arith, ground arith)
  | inr e ↦ ground arith
]

-- The first character of a text that decodes.
abbrev Char : List ℕ → List ℕ → Type 0
Char bs text =
    (c : ℕ) × (after : List ℕ) × (rest : List ℕ) × IsScalar c
    × (bs ≡ encode_char c ++ after)
    × (decode_from ready after ≡ some rest)
    × (text ≡ c ∷ rest)

two_bytes :
    (a b : ℕ)
    → 0xc2 ≤ a
    → a < 0xe0
    → 0x80 ≤ b
    → b < 0xc0
    → IsScalar ((a - 0xc0) * 64 + (b - 0x80))
      × (encode_char ((a - 0xc0) * 64 + (b - 0x80)) ≡ a ∷ b ∷ [])
unfolding encode_char
two_bytes a b h1 h2 h3 h4 = (inl (omega arith), ground arith)

low3 : ℕ → ℕ
low3 a = if a == 0xe0 then 0xa0 else 0x80

past3 : ℕ → ℕ
past3 a = if a == 0xed then 0xa0 else 0xc0

three_bytes :
    (a b c : ℕ)
    → 0xe0 ≤ a
    → a < 0xf0
    → low3 a ≤ b
    → b < past3 a
    → 0x80 ≤ c
    → c < 0xc0
    → IsScalar (((a - 0xe0) * 64 + (b - 0x80)) * 64 + (c - 0x80))
      × (encode_char (((a - 0xe0) * 64 + (b - 0x80)) * 64 + (c - 0x80)) ≡ a ∷ b ∷ c ∷ [])
unfolding encode_char low3 past3
three_bytes a b c h1 h2 h3 h4 h5 h6 = ground arith

low4 : ℕ → ℕ
low4 a = if a == 0xf0 then 0x90 else 0x80

past4 : ℕ → ℕ
past4 a = if a == 0xf4 then 0x90 else 0xc0

four_bytes :
    (a b c d : ℕ)
    → 0xf0 ≤ a
    → a < 0xf5
    → low4 a ≤ b
    → b < past4 a
    → 0x80 ≤ c
    → c < 0xc0
    → 0x80 ≤ d
    → d < 0xc0
    → IsScalar ((((a - 0xf0) * 64 + (b - 0x80)) * 64 + (c - 0x80)) * 64 + (d - 0x80))
      × (encode_char ((((a - 0xf0) * 64 + (b - 0x80)) * 64 + (c - 0x80)) * 64 + (d - 0x80))
          ≡ a ∷ b ∷ c ∷ d ∷ [])
unfolding encode_char low4 past4
four_bytes a b c d h1 h2 h3 h4 h5 h6 h7 h8 = ground arith

one_byte :
    (a : ℕ) (bs : List ℕ) {text : List ℕ}
    → a < 0x80
    → decode_from ready (a ∷ bs) ≡ some text
    → Char (a ∷ bs) text
one_byte a bs {text = text} p h =
    let (rest, d, t) =
      push-inv a (decode_from ready bs) {text = text} (unfold decode_from step in ground arith) in
    (a, bs, rest, inl (omega arith), unfold encode_char in ground arith, d, t)

first-inv :
    (a : ℕ) (bs : List ℕ) {text : List ℕ}
    → decode_from ready (a ∷ bs) ≡ some text
    → Char (a ∷ bs) text
first-inv a bs {text = text} h = elim (dec_lt a 0x80) [
  | yes p ↦ one_byte a bs p h
  | no p ↦ elim (dec_lt a 0xc2) [
    | yes q ↦ unfold decode_from step in ground arith
    | no q ↦ elim (dec_lt a 0xe0) [
      | yes r ↦
          let (b, after, rest, e, l, u, d, t) =
            last-inv (a - 0xc0) 0x80 0xc0 bs {text = text}
              (unfold decode_from step in ground arith) in
          let (scalar, bytes) = two_bytes a b (omega arith) r l u in
          (_, after, rest, scalar, ap (◌∷◌ a) e ∙ simp bytes, d, t)
      | no r ↦ elim (dec_lt a 0xf0) [
        | yes s ↦
            let (b, bs1, e, l, u, h1) =
              next-inv 0 (a - 0xe0) (low3 a) (past3 a) bs {text = text}
                (unfold decode_from step low3 past3 in ground arith) in
            let (c, after, rest, e1, l1, u1, d, t) = last-inv _ 0x80 0xc0 bs1 h1 in
            let (scalar, bytes) = three_bytes a b c (omega arith) s l u l1 u1 in
            (_, after, rest, scalar, ap (◌∷◌ a) (e ∙ ap (◌∷◌ b) e1) ∙ simp bytes, d, t)
        | no s ↦ elim (dec_lt a 0xf5) [
          | yes v ↦
              let (b, bs1, e, l, u, h1) =
                next-inv 1 (a - 0xf0) (low4 a) (past4 a) bs {text = text}
                  (unfold decode_from step low4 past4 in ground arith) in
              let (c, bs2, e1, l1, u1, h2) = next-inv 0 _ 0x80 0xc0 bs1 h1 in
              let (d, after, rest, e2, l2, u2, dd, t) = last-inv _ 0x80 0xc0 bs2 h2 in
              let (scalar, bytes) = four_bytes a b c d (omega arith) v l u l1 u1 l2 u2 in
              (
                _,
                after,
                rest,
                scalar,
                ap (◌∷◌ a) (e ∙ ap (◌∷◌ b) (e1 ∙ ap (◌∷◌ c) e2)) ∙ simp bytes,
                dd,
                t,
              )
          | no v ↦ unfold decode_from step in ground arith
        ]
      ]
    ]
  ]
]

length-encode_char : (c : ℕ) → 0 < length (encode_char c)
unfolding encode_char
length-encode_char c = ground arith

decode-inv :
    (fuel : ℕ) (bs text : List ℕ)
    → length bs ≤ fuel
    → decode_from ready bs ≡ some text
    → (bs ≡ encode text) × All IsScalar text
decode-inv fuel [] text le h = unfold decode_from in ground arith
decode-inv zero (a ∷ bs) text le h = absurd (omega (arith, le))
decode-inv (suc fuel) (a ∷ bs) text le h =
    let (c, after, rest, scalar, e, d, t) = first-inv a bs h in
    let (q, all) =
      decode-inv fuel after rest
        (omega (arith, le, length-encode_char c, ap length e, length-append (encode_char c) after))
        d in
    subst (λ full. (a ∷ bs ≡ encode full) × All IsScalar full) (sym t)
      (e ∙ ap (λ tail. encode_char c ++ tail) q, (scalar, all))

-- What decodes is the encoding of a text without surrogates, the decoded one.
pub encode-decode :
    (bs text : List ℕ) → decode bs ≡ some text → (bs ≡ encode text) × All IsScalar text
unfolding decode
encode-decode bs text = decode-inv (length bs) bs text (omega arith)

pub decode_text_lem : (text : List ℕ) → All IsScalar text → decode_text (encode text) ≡ ok text
unfolding decode_text
decode_text_lem text h = ground (arith, decode-encode text h)

pub decode_text_ok :
    (raw text : List ℕ) → decode_text raw ≡ ok text → (raw ≡ encode text) × All IsScalar text
unfolding decode_text
decode_text_ok raw text h = encode-decode raw text (ground arith)

pub decode_text_err : (raw : List ℕ) (e : Error) → decode_text raw ≡ err e → IsParseError e
unfolding decode_text
decode_text_err raw e h = IsParseError-eq {e' = corrupt} (ground arith) tt
