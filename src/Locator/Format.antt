-- ===== src/Locator/Format.antt =====
-- The locator entry against its layout.
use limnifs_py.Prelude.{
  is_empty, ℕ, ◌*◌, ◌^◌, ◌≤◌, ◌<◌, ◌≡◌, ◌≢◌, refl, sym, ap, ◌∙◌, subst, inl, inr, true, false,
  Option, none, some, List, [], ◌∷◌, ◌++◌, append-nil, arith, length, length-append, flat_map,
  length-flat_map-ge, All, ◌==◌, Bool-cases,
}
use limnifs_py.Errors.{
  Error, Result, ok, err, truncated, bad_magic, value_error, struct_error, overflow_error,
  out_of_fuel, corrupt, unsupported, IsParseError, IsParseError-eq,
}
use limnifs_py.Wire.{le_bytes, length-le_bytes}
use limnifs_py.Utf8.{encode, decode_text}
use limnifs_py.Utf8.Laws.{IsScalar, decode_text_lem, decode_text_ok, decode_text_err}
use limnifs_py.Cursor.{Cursor, Parser}
use limnifs_py.Cursor.Reads.{
  Reads, Reads-bind, Reads-cast, Reads-raise_if, Reads-lift, Reads-check_remaining, Reads-read,
  Reads-read_u32_le,
}
use limnifs_py.Cursor.Consumes.{
  Consumes, Outcome, accepted, rejected, Consumes-bind, Consumes-raise_if, Consumes-lift,
  Consumes-lift_last, Consumes-check_remaining, Consumes-read, Consumes-read_u32_le,
}
use limnifs_py.Cursor.Decodes.{Decodes}
use limnifs_py.Cursor.Loop.{Reads-for_each, Consumes-for_each}
use limnifs_py.Locator.{
  LocatorEntry, CharClasses, check_split, split_colon, before_colon, annotated, annotate,
  is_valid_scheme, check_parts, check_uri, parse_locator_entry, parse_locator_entries,
}

-- The length of the URI's bytes, and the bytes.
abbrev pub locator_bytes : LocatorEntry → List ℕ
locator_bytes e = le_bytes 4 (length (encode e.uri)) ++ encode e.uri

-- A scheme, a colon and something behind it; the first colon ends the scheme.
abbrev pub IsUri : CharClasses → List ℕ → Type 0
IsUri chars uri =
    (front : List ℕ) × (back : List ℕ) × (uri ≡ front ++ (b':' ∷ back))
    × All (λ c. c ≢ b':') front
    × (is_valid_scheme chars front ≡ true)
    × (is_empty back ≡ false)

pub record IsLocator (chars : CharClasses) (max : ℕ) (e : LocatorEntry) : Type 0 where
  pub text : All IsScalar e.uri
  pub enough : 4 ≤ length (encode e.uri)
  pub below_ceiling : length (encode e.uri) ≤ max
  pub fits : length (encode e.uri) < 2 ^ 32
  pub uri : IsUri chars e.uri

split_colon_lem :
    (front back : List ℕ)
    → All (λ c. c ≢ b':') front
    → split_colon (front ++ (b':' ∷ back)) ≡ some (front, back)
unfolding split_colon
split_colon_lem [] back h = refl
split_colon_lem (c ∷ front) back h = ground (arith, h.0, split_colon_lem front back h.1)

-- What a split says of the text.
abbrev IsSplit : List ℕ → Option (List ℕ × List ℕ) → Type 0
IsSplit uri none = Unit
IsSplit uri (some (front, back)) = (uri ≡ front ++ (b':' ∷ back)) × All (λ c. c ≢ b':') front

before_colon-IsSplit :
    (c : ℕ) (uri : List ℕ) (o : Option (List ℕ × List ℕ))
    → c ≢ b':'
    → IsSplit uri o
    → IsSplit (c ∷ uri) (before_colon c o)
before_colon-IsSplit c uri none other h = tt
before_colon-IsSplit c uri (some (front, back)) other (e, h) = (ap (λ t. c ∷ t) e, (other, h))

split_colon-IsSplit : (uri : List ℕ) → IsSplit uri (split_colon uri)
unfolding split_colon
split_colon-IsSplit [] = tt
split_colon-IsSplit (c ∷ uri) = elim (Bool-cases (c == b':')) [
  | inl colon ↦ let same : c ≡ b':' = ground arith in rw colon (ap (λ x. x ∷ uri) same, tt)
  | inr other ↦
      rw other
        (before_colon-IsSplit c uri (split_colon uri) (ground arith) (split_colon-IsSplit uri))
]

module _ (chars : CharClasses) where
  front-nonempty : (front : List ℕ) → is_valid_scheme chars front ≡ true → is_empty front ≡ false
  unfolding is_valid_scheme
  front-nonempty [] h = sym h
  front-nonempty (c ∷ front) h = refl

  check_uri_lem : (e : LocatorEntry) → IsUri chars e.uri → check_uri chars e.uri ≡ ok e
  unfolding check_uri check_parts
  check_uri_lem e (front, back, text, no_colon, valid, more) =
      let parts : split_colon e.uri ≡ some (front, back) =
        ap split_colon text ∙ split_colon_lem front back no_colon in
      rw (parts, front-nonempty front valid, valid, more) refl

  check_split_ok :
      (uri : List ℕ) (o : Option (List ℕ × List ℕ)) (e : LocatorEntry)
      → IsSplit uri o
      → check_split chars uri o ≡ ok e
      → (e.uri ≡ uri) × IsUri chars uri
  unfolding check_parts
  check_split_ok uri none e split h = cc
  check_split_ok uri (some (front, back)) e split h =
      (ground arith, (front, back, split.0, split.1, ground arith, ground arith))

  check_uri_ok :
      (uri : List ℕ) (e : LocatorEntry)
      → check_uri chars uri ≡ ok e
      → (e.uri ≡ uri) × IsUri chars uri
  unfolding check_uri
  check_uri_ok uri e h = check_split_ok uri (split_colon uri) e (split_colon-IsSplit uri) h

  check_split_err :
      (uri : List ℕ) (o : Option (List ℕ × List ℕ)) (e : Error)
      → check_split chars uri o ≡ err e
      → IsParseError e
  unfolding check_parts
  check_split_err uri none e h = IsParseError-eq {e' = corrupt} (ground arith) tt
  check_split_err uri (some (front, back)) e h = IsParseError-eq {e' = corrupt} (ground arith) tt

  check_uri_err : (uri : List ℕ) (e : Error) → check_uri chars uri ≡ err e → IsParseError e
  unfolding check_uri
  check_uri_err uri = check_split_err uri (split_colon uri)

module _ {ℓ κ} {A : Type ℓ} {Q : List ℕ → A → Type κ} where
  Outcome-annotated :
      {before rest : List ℕ} {r : Result (A × Cursor)}
      → Outcome Q before rest r
      → Outcome Q before rest (annotated r)
  Outcome-annotated (accepted bs after e q) = accepted bs after e q
  Outcome-annotated (rejected {e} p) = annotated_error e p
    where
      annotated_error :
          {before rest : List ℕ} (e : Error)
          → IsParseError e
          → Outcome Q before rest (annotated (err e))
      annotated_error unsupported p = rejected tt
      annotated_error corrupt p = rejected p
      annotated_error (truncated have need) p = rejected p
      annotated_error (bad_magic found expected) p = rejected p
      annotated_error value_error p = absurd p
      annotated_error struct_error p = absurd p
      annotated_error overflow_error p = absurd p
      annotated_error out_of_fuel p = absurd p

  Consumes-annotate : {p : Parser A} → Consumes p Q → Consumes (annotate p) Q
  unfolding annotate
  Consumes-annotate s = record { run = λ before rest h. Outcome-annotated (s.run before rest h) }

Reads-annotate {ℓ} :
    {A : Type ℓ} {p : Parser A} {bs : List ℕ} {a : A} → Reads p bs a → Reads (annotate p) bs a
unfolding annotate
Reads-annotate r = record {
  whole = λ before rest. ap annotated (r.whole before rest);
  cut = λ before front back x e.
      let (have, need, h) = r.cut before front back x e in (have, need, ap annotated h);
}

module _ (chars : CharClasses) (max : ℕ) where
  parse-Reads :
      (e : LocatorEntry)
      → IsLocator chars max e
      → Reads (parse_locator_entry chars max) (locator_bytes e) e
  unfolding parse_locator_entry
  parse-Reads e v = Reads-bind _ (Reads-read_u32_le _ v.fits) (
      Reads-bind _ (Reads-raise_if _ (ground (arith, v.enough))) (
        Reads-bind _ (Reads-raise_if _ (ground (arith, v.below_ceiling))) (
          Reads-cast (sym (append-nil (encode e.uri))) (
            Reads-bind _ (Reads-read _ (encode e.uri) refl) (
              Reads-bind _ (Reads-lift (decode_text_lem e.uri v.text))
                (Reads-lift (check_uri_lem chars e v.uri)))))))

  parse-Consumes :
      Consumes
        (parse_locator_entry chars max)
        (λ bs e. (bs ≡ locator_bytes e) × IsLocator chars max e)
  unfolding parse_locator_entry
  parse-Consumes = Consumes-bind Consumes-read_u32_le λ bs raw_length q.
      Consumes-raise_if _ _ tt λ enough. Consumes-raise_if _ _ tt λ below_ceiling.
        Consumes-bind (Consumes-read raw_length) λ bs1 raw q1.
          Consumes-lift (decode_text raw) (decode_text_err raw) λ uri decoded.
            let (layout, text) = decode_text_ok raw uri decoded in
            Consumes-lift_last (check_uri chars uri) (check_uri_err chars uri) λ e checked.
              let (same, valid) = check_uri_ok chars uri e checked in
              let whole : raw ≡ encode e.uri = layout ∙ sym (ap encode same) in
              let size : raw_length ≡ length (encode e.uri) = sym (q1.1) ∙ ap length whole in
              (
                simp (append-nil, q.0, q1.0, whole, size),
                record {
                  text = subst (All IsScalar) (sym same) text;
                  enough = ground arith;
                  below_ceiling = ground arith;
                  fits = omega (arith, q.1, size);
                  uri = subst (IsUri chars) (sym same) valid;
                },
              )

-- The least room that an entry takes, as the guard of the list has it.
entries_size :
    (chars : CharClasses) (max : ℕ) (entries : List LocatorEntry)
    → All (IsLocator chars max) entries
    → length entries * 8 ≤ length (flat_map locator_bytes entries)
entries_size chars max = length-flat_map-ge locator_bytes 8 (IsLocator chars max) λ e v. omega (
  arith,
  v.enough,
  length-append (le_bytes 4 (length (encode e.uri))) (encode e.uri),
  length-le_bytes 4 (length (encode e.uri)),
)

module _ (chars : CharClasses) (max : ℕ) where
  pub parse_locator_entries-Reads :
      (entries : List LocatorEntry)
      → All (IsLocator chars max) entries
      → Reads
          (parse_locator_entries chars (length entries) max)
          (flat_map locator_bytes entries)
          entries
  unfolding parse_locator_entries
  parse_locator_entries-Reads entries valid =
      Reads-check_remaining (length entries * 8) _ (entries_size chars max entries valid) (
        Reads-for_each (IsLocator chars max) _ locator_bytes
          (λ e v. Reads-annotate (parse-Reads chars max e v)) entries valid)

  pub parse_locator_entries-Consumes :
      (count : ℕ)
      → Consumes (parse_locator_entries chars count max) (λ bs entries.
        (bs ≡ flat_map locator_bytes entries)
        × (length entries ≡ count)
        × All (IsLocator chars max) entries)
  unfolding parse_locator_entries
  parse_locator_entries-Consumes count = Consumes-check_remaining _ (
      Consumes-for_each (IsLocator chars max) _ locator_bytes
        (Consumes-annotate (parse-Consumes chars max)) count)

-- For all character classes and every ceiling, the parser of a locator entry inverts the layout on
-- the texts without surrogates that are a valid scheme, the first colon and something behind it,
-- and whose UTF-8 bytes are at least 4, at most the ceiling and fewer than 2^32; it accepts
-- nothing else, raises a TruncatedError on every input that ends inside such an entry, and raises
-- only ParseErrors.
pub parse_locator_entry-Decodes :
    (chars : CharClasses) (max_uri_bytes : ℕ)
    → Decodes
        (parse_locator_entry chars max_uri_bytes)
        locator_bytes
        (IsLocator chars max_uri_bytes)
parse_locator_entry-Decodes chars max = record {
  reads = parse-Reads chars max;
  consumes = parse-Consumes chars max;
}
