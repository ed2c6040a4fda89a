-- ===== src/DmsPolicy/Shares.antt =====
-- The layout of the section of key shares, and its shares and hint against it.
use limnifs_py.Prelude.{
  ℕ, ◌^◌, ◌≤◌, ◌<◌, ◌≡◌, ◌≢◌, refl, sym, ap, ◌∙◌, false, Option, none, some, List, [], ◌∷◌, ◌++◌,
  map, append-nil, arith, length, is_empty, flat_map, All, Distinct, contains→NotIn, NotIn→contains,
  ==_iff, ltb, ◌==◌, text_eq,
}
use limnifs_py.Wire.{le_bytes}
use limnifs_py.Utf8.{encode, decode_text}
use limnifs_py.Utf8.Laws.{IsScalar, decode_text_lem, decode_text_ok, decode_text_err}
use limnifs_py.Cursor.Reads.{
  Reads, Reads-pure, Reads-bind, Reads-cast, Reads-raise_if, Reads-lift, Reads-read,
  Reads-read_u32_le,
}
use limnifs_py.Cursor.Consumes.{
  Consumes, Consumes-pure, Consumes-bind, Consumes-if, Consumes-raise, Consumes-raise_if,
  Consumes-lift, Consumes-read, Consumes-read_u32_le,
}
use limnifs_py.Cursor.Loop.{Unseen}
use limnifs_py.DmsPolicy.{
  ShareRecord, DmsPolicy, parse_share, parse_hint, dms_policy_section_version, dms_scheme_shamir,
}

-- The custodian's name and the share, each with its length.
abbrev pub share_bytes : ShareRecord → List ℕ
share_bytes s =
    le_bytes 4 (length (encode s.custodian_id))
    ++ (encode s.custodian_id ++ (le_bytes 4 (length s.share_data) ++ s.share_data))

-- The bytes of the hint; a hint that is absent has none.
abbrev pub hint_bytes : Option (List ℕ) → List ℕ
hint_bytes none = []
hint_bytes (some hint) = encode hint

-- A version byte, the scheme, the threshold, the number of shares twice, the shares, the hint.
abbrev pub dms_policy_bytes : DmsPolicy → List ℕ
dms_policy_bytes p =
    dms_policy_section_version
    ∷ dms_scheme_shamir
    ∷ p.k
    ∷ p.n
    ∷ (le_bytes 4 (length p.shares)
        ++ (flat_map share_bytes p.shares
            ++ (le_bytes 4 (length (hint_bytes p.reconstruction_hint))
                ++ hint_bytes p.reconstruction_hint)))

pub record IsShare (max_data max_hint : ℕ) (s : ShareRecord) : Type 0 where
  pub text : All IsScalar s.custodian_id
  pub named : is_empty s.custodian_id ≡ false
  pub name_below : length (encode s.custodian_id) ≤ max_hint
  pub name_fits : length (encode s.custodian_id) < 2 ^ 32
  pub present : length s.share_data ≢ 0
  pub data_below : length s.share_data ≤ max_data
  pub data_fits : length s.share_data < 2 ^ 32

-- A hint that is there is not empty.
abbrev pub IsHint : ℕ → Option (List ℕ) → Type 0
IsHint max none = Unit
IsHint max (some hint) =
    All IsScalar hint
    × (length (encode hint) ≢ 0)
    × (length (encode hint) ≤ max)
    × (length (encode hint) < 2 ^ 32)

abbrev pub share_key : ShareRecord → List ℕ
share_key s = s.custodian_id

-- `k` of `n` shares suffice, and there are `n`, each with a custodian of its own.
pub record IsPolicy (max_data max_hint : ℕ) (p : DmsPolicy) : Type 0 where
  pub some_needed : 1 ≤ p.k
  pub enough : p.k ≤ p.n
  pub at_most_255 : p.n < 256
  pub count : length p.shares ≡ p.n
  pub valid : All (IsShare max_data max_hint) p.shares
  pub distinct : Distinct (map share_key p.shares)
  pub hint : IsHint max_hint p.reconstruction_hint

pub IsHint-Reads :
    (max : ℕ) (o : Option (List ℕ))
    → IsHint max o
    → Reads (parse_hint max (length (hint_bytes o))) (hint_bytes o) o
unfolding parse_hint
IsHint-Reads max none h = Reads-pure none
IsHint-Reads max (some hint) (text, some_bytes, below, fits) =
    let present : (length (encode hint) == 0) ≡ false = ground (arith, some_bytes) in
    let within : ltb max (length (encode hint)) ≡ false = ground (arith, below) in
    rw (present, within)
      (Reads-cast (sym (append-nil (encode hint))) (
        Reads-bind _ (Reads-read _ (encode hint) refl)
          (Reads-bind _ (Reads-lift (decode_text_lem hint text)) (Reads-pure (some hint)))))

pub hint_bytes-lt : (max : ℕ) (o : Option (List ℕ)) → IsHint max o → length (hint_bytes o) < 2 ^ 32
hint_bytes-lt max none h = omega arith
hint_bytes-lt max (some hint) h = h.3

pub IsHint-Consumes :
    (max len : ℕ)
    → len < 2 ^ 32
    → Consumes
        (parse_hint max len)
        (λ bs o. (bs ≡ hint_bytes o) × (len ≡ length (hint_bytes o)) × IsHint max o)
unfolding parse_hint
IsHint-Consumes max len fits =
    Consumes-if (len == 0) (λ absent. Consumes-pure none (refl, (==_iff len 0).0 absent, tt))
      λ present.
        Consumes-if (ltb max len) (λ above. Consumes-raise _ tt)
          λ below. Consumes-bind (Consumes-read len) λ bs raw q.
            Consumes-lift (decode_text raw) (decode_text_err raw) λ hint decoded.
              let (layout, text) = decode_text_ok raw hint decoded in
              let size : len ≡ length (encode hint) = sym (q.1) ∙ ap length layout in
              Consumes-pure (some hint) (
                append-nil bs ∙ (q.0 ∙ layout),
                size,
                (text, ground arith, ground arith, omega (arith, fits, size)),
              )

module _ (max_data max_hint : ℕ) where
  pub IsShare-Reads :
      (seen : List (List ℕ)) (s : ShareRecord)
      → Unseen (IsShare max_data max_hint) share_key seen s
      → Reads (parse_share max_data max_hint seen) (share_bytes s) s
  unfolding parse_share
  IsShare-Reads seen s (v, unseen) = Reads-bind _ (Reads-read_u32_le _ v.name_fits) (
      Reads-bind _ (Reads-raise_if _ (ground (arith, v.name_below))) (
        Reads-bind _ (Reads-read _ (encode s.custodian_id) refl) (
          Reads-bind _ (Reads-lift (decode_text_lem s.custodian_id v.text)) (
            Reads-bind _ (Reads-raise_if _ v.named) (
              Reads-bind _ (Reads-raise_if _ (NotIn→contains s.custodian_id seen unseen)) (
                Reads-bind _ (Reads-read_u32_le _ v.data_fits) (
                  Reads-bind _ (Reads-raise_if _ (ground (arith, v.present))) (
                    Reads-bind _ (Reads-raise_if _ (ground (arith, v.data_below))) (
                      Reads-cast (sym (append-nil s.share_data))
                        (Reads-bind _ (Reads-read _ s.share_data refl) (Reads-pure s)))))))))))

  pub IsShare-Consumes :
      (seen : List (List ℕ))
      → Consumes
          (parse_share max_data max_hint seen)
          (λ bs s. (bs ≡ share_bytes s) × Unseen (IsShare max_data max_hint) share_key seen s)
  unfolding parse_share
  IsShare-Consumes seen = Consumes-bind Consumes-read_u32_le λ bs cid_len q.
      Consumes-raise_if _ _ tt λ name_below. Consumes-bind (Consumes-read cid_len) λ bs1 raw q1.
        Consumes-lift (decode_text raw) (decode_text_err raw) λ cid decoded.
          let (layout, text) = decode_text_ok raw cid decoded in
          let size : cid_len ≡ length (encode cid) = sym (q1.1) ∙ ap length layout in
          Consumes-raise_if _ _ tt λ named. Consumes-raise_if _ _ tt λ unseen.
            Consumes-bind Consumes-read_u32_le λ bs2 sd_len q2. Consumes-raise_if _ _ tt λ present.
              Consumes-raise_if _ _ tt λ data_below.
                Consumes-bind (Consumes-read sd_len) λ bs3 share_data q3. Consumes-pure _ (
                  simp (append-nil, q.0, q1.0, layout, size, q2.0, q3.0, sym (q3.1)),
                  (
                    record {
                      text = text;
                      named = named;
                      name_below = ground arith;
                      name_fits = omega (arith, q.1, size);
                      present = ground (arith, q3.1);
                      data_below = ground (arith, q3.1);
                      data_fits = omega (arith, q2.1, q3.1);
                    },
                    contains→NotIn cid seen unseen,
                  ),
                )
