-- ===== src/DmsPolicy/Format.antt =====
-- The section of key shares against its layout.
use limnifs_py.Prelude.{ℕ, ◌≡◌, refl, sym, ◌∙◌, [], append-nil, arith, ne-guard, text_eq}
use limnifs_py.Cursor.Reads.{
  Reads, Reads-pure, Reads-bind, Reads-cast, Reads-raise_if, Reads-read_u8, Reads-read_u32_le,
}
use limnifs_py.Cursor.Consumes.{
  Consumes, Consumes-pure, Consumes-bind, Consumes-raise_if, Consumes-read_u8, Consumes-read_u32_le,
}
use limnifs_py.Cursor.Decodes.{Decodes}
use limnifs_py.Cursor.Loop.{Unseen, EachFrom-Distinct, Reads-for_range, Consumes-for_range}
use limnifs_py.DmsPolicy.{
  DmsPolicy, parse_dms_policy_section, dms_policy_section_version, dms_scheme_shamir,
}
use limnifs_py.DmsPolicy.Shares.{
  share_bytes, dms_policy_bytes, IsShare, share_key, IsPolicy, IsHint-Reads, hint_bytes-lt,
  IsHint-Consumes, IsShare-Reads, IsShare-Consumes,
}

module _ (max_data max_hint : ℕ) where
  parse-Reads :
      (p : DmsPolicy)
      → IsPolicy max_data max_hint p
      → Reads (parse_dms_policy_section max_data max_hint) (dms_policy_bytes p) p
  unfolding parse_dms_policy_section
  parse-Reads p v = Reads-bind _ (Reads-read_u8 dms_policy_section_version (omega arith)) (
      Reads-bind _ (Reads-raise_if _ refl) (
        Reads-bind _ (Reads-read_u8 dms_scheme_shamir (omega arith)) (
          Reads-bind _ (Reads-raise_if _ refl) (
            Reads-bind _ (Reads-raise_if _ refl) (
              Reads-bind _ (Reads-read_u8 p.k (omega (arith, v.enough, v.at_most_255))) (
                Reads-bind _ (Reads-read_u8 p.n v.at_most_255) (
                  Reads-bind _ (Reads-raise_if _ (ground (arith, v.some_needed))) (
                    Reads-bind _ (Reads-raise_if _ (ground (arith, v.some_needed, v.enough))) (
                      Reads-bind _ (Reads-raise_if _ (ground (arith, v.enough))) (
                        Reads-bind _ (Reads-read_u32_le _ (omega (arith, v.count, v.at_most_255))) (
                          Reads-bind _ (Reads-raise_if _ (ground (arith, v.count))) (
                            Reads-bind _
                              (Reads-for_range _ _ share_bytes
                                (Unseen (IsShare max_data max_hint) share_key)
                                (IsShare-Reads max_data max_hint) [] p.shares
                                ((EachFrom-Distinct (IsShare max_data max_hint) share_key
                                    p.shares).1
                                  (v.valid, v.distinct)))
                              (Reads-bind _
                                (Reads-read_u32_le _
                                  (hint_bytes-lt max_hint p.reconstruction_hint v.hint))
                                (Reads-cast (sym (append-nil _)) (
                                  Reads-bind _ (IsHint-Reads max_hint p.reconstruction_hint v.hint)
                                    (Reads-pure p))))))))))))))))

  parse-Consumes :
      Consumes
        (parse_dms_policy_section max_data max_hint)
        (λ bs p. (bs ≡ dms_policy_bytes p) × IsPolicy max_data max_hint p)
  unfolding parse_dms_policy_section
  parse-Consumes = Consumes-bind Consumes-read_u8 λ bs version q.
      Consumes-raise_if _ _ tt λ supported. Consumes-bind Consumes-read_u8 λ bs1 scheme q1.
        Consumes-raise_if _ _ tt λ plain. Consumes-raise_if _ _ tt λ shamir.
          Consumes-bind Consumes-read_u8 λ bs2 k q2. Consumes-bind Consumes-read_u8 λ bs3 n q3.
            Consumes-raise_if _ _ tt λ some_needed. Consumes-raise_if _ _ tt λ some_shares.
              Consumes-raise_if _ _ tt λ enough. Consumes-bind Consumes-read_u32_le λ bs4 count q4.
                Consumes-raise_if _ _ tt λ agrees.
                  Consumes-bind
                    (Consumes-for_range _ _ share_bytes
                      (Unseen (IsShare max_data max_hint) share_key)
                      (IsShare-Consumes max_data max_hint) count [])
                    λ bs5 shares q5. Consumes-bind Consumes-read_u32_le λ bs6 len q6.
                      Consumes-bind (IsHint-Consumes max_hint len q6.1) λ bs7 hint q7.
                        let (valid, distinct) =
                          (EachFrom-Distinct (IsShare max_data max_hint) share_key shares).0 q5.2 in
                        Consumes-pure _ (
                          simp (
                            append-nil,
                            q.0,
                            q1.0,
                            q2.0,
                            q3.0,
                            q4.0,
                            q5.0,
                            q5.1,
                            q6.0,
                            q7.0,
                            q7.1,
                            ne-guard _ _ supported,
                            ne-guard _ _ shamir,
                          ),
                          record {
                            some_needed = ground arith;
                            enough = ground arith;
                            at_most_255 = q3.1;
                            count = q5.1 ∙ ne-guard _ _ agrees;
                            valid = valid;
                            distinct = distinct;
                            hint = q7.2;
                          },
                        )

-- For both ceilings, the parser of the section of key shares inverts the layout on the policies
-- with a threshold from 1 to the number of shares, at most 255 shares of distinct custodians, each
-- share valid, and a valid hint or none; it accepts nothing else, raises a TruncatedError on every
-- input that ends inside such a section, and raises only ParseErrors. A valid share has a
-- custodian, a text without surrogates that is not empty and whose UTF-8 bytes are within the
-- ceiling of the hint and fewer than 2^32, and data that are not empty, within their ceiling and
-- shorter than 2^32. A valid hint is such a text.
pub parse_dms_policy_section-Decodes :
    (max_data max_hint : ℕ)
    → Decodes
        (parse_dms_policy_section max_data max_hint)
        dms_policy_bytes
        (IsPolicy max_data max_hint)
parse_dms_policy_section-Decodes max_data max_hint = record {
  reads = parse-Reads max_data max_hint;
  consumes = parse-Consumes max_data max_hint;
}
