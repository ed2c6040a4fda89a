-- ===== src/DmsPolicy/Tests.antt =====
-- A policy of two shares, one of which is enough.
use limnifs_py.Prelude.{refl, some, [], ◌∷◌, arith}
use limnifs_py.Utf8.{encode_char}
use limnifs_py.Cursor.Reads.{Reads}
use limnifs_py.DmsPolicy.{DmsPolicy, ShareRecord, parse_dms_policy_section}
use limnifs_py.DmsPolicy.Shares.{IsShare, IsPolicy, dms_policy_bytes}
use limnifs_py.DmsPolicy.Format.{parse_dms_policy_section-Decodes}

abbrev pub alice : ShareRecord
alice = record { custodian_id = b'a' ∷ []; share_data = 1 ∷ 2 ∷ [] }

-- "é" takes two bytes.
abbrev pub e_acute : ShareRecord
e_acute = record { custodian_id = 0xe9 ∷ []; share_data = 3 ∷ [] }

alice_valid : IsShare 1024 4096 alice
unfolding encode_char
alice_valid = record {
  text = ground arith;
  named = refl;
  name_below = omega arith;
  name_fits = omega arith;
  present = omega arith;
  data_below = omega arith;
  data_fits = omega arith;
}

e_acute_valid : IsShare 1024 4096 e_acute
unfolding encode_char
e_acute_valid = record {
  text = ground arith;
  named = refl;
  name_below = omega arith;
  name_fits = omega arith;
  present = omega arith;
  data_below = omega arith;
  data_fits = omega arith;
}

abbrev pub two_shares : DmsPolicy
two_shares = record {
  k = 1;
  n = 2;
  shares = alice ∷ e_acute ∷ [];
  reconstruction_hint = some (b'x' ∷ []);
}

pub two_shares_valid : IsPolicy 1024 4096 two_shares
unfolding encode_char
two_shares_valid = record {
  some_needed = omega arith;
  enough = omega arith;
  at_most_255 = omega arith;
  count = refl;
  valid = (alice_valid, (e_acute_valid, tt));
  distinct = (((λ p. ground arith), tt), (tt, tt));
  hint = (ground arith, omega arith, omega arith, omega arith);
}

parse_dms_policy_section-Decodes_example :
    Reads (parse_dms_policy_section 1024 4096) (dms_policy_bytes two_shares) two_shares
parse_dms_policy_section-Decodes_example =
    (parse_dms_policy_section-Decodes 1024 4096).reads two_shares two_shares_valid
