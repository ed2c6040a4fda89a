-- ===== src/DmsPolicy.antt =====
-- limnifs/dms_policy.py: the section that records the shares of a split key.
pub mod Format
pub mod Shares
pub mod Tests
use limnifs_py.Prelude.{
  ℕ, ◌*◌, Option, none, some, List, [], ◌∷◌, is_empty, ltb, ◌==◌, ◌!=◌, if◌then◌else◌, contains,
  text_eq,
}
use limnifs_py.Errors.{corrupt, unsupported}
use limnifs_py.Cursor.{Parser, pure, ◌>>=◌, ◌>>◌, raise_if, raise, lift, read, read_u8, read_u32_le}
use limnifs_py.Cursor.Loop.{for_range}
use limnifs_py.Utf8.{decode_text}

abbrev pub dms_policy_section_version : ℕ
dms_policy_section_version = 1

abbrev pub dms_scheme_shamir : ℕ
dms_scheme_shamir = 0x00

abbrev pub dms_scheme_extended : ℕ
dms_scheme_extended = 0xff

abbrev pub max_total_shares : ℕ
max_total_shares = 255

abbrev pub default_share_data_max_bytes : ℕ
default_share_data_max_bytes = 1024

abbrev pub default_hint_max_bytes : ℕ
default_hint_max_bytes = 4 * 1024

-- The custodian's name is a text, the list of its code points.
pub record ShareRecord : Type 0 where
  pub custodian_id : List ℕ
  pub share_data : List ℕ

pub record DmsPolicy : Type 0 where
  pub k : ℕ
  pub n : ℕ
  pub shares : List ShareRecord
  pub reconstruction_hint : Option (List ℕ)

-- One round of the loop; `seen` holds the custodians of the rounds before.
unfoldable pub parse_share : ℕ → ℕ → List (List ℕ) → Parser ShareRecord
parse_share max_share_data_bytes max_hint_bytes seen = do
  cid_len ← read_u32_le
  raise_if (ltb max_hint_bytes cid_len) corrupt
  cid_bytes ← read cid_len
  cid ← lift (decode_text cid_bytes)
  raise_if (is_empty cid) corrupt
  raise_if (contains cid seen) corrupt
  sd_len ← read_u32_le
  raise_if (sd_len == 0) corrupt
  raise_if (ltb max_share_data_bytes sd_len) corrupt
  share_data ← read sd_len
  pure (record { custodian_id = cid; share_data = share_data })

-- The arguments are `max_hint_bytes` and `hint_len`.
unfoldable pub parse_hint : ℕ → ℕ → Parser (Option (List ℕ))
parse_hint max_hint_bytes hint_len =
    if hint_len == 0
    then pure none
    else if ltb max_hint_bytes hint_len
    then raise corrupt
    else do hint_bytes ← read hint_len; hint ← lift (decode_text hint_bytes); pure (some hint)

-- The arguments are `max_share_data_bytes` and `max_hint_bytes`.
unfoldable pub parse_dms_policy_section : ℕ → ℕ → Parser DmsPolicy
parse_dms_policy_section max_share_data_bytes max_hint_bytes = do
  version ← read_u8
  raise_if (version != dms_policy_section_version) unsupported
  scheme ← read_u8
  raise_if (scheme == dms_scheme_extended) unsupported
  raise_if (scheme != dms_scheme_shamir) unsupported
  k ← read_u8
  n ← read_u8
  raise_if (k == 0) corrupt
  raise_if (n == 0) corrupt
  raise_if (ltb n k) corrupt
  share_count ← read_u32_le
  raise_if (share_count != n) corrupt
  shares ←
      for_range (parse_share max_share_data_bytes max_hint_bytes)
        (λ seen share. share.custodian_id ∷ seen) share_count []
  hint_len ← read_u32_le
  hint ← parse_hint max_hint_bytes hint_len
  pure (record { k = k; n = n; shares = shares; reconstruction_hint = hint })
