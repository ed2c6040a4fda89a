-- ===== src/FormatTypes.antt =====
-- limnifs/format_types.py: identifiers and the representation triple. Their base32 texts
-- are in Text.
pub mod Laws
pub mod Text
mod Tests
use limnifs_py.Prelude.{
  ℕ, ◌+◌, ◌^◌, ◌<◌, ◌≡◌, Bool, true, false, ◌&&◌, not, Option, none, some, List, [], ◌∷◌, ◌++◌,
  length, take, drop, get_or, ltb, ◌==◌, ◌!=◌, if◌then◌else◌, arith, bytes_eq, bytes_eq_iff, ◌≡◌,
  ◌↔◌, Eq,
}
use limnifs_py.Errors.{Result, ok, err, value_error, map_ok}
use limnifs_py.Wire.{unpack_le, pack_le}

abbrev pub blake3_len : ℕ
blake3_len = 32

abbrev pub ordinal_len : ℕ
ordinal_len = 8

abbrev pub slab_id_len : ℕ
slab_id_len = ordinal_len + blake3_len

-- b"LMFS" and b"LIM1"
abbrev pub manifest_magic : List ℕ
manifest_magic = b'L' ∷ b'M' ∷ b'F' ∷ b'S' ∷ []

abbrev pub slab_magic : List ℕ
slab_magic = b'L' ∷ b'I' ∷ b'M' ∷ b'1' ∷ []

-- The `make_…` functions are the constructors with the test of `__post_init__`.
pub record DropId : Type 0 where
  pub bytes : List ℕ

unfoldable pub make_drop_id : List ℕ → Result DropId
make_drop_id raw = if length raw != blake3_len then err value_error else ok (record { bytes = raw })

pub record ManifestRoot : Type 0 where
  pub bytes : List ℕ

unfoldable pub make_manifest_root : List ℕ → Result ManifestRoot
make_manifest_root raw =
    if length raw != blake3_len then err value_error else ok (record { bytes = raw })

pub record SlabId : Type 0 where
  pub ordinal : ℕ
  pub hash : List ℕ

unfoldable pub make_slab_id : ℕ → List ℕ → Result SlabId
make_slab_id ordinal hash =
    if not (ltb ordinal (2 ^ 64))
    then err value_error
    else if length hash != blake3_len
    then err value_error
    else ok (record { ordinal = ordinal; hash = hash })

unfoldable pub slab_id_beq : SlabId → SlabId → Bool
slab_id_beq a b = (a.ordinal == b.ordinal) && bytes_eq a.hash b.hash

pub slab_id_beq_iff : (a b : SlabId) → (slab_id_beq a b ≡ true) ↔ (a ≡ b)
unfolding slab_id_beq
slab_id_beq_iff a b = ground (arith, bytes_eq_iff a.hash b.hash)

instance abbrev pub slab_id_eq : Eq SlabId
slab_id_eq = record { beq = slab_id_beq; beq_iff = slab_id_beq_iff }

unfoldable pub slab_id_from_bytes : List ℕ → Result SlabId
unfolding make_slab_id
slab_id_from_bytes raw =
    if length raw != slab_id_len
    then err value_error
    else make_slab_id (unpack_le (take ordinal_len raw)) (drop ordinal_len raw)

unfoldable pub slab_id_to_bytes : SlabId → Result (List ℕ)
slab_id_to_bytes s = map_ok (λ ordinal. ordinal ++ s.hash) (pack_le 8 s.ordinal)

pub record Representation : Type 0 where
  pub codec : ℕ
  pub aead : ℕ
  pub ec : ℕ

unfoldable pub make_representation : ℕ → ℕ → ℕ → Result Representation
make_representation codec aead ec =
    if ltb codec 256 && (ltb aead 256 && ltb ec 256)
    then ok (record { codec = codec; aead = aead; ec = ec })
    else err value_error

abbrev pub representation_to_bytes : Representation → List ℕ
representation_to_bytes r = r.codec ∷ r.aead ∷ r.ec ∷ []

abbrev pub representation_store_plaintext : Representation
representation_store_plaintext = record { codec = 0x00; aead = 0x00; ec = 0x00 }

unfoldable pub representation_from_bytes : List ℕ → Result Representation
unfolding make_representation
representation_from_bytes raw =
    if length raw != 3
    then err value_error
    else make_representation (get_or raw 0 0) (get_or raw 1 0) (get_or raw 2 0)

abbrev pub is_plaintext : Representation → Bool
is_plaintext r = r.aead == 0x00

abbrev pub has_no_ec : Representation → Bool
has_no_ec r = r.ec == 0x00

pub data Tier : Type 0 where
  epilimnion metalimnion hypolimnion : Tier

unfoldable pub tier_from_byte : ℕ → Option Tier
tier_from_byte byte =
    if byte == 0x00
    then some epilimnion
    else if byte == 0x01
    then some metalimnion
    else if byte == 0x02
    then some hypolimnion
    else none
