-- ===== src/FormatTypes/Laws.antt =====
-- The constructors of the identifiers: what they admit, and their bytes and back.
use limnifs_py.Prelude.{
  ℕ, ◌^◌, ◌<◌, ◌≡◌, refl, sym, subst, ap, List, [], ◌∷◌, ◌++◌, arith, length, length-append, take,
  drop, take-append, drop-append, take-append-drop, length-take, length-drop, All, All-append_left,
}
use limnifs_py.Errors.{ok}
use limnifs_py.Wire.{
  IsByte, unpack_le, pack_le, le_bytes, length-le_bytes, unpack_le-le_bytes, le_bytes-unpack_le,
  pack_le-ok, unpack_le-lt,
}
use limnifs_py.FormatTypes.{
  DropId, make_drop_id, ManifestRoot, make_manifest_root, SlabId, make_slab_id, slab_id_from_bytes,
  slab_id_to_bytes, Representation, representation_to_bytes, representation_from_bytes,
}

-- What `__post_init__` guarantees.
abbrev pub IsDropId : DropId → Type 0
IsDropId d = length d.bytes ≡ 32

abbrev pub IsManifestRoot : ManifestRoot → Type 0
IsManifestRoot r = length r.bytes ≡ 32

abbrev pub IsSlabId : SlabId → Type 0
IsSlabId s = (s.ordinal < 2 ^ 64) × (length s.hash ≡ 32)

abbrev pub IsRepresentation : Representation → Type 0
IsRepresentation r = (r.codec < 256) × (r.aead < 256) × (r.ec < 256)

pub make_drop_id_lem : (d : DropId) → IsDropId d → make_drop_id d.bytes ≡ ok d
unfolding make_drop_id
make_drop_id_lem d h = ground arith

pub make_manifest_root_lem :
    (r : ManifestRoot) → IsManifestRoot r → make_manifest_root r.bytes ≡ ok r
unfolding make_manifest_root
make_manifest_root_lem r h = ground arith

pub make_slab_id_lem : (s : SlabId) → IsSlabId s → make_slab_id s.ordinal s.hash ≡ ok s
unfolding make_slab_id
make_slab_id_lem s h = ground arith

pub representation_from_bytes_lem :
    (r : Representation)
    → IsRepresentation r
    → representation_from_bytes (representation_to_bytes r) ≡ ok r
unfolding representation_from_bytes
representation_from_bytes_lem r h = ground arith

-- The 40 bytes of a slab identifier.
abbrev pub slab_id_bytes : SlabId → List ℕ
slab_id_bytes s = le_bytes 8 s.ordinal ++ s.hash

pub length-slab_id_bytes : (s : SlabId) → IsSlabId s → length (slab_id_bytes s) ≡ 40
length-slab_id_bytes s h =
    omega (arith, length-append (le_bytes 8 s.ordinal) s.hash, length-le_bytes 8 s.ordinal)

-- A slab identifier whose ordinal fits 64 bits and whose hash has 32 bytes packs into its 40 bytes
-- without an error, and they parse back to it.
pub slab_id_from_bytes-to_bytes :
    (s : SlabId)
    → IsSlabId s
    → (slab_id_to_bytes s ≡ ok (slab_id_bytes s)) × (slab_id_from_bytes (slab_id_bytes s) ≡ ok s)
unfolding slab_id_to_bytes slab_id_from_bytes pack_le
slab_id_from_bytes-to_bytes s h =
    let front : take 8 (slab_id_bytes s) ≡ le_bytes 8 s.ordinal =
      subst (λ n. take n (slab_id_bytes s) ≡ le_bytes 8 s.ordinal) (length-le_bytes 8 s.ordinal)
        (take-append (le_bytes 8 s.ordinal) s.hash) in
    let back : drop 8 (slab_id_bytes s) ≡ s.hash =
      subst (λ n. drop n (slab_id_bytes s) ≡ s.hash) (length-le_bytes 8 s.ordinal)
        (drop-append (le_bytes 8 s.ordinal) s.hash) in
    (
      rw (pack_le-ok 8 s.ordinal h.0),
      ground (
        arith,
        length-slab_id_bytes s h,
        ap (λ r. make_slab_id (unpack_le r) s.hash) front,
        front,
        back,
        unpack_le-le_bytes 8 s.ordinal h.0,
        make_slab_id_lem s h,
      ),
    )

-- Every 40 bytes are those of a slab identifier, and `from_bytes` returns it.
pub slab_id_from_bytes_bytes :
    (raw : List ℕ)
    → length raw ≡ 40
    → All IsByte raw
    → (s : SlabId) × (slab_id_from_bytes raw ≡ ok s) × (raw ≡ slab_id_bytes s) × IsSlabId s
unfolding slab_id_from_bytes
slab_id_from_bytes_bytes raw size bytes =
    let whole = take-append-drop 8 raw in
    let front : All IsByte (take 8 raw) =
      All-append_left IsByte (take 8 raw) (drop 8 raw) (subst (All IsByte) (sym whole) bytes) in
    let len : length (take 8 raw) ≡ 8 = omega (arith, length-take 8 raw) in
    let fits : unpack_le (take 8 raw) < 2 ^ 64 =
      subst (λ (k : ℕ). unpack_le (take 8 raw) < 256 ^ k) len (unpack_le-lt (take 8 raw) front) in
    let rest : length (drop 8 raw) ≡ 32 = omega (arith, length-drop 8 raw) in
    let s : SlabId = record { ordinal = unpack_le (take 8 raw); hash = drop 8 raw } in
    let back : le_bytes 8 (unpack_le (take 8 raw)) ≡ take 8 raw =
      subst (λ k. le_bytes k (unpack_le (take 8 raw)) ≡ take 8 raw) len
        (le_bytes-unpack_le (take 8 raw) front) in
    (s, ground (arith, make_slab_id_lem s (fits, rest)), rw (back, whole), (fits, rest))

pub make_drop_id_bytes :
    (raw : List ℕ) → length raw ≡ 32 → make_drop_id raw ≡ ok (record { bytes = raw })
make_drop_id_bytes raw h = make_drop_id_lem (record { bytes = raw }) h

pub make_manifest_root_bytes :
    (raw : List ℕ) → length raw ≡ 32 → make_manifest_root raw ≡ ok (record { bytes = raw })
make_manifest_root_bytes raw h = make_manifest_root_lem (record { bytes = raw }) h

-- Every 3 bytes are those of a representation, and `from_bytes` returns it.
pub representation_from_bytes_bytes :
    (raw : List ℕ)
    → length raw ≡ 3
    → All IsByte raw
    → (r : Representation) × (representation_from_bytes raw ≡ ok r)
      × (raw ≡ representation_to_bytes r)
      × IsRepresentation r
representation_from_bytes_bytes [] h b = absurd (omega arith)
representation_from_bytes_bytes (x ∷ []) h b = absurd (omega arith)
representation_from_bytes_bytes (x ∷ y ∷ []) h b = absurd (omega arith)
representation_from_bytes_bytes (x ∷ y ∷ z ∷ []) h b =
    let r : Representation = record { codec = x; aead = y; ec = z } in
    (r, representation_from_bytes_lem r (b.0, b.1.0, b.1.1.0), refl, (b.0, b.1.0, b.1.1.0))
representation_from_bytes_bytes (x ∷ y ∷ z ∷ w ∷ l) h b = absurd (omega arith)
