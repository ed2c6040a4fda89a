-- ===== src/Builder/Encoders.antt =====
-- The encoders against the layouts that the parsers read, and where they raise.
use limnifs_py.Prelude.{
  ℕ, ◌^◌, ◌<◌, ◌≡◌, refl, sym, Option, none, some, List, [], ◌∷◌, ◌++◌, map, flat_map, append-nil,
  arith, length, length-map, flat_map-map, All, All-tt, replicate, if◌then◌else◌,
}
use limnifs_py.Wire.{le_bytes, pack_le, pack_hhh}
use limnifs_py.Utf8.{encode, encode_text}
use limnifs_py.Utf8.Laws.{IsScalar}
use limnifs_py.Utf8.Texts.{encode_text_ok, ok-encode_text}
use limnifs_py.FormatTypes.{manifest_magic, SlabId, ManifestRoot, slab_id_to_bytes}
use limnifs_py.FormatTypes.Laws.{slab_id_bytes}
use limnifs_py.Builder.Output.{
  ◌then◌, emit, emit_result, emit_each, Writes, Writes-cast, Writes-of, Writes-then, Writes-emit,
  Writes-emit_byte, Writes-pack, Writes-result, Writes-emit_each,
}
use limnifs_py.Builder.{
  encode_locator, encode_header, encode_flag, encode_feature_flags, locators_of, inline_metadata_of,
  encode_inline, encode_index_entry, encode_slab_index, encode_input, encode_history_entry,
  encode_history, metadata_hash_of, encode_metadata_reference,
}
use limnifs_py.Builder.Spec.{
  HeaderSpec, FeatureFlagSpec, MetadataReferenceSpec, external, inlined, SlabIndexEntrySpec,
  HistoryOpSpec, build, delta, flatten, turnover, deepen, HistoryEntrySpec, int_of_op,
}
use limnifs_py.FeatureFlags.{section_version}
use limnifs_py.FeatureFlags.Format.{flag_bytes, flags_bytes}
use limnifs_py.MetadataReference.Format.{reference_bytes, inline_len, inline_bytes}
use limnifs_py.SlabIndex.Format.{locators_bytes, index_entry_bytes, slab_index_bytes}
use limnifs_py.History.Roots.{root_bytes}
use limnifs_py.History.Format.{op_byte, entry_bytes, history_bytes}
use limnifs_py.Merkle.{Blake3, hash_section}
use limnifs_py.Header.Format.{header_bytes, IsHeader}
use limnifs_py.Locator.Format.{locator_bytes}
use limnifs_py.Builder.Values.{
  header_of, flag_of, flags_of, locator_of, reference_of, index_entry_of, index_of, op_of,
  history_entry_of, history_of,
}

-- A text with an encoding whose length fits.
abbrev pub FitsLocator : List ℕ → Type 0
FitsLocator uri = All IsScalar uri × (length (encode uri) < 2 ^ 32)

pub Writes-locator :
    (uri : List ℕ)
    → Writes (encode_locator uri) (locator_bytes (record { uri = uri })) (FitsLocator uri)
unfolding encode_locator
Writes-locator uri =
    Writes-cast refl ((λ (text, (size, _)). (text, size)), (λ (text, size). (text, (size, tt))))
      (Writes-of (λ encoded. emit_result (pack_le 4 (length encoded)) then emit encoded)
        (encode uri) (encode_text uri) (encode_text_ok uri) (λ x h. ok-encode_text uri h)
        (Writes-then (Writes-pack 4 (length (encode uri))) (Writes-emit (encode uri))))

pub Writes-header :
    (h : HeaderSpec)
    → Writes (encode_header h) (header_bytes (header_of h)) (IsHeader (header_of h))
unfolding encode_header pack_hhh pack_le
Writes-header h =
    Writes-cast refl ((λ (_, (fits, _)). fits), (λ fits. (tt, (fits, tt))))
      (Writes-then (Writes-emit manifest_magic) (
        Writes-then
          (Writes-result (pack_hhh h.drop_store_version h.metadata_version h.manifest_version) _
            (λ p. ground arith) (λ x e. ground arith))
          (Writes-emit (replicate 6 0))))

Writes-flag :
    (f : FeatureFlagSpec) → Writes (encode_flag f) (flag_bytes (flag_of f)) (f.flag_id < 2 ^ 16)
unfolding encode_flag
Writes-flag f =
    Writes-cast refl ((λ (fits, _). fits), (λ fits. (fits, ground arith)))
      (Writes-then (Writes-pack 2 f.flag_id) (Writes-emit_byte (if f.required then 1 else 0)))

abbrev pub FitsFlags : List FeatureFlagSpec → Type 0
FitsFlags flags = (length flags < 2 ^ 32) × All (λ (f : FeatureFlagSpec). f.flag_id < 2 ^ 16) flags

pub Writes-flags :
    (flags : List FeatureFlagSpec)
    → Writes (encode_feature_flags flags) (flags_bytes (flags_of flags)) (FitsFlags flags)
unfolding encode_feature_flags
Writes-flags flags =
    Writes-cast (rw (length-map flag_of flags, flat_map-map flag_of flag_bytes flags))
      ((λ (_, fits). fits), (λ fits. (omega arith, fits)))
      (Writes-then (Writes-emit_byte section_version) (
        Writes-then (Writes-pack 4 (length flags))
          (Writes-emit_each encode_flag _ _ Writes-flag flags)))

Writes-locators :
    (locators : List (List ℕ))
    → Writes
        (emit_result (pack_le 4 (length locators)) then emit_each encode_locator locators)
        (locators_bytes (map locator_of locators))
        ((length locators < 2 ^ 32) × All FitsLocator locators)
Writes-locators locators =
    Writes-cast
      (rw (length-map locator_of locators, flat_map-map locator_of locator_bytes locators))
      ((λ fits. fits), (λ fits. fits))
      (Writes-then (Writes-pack 4 (length locators))
        (Writes-emit_each encode_locator _ _ Writes-locator locators))

Writes-inline :
    (metadata : Option (List ℕ))
    → Writes
        (encode_inline metadata)
        (le_bytes 4 (inline_len metadata) ++ inline_bytes metadata)
        (inline_len metadata < 2 ^ 32)
unfolding encode_inline
Writes-inline none =
    Writes-cast (sym (append-nil (le_bytes 4 0))) ((λ fits. fits), (λ fits. fits)) (Writes-pack 4 0)
Writes-inline (some metadata) =
    Writes-cast refl ((λ (fits, _). fits), (λ fits. (fits, tt)))
      (Writes-then (Writes-pack 4 (length metadata)) (Writes-emit metadata))

-- The parts of the section in their order.
Writes-parts :
    (blake3 : Blake3) (r : MetadataReferenceSpec)
    → Writes
        (encode_metadata_reference blake3 r)
        ((1 ∷ [])
          ++ (metadata_hash_of blake3 r
              ++ (le_bytes 4 (length (locators_of r))
                  ++ (flat_map (λ uri. locator_bytes (record { uri = uri })) (locators_of r)
                      ++ (le_bytes 4 (inline_len (inline_metadata_of r))
                          ++ inline_bytes (inline_metadata_of r))))))
        ((1 < 256)
          × (Unit
              × ((length (locators_of r) < 256 ^ 4)
                  × (All FitsLocator (locators_of r)
                      × (inline_len (inline_metadata_of r) < 2 ^ 32)))))
unfolding encode_metadata_reference
Writes-parts blake3 r = Writes-then (Writes-emit_byte 1) (
    Writes-then (Writes-emit (metadata_hash_of blake3 r)) (
      Writes-then (Writes-pack 4 (length (locators_of r))) (
        Writes-then (Writes-emit_each encode_locator _ _ Writes-locator (locators_of r))
          (Writes-inline (inline_metadata_of r)))))

abbrev pub FitsReference : MetadataReferenceSpec → Type 0
FitsReference (external metadata_hash locators) =
    (length locators < 2 ^ 32) × All FitsLocator locators
FitsReference (inlined metadata) = length metadata < 2 ^ 32

pub Writes-reference :
    (blake3 : Blake3) (r : MetadataReferenceSpec)
    → Writes
        (encode_metadata_reference blake3 r)
        (reference_bytes (reference_of blake3 r))
        (FitsReference r)
unfolding hash_section
Writes-reference blake3 (external metadata_hash locators) =
    Writes-cast
      (rw (length-map locator_of locators, flat_map-map locator_of locator_bytes locators))
      (
        (λ (_, (_, (count, (fits, inline)))). (count, fits)),
        (λ (count, fits). (omega arith, (tt, (count, (fits, omega arith))))),
      )
      (Writes-parts blake3 (external metadata_hash locators))
Writes-reference blake3 (inlined metadata) =
    Writes-cast refl
      (
        (λ (_, (_, (count, (fits, inline)))). inline),
        (λ inline. (omega arith, (tt, (omega arith, (tt, inline))))),
      )
      (Writes-parts blake3 (inlined metadata))

abbrev pub FitsIndexEntry : SlabIndexEntrySpec → Type 0
FitsIndexEntry e =
    (e.slab_id.ordinal < 2 ^ 64) × (length e.locators < 2 ^ 32) × All FitsLocator e.locators

Writes-slab_id :
    (s : SlabId) → Writes (emit_result (slab_id_to_bytes s)) (slab_id_bytes s) (s.ordinal < 2 ^ 64)
unfolding slab_id_to_bytes pack_le
Writes-slab_id s =
    Writes-result (slab_id_to_bytes s) (slab_id_bytes s) (λ p. ground arith) (λ x e. ground arith)

Writes-index_entry :
    (e : SlabIndexEntrySpec)
    → Writes (encode_index_entry e) (index_entry_bytes (index_entry_of e)) (FitsIndexEntry e)
unfolding encode_index_entry
Writes-index_entry e =
    Writes-cast refl
      ((λ (id, (count, fits)). (id, count, fits)), (λ (id, count, fits). (id, (count, fits))))
      (Writes-then (Writes-slab_id e.slab_id) (Writes-locators e.locators))

abbrev pub FitsIndex : List SlabIndexEntrySpec → Type 0
FitsIndex entries = (length entries < 2 ^ 32) × All FitsIndexEntry entries

pub Writes-index :
    (entries : List SlabIndexEntrySpec)
    → Writes (encode_slab_index entries) (slab_index_bytes (index_of entries)) (FitsIndex entries)
unfolding encode_slab_index
Writes-index entries =
    Writes-cast
      (rw
        (length-map index_entry_of entries, flat_map-map index_entry_of index_entry_bytes entries))
      ((λ (_, fits). fits), (λ fits. (omega arith, fits)))
      (Writes-then (Writes-emit_byte 1) (
        Writes-then (Writes-pack 4 (length entries))
          (Writes-emit_each encode_index_entry _ _ Writes-index_entry entries)))

abbrev pub FitsHistoryEntry : HistoryEntrySpec → Type 0
FitsHistoryEntry e =
    (e.timestamp_ns < 2 ^ 64) × (length e.inputs < 2 ^ 32) × (length e.params < 2 ^ 32)

int_of_op-op_byte :
    (op : HistoryOpSpec) → (int_of_op op ≡ op_byte (op_of op)) × (int_of_op op < 256)
int_of_op-op_byte build = (refl, omega arith)
int_of_op-op_byte delta = (refl, omega arith)
int_of_op-op_byte flatten = (refl, omega arith)
int_of_op-op_byte turnover = (refl, omega arith)
int_of_op-op_byte deepen = (refl, omega arith)

Writes-history_entry :
    (e : HistoryEntrySpec)
    → Writes (encode_history_entry e) (entry_bytes (history_entry_of e)) (FitsHistoryEntry e)
unfolding encode_history_entry encode_input
Writes-history_entry e =
    let (byte, fits) = int_of_op-op_byte e.op in
    Writes-cast (rw byte)
      (
        (λ (_, (time, (count, (_, (size, _))))). (time, count, size)),
        (λ (time, count, size). (fits, (time, (count, (All-tt e.inputs, (size, tt)))))),
      )
      (Writes-then (Writes-emit_byte (int_of_op e.op)) (
        Writes-then (Writes-pack 8 e.timestamp_ns) (
          Writes-then (Writes-pack 4 (length e.inputs)) (
            Writes-then
              (Writes-emit_each encode_input root_bytes (λ _. Unit)
                (λ (r : ManifestRoot). Writes-emit r.bytes) e.inputs)
              (Writes-then (Writes-pack 4 (length e.params)) (Writes-emit e.params))))))

abbrev pub FitsHistory : List HistoryEntrySpec → Type 0
FitsHistory entries = (length entries < 2 ^ 32) × All FitsHistoryEntry entries

pub Writes-history :
    (entries : List HistoryEntrySpec)
    → Writes (encode_history entries) (history_bytes (history_of entries)) (FitsHistory entries)
unfolding encode_history
Writes-history entries =
    Writes-cast
      (rw (length-map history_entry_of entries, flat_map-map history_entry_of entry_bytes entries))
      ((λ (_, fits). fits), (λ fits. (omega arith, fits)))
      (Writes-then (Writes-emit_byte 1) (
        Writes-then (Writes-pack 4 (length entries))
          (Writes-emit_each encode_history_entry _ _ Writes-history_entry entries)))
