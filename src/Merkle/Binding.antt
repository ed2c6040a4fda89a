-- ===== src/Merkle/Binding.antt =====
-- The root commits to every section hash.
use limnifs_py.Prelude.{
  ℕ, ◌+◌, ◌*◌, ◌≡◌, ◌≢◌, refl, sym, ap, ◌∙◌, ◌⊎◌, inl, inr, ◌↔◌, Bool, true, false, if◌then◌else◌,
  List, [], ◌∷◌, ◌++◌, arith, length, length-append, All, bytes_eq, bytes_eq_iff, Bool-cases,
}
use limnifs_py.Errors.{Error, ok, err, ok-injective}
use limnifs_py.FormatTypes.{ManifestRoot, make_manifest_root}
use limnifs_py.FormatTypes.Laws.{make_manifest_root_bytes}
use limnifs_py.Merkle.{
  Blake3, SectionHashes, slots, all_32, make_section_hashes, update_all, merkle_input,
  compute_merkle_root, merkle_domain_separator,
}

abbrev pub Is32 : List ℕ → Type 0
Is32 x = length x ≡ 32

abbrev pub AreSectionHashes : SectionHashes → Type 0
AreSectionHashes s = All Is32 (slots s)

all_32_iff : (xs : List (List ℕ)) → (all_32 xs ≡ true) ↔ All Is32 xs
unfolding all_32
all_32_iff [] = ground arith
all_32_iff (x ∷ xs) = ground (arith, all_32_iff xs)

guarded_ok {ℓ} :
    {A : Type ℓ} (b : Bool) (a : A) (e : Error) {t : A}
    → (if b then ok a else err e) ≡ ok t
    → (b ≡ true) × (a ≡ t)
guarded_ok true a e h = (refl, ok-injective h)
guarded_ok false a e h = cc

-- The constructor admits exactly the ten hashes of 32 bytes.
pub make_section_hashes_iff :
    (s t : SectionHashes) → (make_section_hashes s ≡ ok t) ↔ ((s ≡ t) × AreSectionHashes s)
unfolding make_section_hashes
make_section_hashes_iff s t = (
  (λ h.
      let (all, same) = guarded_ok (all_32 (slots s)) s _ h in
      (same, (all_32_iff (slots s)).0 all)),
  (λ (e, v). rw ((all_32_iff (slots s)).1 v) (ap ok e)),
)

length-update_all :
    (state : List ℕ) (xs : List (List ℕ))
    → All Is32 xs
    → length (update_all state xs) ≡ length state + 32 * length xs
unfolding update_all
length-update_all state [] v = omega arith
length-update_all state (x ∷ xs) v =
    omega (arith, length-update_all (state ++ x) xs v.1, length-append state x, v.0)

-- Of ten hashes of 32 bytes, 330 bytes are hashed into the root.
pub length-merkle_input : (s : SectionHashes) → AreSectionHashes s → length (merkle_input s) ≡ 330
unfolding merkle_input
length-merkle_input s v = length-update_all merkle_domain_separator (slots s) v

append-injective :
    (xs ys us vs : List ℕ) → length xs ≡ length ys → xs ++ us ≡ ys ++ vs → (xs ≡ ys) × (us ≡ vs)
append-injective [] [] us vs h e = (refl, e)
append-injective [] (y ∷ ys) us vs h e = absurd (omega arith)
append-injective (x ∷ xs) [] us vs h e = absurd (omega arith)
append-injective (x ∷ xs) (y ∷ ys) us vs h e =
    let (p, q) = append-injective xs ys us vs (omega arith) (ground arith) in (ground arith, q)

update_all-injective :
    (xs ys : List (List ℕ)) (state state' : List ℕ)
    → All Is32 xs
    → All Is32 ys
    → length xs ≡ length ys
    → length state ≡ length state'
    → update_all state xs ≡ update_all state' ys
    → (state ≡ state') × (xs ≡ ys)
unfolding update_all
update_all-injective [] [] state state' v w n h e = (e, refl)
update_all-injective [] (y ∷ ys) state state' v w n h e = absurd (omega arith)
update_all-injective (x ∷ xs) [] state state' v w n h e = absurd (omega arith)
update_all-injective (x ∷ xs) (y ∷ ys) state state' v w n h e =
    let (p, q) =
      update_all-injective xs ys (state ++ x) (state' ++ y) v.1 w.1 (omega arith)
        (omega (arith, length-append state x, length-append state' y, v.0, w.0)) e in
    let (r, s) = append-injective state state' x y h p in (r, ground arith)

-- The hashed bytes determine all ten section hashes.
pub merkle_input-injective :
    (s t : SectionHashes)
    → AreSectionHashes s
    → AreSectionHashes t
    → merkle_input s ≡ merkle_input t
    → s ≡ t
unfolding merkle_input
merkle_input-injective s t v w e =
    let same =
      (update_all-injective (slots s) (slots t) merkle_domain_separator merkle_domain_separator v w
        refl refl e).1 in
    ground arith

-- With one root the ten section hashes are the same, or the bytes hashed into the roots differ and
-- have one digest.
pub compute_merkle_root-binding :
    (blake3 : Blake3) (s t : SectionHashes)
    → AreSectionHashes s
    → AreSectionHashes t
    → compute_merkle_root blake3 s ≡ compute_merkle_root blake3 t
    → (s ≡ t)
      ⊎ ((merkle_input s ≢ merkle_input t)
          × (blake3.digest (merkle_input s) ≡ blake3.digest (merkle_input t)))
unfolding compute_merkle_root
compute_merkle_root-binding blake3 s t v w e =
    elim (Bool-cases (bytes_eq (merkle_input s) (merkle_input t))) [
      | inl same ↦
          inl (
            merkle_input-injective s t v w
              ((bytes_eq_iff (merkle_input s) (merkle_input t)).0 same))
      | inr other ↦
          inr ((λ p. cc (other, (bytes_eq_iff (merkle_input s) (merkle_input t)).1 p)), digests)
    ]
  where
    made :
        (x : List ℕ)
        → make_manifest_root (blake3.digest x) ≡ ok (record { bytes = blake3.digest x })
    made x = make_manifest_root_bytes (blake3.digest x) (blake3.length-digest x)

    digests : blake3.digest (merkle_input s) ≡ blake3.digest (merkle_input t)
    digests =
        ap (λ (r : ManifestRoot). r.bytes)
          (ok-injective (sym (made (merkle_input s)) ∙ (e ∙ made (merkle_input t))))
