-- ===== src/History/Roots.antt =====
-- limnifs/history.py: the inputs of an entry, cut into roots of 32 bytes.
use limnifs_py.Prelude.{
  ℕ, zero, suc, ◌*◌, ◌≡◌, refl, sym, ap, ◌∙◌, subst, List, [], ◌∷◌, ◌++◌, arith, length,
  length-append, length-take, length-drop, take, drop, take-append, drop-append, take-append-drop,
  flat_map, All,
}
use limnifs_py.Errors.{Result, ok, ◌>>=◌}
use limnifs_py.FormatTypes.{ManifestRoot, make_manifest_root}
use limnifs_py.FormatTypes.Laws.{IsManifestRoot, make_manifest_root_lem, make_manifest_root_bytes}

-- `for chunk_offset in range(0, inputs_size, 32)`: the rounds left, and the bytes from the offset on.
unfoldable pub roots_of_bytes : ℕ → List ℕ → Result (List ManifestRoot)
roots_of_bytes zero bs = ok []
roots_of_bytes (suc rounds) bs = do
  root ← make_manifest_root (take 32 bs)
  roots ← roots_of_bytes rounds (drop 32 bs)
  ok (root ∷ roots)

abbrev pub root_bytes : ManifestRoot → List ℕ
root_bytes r = r.bytes

pub length-roots :
    (roots : List ManifestRoot)
    → All IsManifestRoot roots
    → length (flat_map root_bytes roots) ≡ length roots * 32
length-roots [] v = omega arith
length-roots (r ∷ roots) v =
    omega (arith, v.0, length-roots roots v.1, length-append r.bytes (flat_map root_bytes roots))

pub roots_of_bytes-flat_map :
    (roots : List ManifestRoot)
    → All IsManifestRoot roots
    → roots_of_bytes (length roots) (flat_map root_bytes roots) ≡ ok roots
unfolding roots_of_bytes
roots_of_bytes-flat_map [] v = refl
roots_of_bytes-flat_map (r ∷ roots) v =
    let rest = flat_map root_bytes roots in
    let front : take 32 (r.bytes ++ rest) ≡ r.bytes =
      subst (λ n. take n (r.bytes ++ rest) ≡ r.bytes) v.0 (take-append r.bytes rest) in
    let back : drop 32 (r.bytes ++ rest) ≡ rest =
      subst (λ n. drop n (r.bytes ++ rest) ≡ rest) v.0 (drop-append r.bytes rest) in
    rw (front, back, make_manifest_root_lem r v.0, roots_of_bytes-flat_map roots v.1)

pub roots_of_bytes_bytes :
    (rounds : ℕ) (bs : List ℕ)
    → length bs ≡ rounds * 32
    → (roots : List ManifestRoot) × (roots_of_bytes rounds bs ≡ ok roots)
      × (bs ≡ flat_map root_bytes roots)
      × (length roots ≡ rounds)
      × All IsManifestRoot roots
unfolding roots_of_bytes
roots_of_bytes_bytes zero [] h = ([], refl, refl, refl, tt)
roots_of_bytes_bytes zero (b ∷ bs) h = absurd (omega arith)
roots_of_bytes_bytes (suc rounds) bs h =
    let size : length (take 32 bs) ≡ 32 = omega (arith, length-take 32 bs) in
    let (roots, made, layout, count, valid) =
      roots_of_bytes_bytes rounds (drop 32 bs) (omega (arith, length-drop 32 bs)) in
    (
      record { bytes = take 32 bs } ∷ roots,
      rw (make_manifest_root_bytes (take 32 bs) size, made),
      sym (take-append-drop 32 bs) ∙ ap (λ t. take 32 bs ++ t) layout,
      ap suc count,
      (size, valid),
    )
