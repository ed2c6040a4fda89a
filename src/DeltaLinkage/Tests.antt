-- ===== src/DeltaLinkage/Tests.antt =====
-- Paths with and without an empty component.
use limnifs_py.Prelude.{◌≡◌, refl, true, false, [], ◌∷◌}
use limnifs_py.DeltaLinkage.{double_slash}

double_slash_inside : double_slash (b'a' ∷ b'/' ∷ b'/' ∷ b'b' ∷ []) ≡ true
unfolding double_slash
double_slash_inside = refl

double_slash_apart : double_slash (b'/' ∷ b'a' ∷ b'/' ∷ []) ≡ false
unfolding double_slash
double_slash_apart = refl
