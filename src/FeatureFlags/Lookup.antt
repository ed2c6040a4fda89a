-- ===== src/FeatureFlags/Lookup.antt =====
-- Lookups in a feature flags section with distinct identifiers.
use limnifs_py.Prelude.{
  ℕ, ◌≡◌, ◌↔◌, sym, ap, ◌∙◌, inl, inr, Bool, true, false, Option, none, some, Option-cases, In,
  find_first_iff, nat_eq,
}
use limnifs_py.FeatureFlags.{FeatureFlag, FeatureFlags, flag_key, get, is_required}
use limnifs_py.FeatureFlags.Format.{IsFlags}

-- In a valid section a lookup finds a row exactly if the row is there and has the identifier.
pub get_iff :
    (fs : FeatureFlags) (flag_id : ℕ) (f : FeatureFlag)
    → IsFlags fs
    → (get fs flag_id ≡ some f) ↔ (In f fs.entries × (f.flag_id ≡ flag_id))
unfolding get
get_iff fs flag_id f v = find_first_iff flag_key fs.entries flag_id f v.2

-- `entry is not None and entry.required`
abbrev required_in : Option FeatureFlag → Bool
required_in o = elim o [ none ↦ false | some entry ↦ entry.required ]

-- In a valid section a flag is required exactly if a row with its identifier says so.
pub is_required_iff :
    (fs : FeatureFlags) (flag_id : ℕ)
    → IsFlags fs
    → (is_required fs flag_id ≡ true)
      ↔ ((f : FeatureFlag) × In f fs.entries × (f.flag_id ≡ flag_id) × (f.required ≡ true))
unfolding is_required
is_required_iff fs flag_id v = elim (Option-cases (get fs flag_id)) [
  | inl e ↦
      ((λ h. cc (h, ap required_in e)), (λ (f, m, k, r). cc ((get_iff fs flag_id f v).1 (m, k), e)))
  | inr (g, e) ↦ (
    (λ h. let (m, k) = (get_iff fs flag_id g v).0 e in (g, m, k, sym (ap required_in e) ∙ h)),
    (λ (f, m, k, r). ap required_in ((get_iff fs flag_id f v).1 (m, k)) ∙ r),
  )
]
