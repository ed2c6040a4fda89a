-- ===== src/Cursor/Loop.antt =====
-- The counted loops of the parsers: `for _ in range(count)`, each round appending one entry.
use limnifs_py.Prelude.{
  ℕ, zero, suc, ◌≡◌, refl, sym, ap, List, [], ◌∷◌, append-nil, length, flat_map, map, All, Distinct,
  NotIn, ◌≢◌, ◌↔◌, All-zip, All-unzip, All-tt,
}
use limnifs_py.Cursor.{Parser, pure, ◌>>=◌}
use limnifs_py.Cursor.Reads.{Reads, Reads-pure, Reads-bind, Reads-cast}
use limnifs_py.Cursor.Consumes.{Consumes, Consumes-pure, Consumes-bind, Consumes-weaken}

module _ {ℓ κ} {S : Type κ} {A : Type ℓ} where
  -- `state` is what a round hands to the next, such as the set of keys that were seen.
  unfoldable pub for_range : (S → Parser A) → (S → A → S) → ℕ → S → Parser (List A)
  for_range body next zero state = pure []
  for_range body next (suc count) state = do
    entry ← body state
    entries ← for_range body next count (next state entry)
    pure (entry ∷ entries)

module _ {ℓ κ μ} {S : Type κ} {A : Type ℓ} where
  -- Each entry is admissible in the state that its round begins with.
  abbrev pub EachFrom : (S → A → Type μ) → (S → A → S) → S → List A → Type μ
  EachFrom Ok next state [] = Unit {μ}
  EachFrom Ok next state (a ∷ entries) = Ok state a × EachFrom Ok next (next state a) entries

module _ {ℓ κ μ} {S : Type κ} {A : Type ℓ} (body : S → Parser A) (next : S → A → S) where
  pub Reads-for_range :
      (encode : A → List ℕ) (Ok : S → A → Type μ)
      → ((state : S) (a : A) → Ok state a → Reads (body state) (encode a) a)
      → (state : S) (entries : List A) → EachFrom Ok next state entries
      → Reads (for_range body next (length entries) state) (flat_map encode entries) entries
  unfolding for_range
  Reads-for_range encode Ok h state [] each = Reads-pure []
  Reads-for_range encode Ok h state (a ∷ entries) each = Reads-bind _ (h state a each.0) (
      Reads-cast (sym (append-nil (flat_map encode entries))) (
        Reads-bind _ (Reads-for_range encode Ok h (next state a) entries each.1)
          (Reads-pure (a ∷ entries))))

  pub Consumes-for_range :
      (encode : A → List ℕ) (Ok : S → A → Type μ)
      → ((state : S) → Consumes (body state) (λ bs a. (bs ≡ encode a) × Ok state a))
      → (count : ℕ) (state : S)
      → Consumes (for_range body next count state) (λ bs entries.
        (bs ≡ flat_map encode entries) × (length entries ≡ count) × EachFrom Ok next state entries)
  unfolding for_range
  Consumes-for_range encode Ok h zero state = Consumes-pure [] (refl, refl, tt)
  Consumes-for_range encode Ok h (suc count) state = Consumes-bind (h state) λ bs a q.
      Consumes-bind (Consumes-for_range encode Ok h count (next state a)) λ cs entries r.
        Consumes-pure (a ∷ entries) (rw (append-nil cs, q.0, r.0), ap suc (r.1), (q.1, r.2))

-- A loop whose rounds do not depend on one another.
module _ {ℓ} {A : Type ℓ} where
  unfoldable pub for_each : Parser A → ℕ → Parser (List A)
  unfolding for_range
  for_each body count = for_range (λ (_ : Unit {0}). body) (λ state _. state) count tt

module _ {ℓ κ} {A : Type ℓ} (Valid : A → Type κ) where
  EachFrom-All :
      (entries : List A)
      → EachFrom (λ (_ : Unit {0}). Valid) (λ state _. state) tt entries ↔ All Valid entries
  EachFrom-All [] = ((λ h. tt), (λ h. tt))
  EachFrom-All (a ∷ entries) =
      let (to, from) = EachFrom-All entries in ((λ h. (h.0, to h.1)), (λ h. (h.0, from h.1)))

  pub Reads-for_each :
      (body : Parser A) (encode : A → List ℕ)
      → ((a : A) → Valid a → Reads body (encode a) a)
      → (entries : List A) → All Valid entries
      → Reads (for_each body (length entries)) (flat_map encode entries) entries
  unfolding for_each
  Reads-for_each body encode h entries v =
      Reads-for_range _ _ encode (λ _. Valid) (λ _ a. h a) tt entries ((EachFrom-All entries).1 v)

  pub Consumes-for_each :
      (body : Parser A) (encode : A → List ℕ)
      → Consumes body (λ bs a. (bs ≡ encode a) × Valid a)
      → (count : ℕ)
      → Consumes (for_each body count) (λ bs entries.
        (bs ≡ flat_map encode entries) × (length entries ≡ count) × All Valid entries)
  unfolding for_each
  Consumes-for_each body encode h count =
      Consumes-weaken (Consumes-for_range _ _ encode (λ _. Valid) (λ _. h) count tt)
        λ bs entries q. (q.0, q.1, (EachFrom-All entries).0 q.2)

-- A loop that keeps a set of the keys that it has seen admits exactly the lists of valid entries
-- with distinct keys.
module _ {ℓ} {A : Type ℓ} {K : Type ℓ} (Valid : A → Type ℓ) (key : A → K) where
  abbrev pub Unseen : List K → A → Type ℓ
  Unseen seen a = Valid a × NotIn seen (key a)

  abbrev pub see : List K → A → List K
  see seen a = key a ∷ seen

  EachFrom→Distinct :
      (seen : List K) (entries : List A)
      → EachFrom Unseen see seen entries
      → All Valid entries × Distinct (map key entries) × All (NotIn seen) (map key entries)
  EachFrom→Distinct seen [] each = (tt, tt, tt)
  EachFrom→Distinct seen (a ∷ entries) each =
      let ih = EachFrom→Distinct (key a ∷ seen) entries each.1 in
      let (new, old) = All-unzip (λ k. key a ≢ k) (NotIn seen) (map key entries) ih.2 in
      ((each.0.0, ih.0), (new, ih.1), (each.0.1, old))

  Distinct→EachFrom_seen :
      (seen : List K) (entries : List A)
      → All Valid entries
      → Distinct (map key entries)
      → All (NotIn seen) (map key entries)
      → EachFrom Unseen see seen entries
  Distinct→EachFrom_seen seen [] valid distinct old = tt
  Distinct→EachFrom_seen seen (a ∷ entries) valid distinct old = (
    (valid.0, old.0),
    Distinct→EachFrom_seen (key a ∷ seen) entries valid.1 distinct.1
        (All-zip (λ k. key a ≢ k) (NotIn seen) (map key entries) distinct.0 old.1),
  )

  pub EachFrom-Distinct :
      (entries : List A)
      → EachFrom Unseen see [] entries ↔ (All Valid entries × Distinct (map key entries))
  EachFrom-Distinct entries = (
    (λ each. let r = EachFrom→Distinct [] entries each in (r.0, r.1)),
    (λ p. Distinct→EachFrom_seen [] entries p.0 p.1 (All-tt (map key entries))),
  )
