-- ===== src/DirectoryNode/Names.antt =====
-- Entries in ascending order of their names.
use limnifs_py.Prelude.{
  ℕ, ◌≢◌, ◌↔◌, sym, subst, Option, none, some, List, [], ◌∷◌, map, All, Distinct,
}
use limnifs_py.Cursor.Loop.{EachFrom}
use limnifs_py.DirectoryNode.{DirEntry}
use limnifs_py.DirectoryNode.Order.{◌≺◌, ≺_trans, ≺_irrefl}

abbrev pub name_key : DirEntry → List ℕ
name_key e = e.name

-- Every name is below every later one.
abbrev pub IsAscending : List DirEntry → Type 0
IsAscending [] = Unit
IsAscending (e ∷ entries) = All (λ f. e.name ≺ f.name) entries × IsAscending entries

-- The name of the round before is below.
abbrev pub After : Option (List ℕ) → List ℕ → Type 0
After none name = Unit
After (some prev) name = prev ≺ name

module _ (Valid : DirEntry → Type 0) where
  abbrev pub InOrder : Option (List ℕ) → DirEntry → Type 0
  InOrder prev e = Valid e × After prev e.name

  abbrev next_name : Option (List ℕ) → DirEntry → Option (List ℕ)
  next_name prev e = some e.name

  above_first :
      (e f : DirEntry) (entries : List DirEntry)
      → e.name ≺ f.name
      → All (λ g. f.name ≺ g.name) entries
      → All (λ g. e.name ≺ g.name) entries
  above_first e f [] p h = tt
  above_first e f (g ∷ entries) p h =
      (≺_trans e.name f.name g.name p h.0, above_first e f entries p h.1)

  above_rest :
      (e : DirEntry) (entries : List DirEntry)
      → EachFrom InOrder next_name (some e.name) entries
      → IsAscending entries
      → All (λ g. e.name ≺ g.name) entries
  above_rest e [] each h = tt
  above_rest e (f ∷ entries) each h = (each.0.1, above_first e f entries each.0.1 h.0)

  EachFrom→IsAscending :
      (prev : Option (List ℕ)) (entries : List DirEntry)
      → EachFrom InOrder next_name prev entries
      → All Valid entries × IsAscending entries
  EachFrom→IsAscending prev [] each = (tt, tt)
  EachFrom→IsAscending prev (e ∷ entries) each =
      let (valid, ascending) = EachFrom→IsAscending (some e.name) entries each.1 in
      ((each.0.0, valid), (above_rest e entries each.1 ascending, ascending))

  first_after :
      (e : DirEntry) (entries : List DirEntry)
      → All Valid entries
      → IsAscending (e ∷ entries)
      → EachFrom InOrder next_name (some e.name) entries
  first_after e [] valid h = tt
  first_after e (f ∷ entries) valid h = ((valid.0, h.0.0), first_after f entries valid.1 h.1)

  -- A loop that compares each name with the one before admits exactly the ascending lists.
  pub EachFrom-IsAscending :
      (entries : List DirEntry)
      → EachFrom InOrder next_name none entries ↔ (All Valid entries × IsAscending entries)
  EachFrom-IsAscending entries = (EachFrom→IsAscending none entries, back entries)
    where
      back :
          (entries : List DirEntry)
          → All Valid entries × IsAscending entries
          → EachFrom InOrder next_name none entries
      back [] p = tt
      back (e ∷ entries) p = ((p.0.0, tt), first_after e entries p.0.1 p.1)

other_names :
    (e : DirEntry) (entries : List DirEntry)
    → All (λ f. e.name ≺ f.name) entries
    → All (λ y. e.name ≢ y) (map name_key entries)
other_names e [] h = tt
other_names e (f ∷ entries) h =
    ((λ p. ≺_irrefl e.name (subst (λ t. e.name ≺ t) (sym p) h.0)), other_names e entries h.1)

pub IsAscending-Distinct :
    (entries : List DirEntry) → IsAscending entries → Distinct (map name_key entries)
IsAscending-Distinct [] h = tt
IsAscending-Distinct (e ∷ entries) h = (other_names e entries h.0, IsAscending-Distinct entries h.1)
