-- ===== src/SlabReader/Sound.antt =====
-- Whatever `parse_slab` accepts is a well-formed slab, and all that it raises are ParseErrors.
use limnifs_py.Prelude.{
  ℕ, ◌+◌, ◌≡◌, refl, ap, subst, ◌∙◌, List, [], ◌++◌, append-nil, append_assoc, arith, length,
  length-append, All, All-append_right, ltb, false, ne-guard,
}
use limnifs_py.Errors.{Error, Result, ok, err, ok-injective, IsParseError, IsParseError-eq}
use limnifs_py.Wire.{IsByte}
use limnifs_py.Cursor.{Cursor, make_cursor}
use limnifs_py.Cursor.Reads.{cursor_at}
use limnifs_py.Cursor.Consumes.{
  Outcome, accepted, rejected, Outcome-bind, Outcome-position, Outcome-raise_if, Outcome-pure,
}
use limnifs_py.SlabHeader.{default_slab_max_bytes}
use limnifs_py.SlabHeader.Format.{
  IsSlabHeader, slab_header_bytes, length-slab_header_bytes, parse_slab_header-Decodes,
}
use limnifs_py.SlabReader.{SlabView, parse_slab_view, parse_slab, value}
use limnifs_py.SlabReader.Layout.{records_bytes, slab_bytes, window_len, IsRecordOf, IsSlab}
use limnifs_py.SlabReader.Parse.{view_of, records-Outcome}

-- What stands in front of the window, and the view that is returned.
record Parsed (raw bs : List ℕ) (view : SlabView) : Type 0 where
  is_header : IsSlabHeader default_slab_max_bytes view.header
  are_records : All (IsRecordOf view.header) view.drop_records
  front : bs ≡ slab_header_bytes view.header ++ records_bytes view.drop_records
  kept : view.bytes ≡ raw
  start : view.solid_window_start ≡ length bs
  total : view.header.total_length ≡ length raw
  window : view.header.total_length ≡ length bs + window_len view.drop_records

view-Outcome :
    (raw : List ℕ)
    → All IsByte raw
    → Outcome (Parsed raw) [] raw (parse_slab_view raw (cursor_at [] raw))
unfolding parse_slab_view
view-Outcome raw b =
    Outcome-bind _ _ ((parse_slab_header-Decodes default_slab_max_bytes).consumes.run [] raw b)
      λ bs after h e q. Outcome-raise_if _ _ _ tt λ same.
        let ahead : length raw ≡ length bs + length after = ap length e ∙ length-append bs after in
        let total : h.total_length ≡ length raw = ne-guard _ _ same in
        Outcome-bind _ _
          (records-Outcome h (length raw) 0 bs after
            (All-append_right IsByte bs after (subst (All IsByte) e b)) (omega arith)
            (omega (arith, ap length q.0, length-slab_header_bytes h q.1.id)))
          λ bs1 after1 records e1 w. Outcome-position _ (
            Outcome-pure _ (record {
              is_header = q.1;
              are_records = w.1;
              front = rw (append-nil bs1, q.0, w.0);
              kept = refl;
              start = rw (append-nil bs1);
              total = total;
              window = rw (append-nil bs1) (omega (arith, w.2, length-append bs bs1));
            }))

-- The byte string is the slab of the view's header and records and of some window, and the view's
-- fields are those parts.
abbrev pub IsViewOf : List ℕ → SlabView → Type 0
IsViewOf raw v =
    (window : List ℕ) × IsSlab v.header v.drop_records window
    × (raw ≡ slab_bytes v.header v.drop_records window)
    × (v ≡ view_of v.header v.drop_records window)

Parsed-IsViewOf :
    (raw bs after : List ℕ) (v : SlabView) → raw ≡ bs ++ after → Parsed raw bs v → IsViewOf raw v
Parsed-IsViewOf raw bs after v e p =
    let layout : raw ≡ slab_bytes v.header v.drop_records after =
      e
      ∙ ap (λ t. t ++ after) p.front
      ∙ append_assoc (slab_header_bytes v.header) (records_bytes v.drop_records) after in
    let kept : v.bytes ≡ slab_bytes v.header v.drop_records after = p.kept ∙ layout in
    let start = p.start ∙ ap length p.front in
    (
      after,
      record {
        header = p.is_header;
        total = p.total ∙ ap length layout;
        records_valid = p.are_records;
        window_size = omega (arith, p.window, p.total, ap length e, length-append bs after);
      },
      layout,
      (λ i. record {
        bytes = kept i;
        header = v.header;
        drop_records = v.drop_records;
        solid_window_start = start i;
      }),
    )

value-inv :
    {raw : List ℕ} {r : Result (SlabView × Cursor)} {v : SlabView}
    → Outcome (Parsed raw) [] raw r
    → value r ≡ ok v
    → IsViewOf raw v
value-inv {raw} {v} (accepted {a = view} bs after e p) h =
    subst (IsViewOf raw) (ok-injective h) (Parsed-IsViewOf raw bs after view e p)
value-inv (rejected e) h = cc

value-err :
    {raw : List ℕ} {r : Result (SlabView × Cursor)} {e : Error}
    → Outcome (Parsed raw) [] raw r
    → value r ≡ err e
    → IsParseError e
value-err (accepted bs after e p) h = cc
value-err (rejected {e = e'} p) h = IsParseError-eq {e' = e'} (ground arith) p

-- A byte string that parses is a well-formed slab: it has the layout of the returned header and
-- records, with a window as long as the records say, and the view's fields are those parts.
pub parse_slab_sound :
    (raw : List ℕ) (v : SlabView) → All IsByte raw → parse_slab raw ≡ ok v → IsViewOf raw v
unfolding parse_slab make_cursor
parse_slab_sound raw v b h =
    value-inv (view-Outcome raw b)
      (let opened : ltb (length raw) 0 ≡ false = ground arith in rw opened at h)

-- All that `parse_slab` raises on bytes is a ParseError. So its loop ends on every input within
-- the rounds that the model allows, which is one for each byte.
pub parse_slab_err :
    (raw : List ℕ) (e : Error) → All IsByte raw → parse_slab raw ≡ err e → IsParseError e
unfolding parse_slab make_cursor
parse_slab_err raw e b h =
    value-err (view-Outcome raw b)
      (let opened : ltb (length raw) 0 ≡ false = ground arith in rw opened at h)
