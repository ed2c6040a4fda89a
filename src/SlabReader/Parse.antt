-- ===== src/SlabReader/Parse.antt =====
-- `parse_slab` against the layout of a slab.
use limnifs_py.Prelude.{
  ℕ, zero, suc, ◌+◌, ◌-◌, ◌<◌, ◌≡◌, refl, ap, subst, ◌∙◌, false, true, List, [], ◌∷◌, ◌++◌,
  append-nil, append_assoc, arith, length, length-append, All, All-append_right, ltb, ◌==◌, ◌!=◌,
}
use limnifs_py.Errors.{ok}
use limnifs_py.Wire.{IsByte}
use limnifs_py.Cursor.{pure, ◌>>=◌, raise_if, position, make_cursor}
use limnifs_py.Cursor.Reads.{cursor_at}
use limnifs_py.Cursor.Consumes.{
  Outcome, Outcome-bind, Outcome-position, Outcome-raise_if, Outcome-if, Outcome-pure,
}
use limnifs_py.Cursor.Decodes.{Decodes}
use limnifs_py.SlabHeader.{SlabHeader, default_slab_max_bytes}
use limnifs_py.SlabHeader.Format.{
  slab_header_bytes, length-slab_header_bytes, parse_slab_header-Decodes,
}
use limnifs_py.DropRecord.{
  DropRecord, default_drop_max_plaintext_bytes, parse_drop_record, drop_record_len,
}
use limnifs_py.DropRecord.Format.{
  drop_record_bytes, length-drop_record_bytes, parse_drop_record-Decodes,
}
use limnifs_py.SlabReader.{SlabView, parse_drop_records, parse_slab_view, parse_slab}
use limnifs_py.SlabReader.Layout.{
  records_bytes, slab_bytes, window_len, IsRecordOf, IsSlab, length-records_bytes,
}

-- The loop reads the records that are left and stops at the window: as long as a record is left,
-- more bytes are ahead than the window lengths so far add up to.
records-whole :
    (h : SlabHeader) (records : List DropRecord) (window : List ℕ) (fuel sum : ℕ) (before : List ℕ)
    → All (IsRecordOf h) records
    → h.total_length ≡ length before + length (records_bytes records) + length window
    → length window ≡ sum + window_len records
    → length records < fuel
    → parse_drop_records fuel h sum (cursor_at before (records_bytes records ++ window))
      ≡ ok (records, cursor_at (before ++ records_bytes records) window)
unfolding parse_drop_records ◌>>=◌ position raise_if pure
records-whole h records window zero sum before v total size f = absurd (omega arith)
records-whole h [] window (suc fuel) sum before v total size f =
    let stop : (h.total_length - length before == sum) ≡ true = ground arith in
    rw (stop, append-nil)
records-whole h (r ∷ records) window (suc fuel) sum before v total size f =
    let rest = records_bytes records in
    let len = length-append (drop_record_bytes r) rest in
    let width = length-drop_record_bytes r v.0.id in
    let on : (h.total_length - length before == sum) ≡ false = ground (arith, len, width) in
    let enough : ltb (h.total_length - length before) sum ≡ false = ground (arith, len, width) in
    let fits : ltb (h.total_length - length before - sum) drop_record_len ≡ false =
      ground (arith, len, width) in
    let next =
      records-whole h records window fuel (sum + r.len_in_window) (before ++ drop_record_bytes r)
        v.1 (omega (arith, len, length-append before (drop_record_bytes r))) (omega arith)
        (omega arith) in
    rw (
      on,
      enough,
      fits,
      append_assoc (drop_record_bytes r) rest window,
      ((parse_drop_record-Decodes h default_drop_max_plaintext_bytes).reads r v.0).whole before
          (rest ++ window),
      next,
      append_assoc before (drop_record_bytes r) rest,
    )

-- The view of a slab with these parts.
abbrev pub view_of : SlabHeader → List DropRecord → List ℕ → SlabView
view_of h records window = record {
  bytes = slab_bytes h records window;
  header = h;
  drop_records = records;
  solid_window_start = length (slab_header_bytes h ++ records_bytes records);
}

-- Every well-formed slab parses, to its header, all of its records, and the start of its window.
pub parse_slab-slab_bytes :
    (h : SlabHeader) (records : List DropRecord) (window : List ℕ)
    → IsSlab h records window
    → parse_slab (slab_bytes h records window) ≡ ok (view_of h records window)
unfolding parse_slab parse_slab_view make_cursor ◌>>=◌ raise_if position pure
parse_slab-slab_bytes h records window v =
    let header = slab_header_bytes h in
    let rest = records_bytes records in
    let raw = slab_bytes h records window in
    let len = length-append header (rest ++ window) in
    let len' = length-append rest window in
    let sizes = length-records_bytes h records v.records_valid in
    let same : (h.total_length != length raw) ≡ false = ground (arith, v.total) in
    let opened : ltb (length raw) 0 ≡ false = ground arith in
    let loop =
      records-whole h records window (length raw) 0 header v.records_valid
        (omega (arith, v.total, len, len')) (omega (arith, v.window_size))
        (omega (arith, len, len', sizes, length-slab_header_bytes h v.header.id)) in
    rw (
      opened,
      ((parse_slab_header-Decodes default_slab_max_bytes).reads h v.header).whole []
          (rest ++ window),
      same,
      loop,
    )

-- What the loop has read when it stops, from a cursor with `before` behind it.
abbrev pub Walked : SlabHeader → ℕ → List ℕ → List ℕ → List DropRecord → Type 0
Walked h sum before bs records =
    (bs ≡ records_bytes records)
    × All (IsRecordOf h) records
    × (h.total_length ≡ length before + length bs + (sum + window_len records))

records-Outcome_step :
    (h : SlabHeader) (fuel sum : ℕ) (before rest : List ℕ)
    → All IsByte rest
    → h.total_length ≡ length before + length rest
    → length rest < suc fuel
    → ((before' rest' : List ℕ) (sum' : ℕ)
        → All IsByte rest'
        → h.total_length ≡ length before' + length rest'
        → length rest' < fuel
        → Outcome
            (Walked h sum' before')
            before'
            rest'
            (parse_drop_records fuel h sum' (cursor_at before' rest')))
    → Outcome
        (Walked h sum before)
        before
        rest
        (parse_drop_records (suc fuel) h sum (cursor_at before rest))
unfolding parse_drop_records
records-Outcome_step h fuel sum before rest b total f ih = Outcome-position _ (
    Outcome-if (h.total_length - length before == sum) _ _
      (λ stop. Outcome-pure [] (refl, tt, ground arith))
      (λ on. Outcome-raise_if _ _ _ tt λ enough. Outcome-raise_if _ _ _ tt λ fits.
        Outcome-bind _ _ (record_parser.consumes.run before rest b) λ bs after r e q.
          let bytes = subst (All IsByte) e b in
          let ahead : length rest ≡ length bs + length after =
            ap length e ∙ length-append bs after in
          let width : length bs ≡ drop_record_len =
            ap length q.0 ∙ length-drop_record_bytes r q.1.id in
          Outcome-bind _ _
            (ih (before ++ bs) after (sum + r.len_in_window)
              (All-append_right IsByte bs after bytes) (omega (arith, length-append before bs))
              (omega arith))
            λ cs after' records e' w. Outcome-pure (r ∷ records) (
              rw (append-nil cs) (
                rw (q.0, w.0),
                (q.1, w.1),
                omega (arith, w.2, length-append before bs, length-append bs cs),
              ))))
  where
    record_parser :
        Decodes
          (parse_drop_record h default_drop_max_plaintext_bytes)
          drop_record_bytes
          (IsRecordOf h)
    record_parser = parse_drop_record-Decodes h default_drop_max_plaintext_bytes

pub records-Outcome :
    (h : SlabHeader) (fuel sum : ℕ) (before rest : List ℕ)
    → All IsByte rest
    → h.total_length ≡ length before + length rest
    → length rest < fuel
    → Outcome
        (Walked h sum before)
        before
        rest
        (parse_drop_records fuel h sum (cursor_at before rest))
records-Outcome h zero sum before rest b total f = absurd (omega arith)
records-Outcome h (suc fuel) sum before rest b total f =
    records-Outcome_step h fuel sum before rest b total f
      λ before' rest' sum' b' total' f'. records-Outcome h fuel sum' before' rest' b' total' f'
