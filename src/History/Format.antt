-- ===== src/History/Format.antt =====
-- The history section against its layout.
use limnifs_py.Prelude.{
  ℕ, ◌+◌, ◌*◌, ◌^◌, ◌≤◌, ◌<◌, ◌≡◌, ◌≢◌, false, refl, sym, Option, none, some, List, [], ◌∷◌, ◌++◌,
  append-nil, arith, length, length-append, flat_map, length-flat_map-ge, All, ◌==◌, ne-guard,
}
use limnifs_py.Errors.{Error, ok, err, unsupported, IsParseError, IsParseError-eq}
use limnifs_py.Wire.{le_bytes, length-le_bytes}
use limnifs_py.Cursor.Reads.{
  Reads, Reads-pure, Reads-bind, Reads-cast, Reads-raise_if, Reads-lift, Reads-check_remaining,
  Reads-read, Reads-read_u8, Reads-read_u32_le, Reads-read_u64_le,
}
use limnifs_py.Cursor.Consumes.{
  Consumes, Consumes-pure, Consumes-bind, Consumes-raise_if, Consumes-lift, Consumes-lift_ok,
  Consumes-check_remaining, Consumes-read, Consumes-read_u8, Consumes-read_u32_le,
  Consumes-read_u64_le,
}
use limnifs_py.Cursor.Decodes.{Decodes}
use limnifs_py.Cursor.Loop.{Reads-for_each, Consumes-for_each}
use limnifs_py.FormatTypes.Laws.{IsManifestRoot}
use limnifs_py.History.{
  HistoryOp, build, delta, flatten, turnover, deepen, HistoryEntry, History, op_from_byte, known_op,
  parse_history_entry, parse_history_section, history_section_version, entry_fixed_len,
}
use limnifs_py.History.Roots.{
  root_bytes, length-roots, roots_of_bytes-flat_map, roots_of_bytes_bytes,
}

-- The values of the enumeration.
abbrev pub op_byte : HistoryOp → ℕ
op_byte build = 1
op_byte delta = 2
op_byte flatten = 3
op_byte turnover = 4
op_byte deepen = 5

abbrev pub entry_bytes : HistoryEntry → List ℕ
entry_bytes e =
    op_byte e.op
    ∷ (le_bytes 8 e.timestamp_ns
        ++ (le_bytes 4 (length e.inputs)
            ++ (flat_map root_bytes e.inputs ++ (le_bytes 4 (length e.params) ++ e.params))))

abbrev pub history_bytes : History → List ℕ
history_bytes h =
    history_section_version ∷ (le_bytes 4 (length h.entries) ++ flat_map entry_bytes h.entries)

pub record IsEntry (max_params_bytes : ℕ) (e : HistoryEntry) : Type 0 where
  pub timestamp : e.timestamp_ns < 2 ^ 64
  pub input_count : length e.inputs < 2 ^ 32
  pub inputs : All IsManifestRoot e.inputs
  pub params_fit : length e.params < 2 ^ 32
  pub params_below : length e.params ≤ max_params_bytes

-- At least one entry.
abbrev pub IsHistory : ℕ → History → Type 0
IsHistory max_params_bytes h =
    (h.entries ≢ []) × (length h.entries < 2 ^ 32) × All (IsEntry max_params_bytes) h.entries

known_op_lem : (op : HistoryOp) → known_op (op_from_byte (op_byte op)) ≡ ok op
unfolding known_op op_from_byte
known_op_lem op = ground arith

known_op_ok : (b : ℕ) (op : HistoryOp) → known_op (op_from_byte b) ≡ ok op → b ≡ op_byte op
unfolding known_op op_from_byte
known_op_ok b op h = ground arith

known_op_err : (o : Option HistoryOp) (e : Error) → known_op o ≡ err e → IsParseError e
unfolding known_op
known_op_err none e h = IsParseError-eq {e' = unsupported} (ground arith) tt
known_op_err (some op) e h = cc

not_empty :
    (entries : List HistoryEntry) {count : ℕ}
    → (count == 0) ≡ false
    → length entries ≡ count
    → entries ≢ []
not_empty [] nonzero size = ground arith
not_empty (e ∷ entries) nonzero size = λ p. cc

module _ (max : ℕ) where
  IsEntry-Reads :
      (e : HistoryEntry) → IsEntry max e → Reads (parse_history_entry max) (entry_bytes e) e
  unfolding parse_history_entry
  IsEntry-Reads e v = Reads-bind _ (Reads-read_u8 (op_byte e.op) (ground arith)) (
      Reads-bind _ (Reads-raise_if _ (ground arith)) (
        Reads-bind _ (Reads-lift (known_op_lem e.op)) (
          Reads-bind _ (Reads-read_u64_le e.timestamp_ns v.timestamp) (
            Reads-bind _ (Reads-read_u32_le (length e.inputs) v.input_count) (
              Reads-check_remaining (length e.inputs * 32) _
                (omega (
                  arith,
                  length-roots e.inputs v.inputs,
                  length-append (flat_map root_bytes e.inputs)
                      (le_bytes 4 (length e.params) ++ e.params),
                ))
                (Reads-bind _
                  (Reads-read (length e.inputs * 32) (flat_map root_bytes e.inputs)
                    (length-roots e.inputs v.inputs))
                  (Reads-bind _ (Reads-lift (roots_of_bytes-flat_map e.inputs v.inputs)) (
                    Reads-bind _ (Reads-read_u32_le (length e.params) v.params_fit) (
                      Reads-bind _ (Reads-raise_if _ (ground (arith, v.params_below))) (
                        Reads-cast (sym (append-nil e.params)) (
                          Reads-bind _ (Reads-read (length e.params) e.params refl)
                            (Reads-pure e))))))))))))

  IsEntry-Consumes :
      Consumes (parse_history_entry max) (λ bs e. (bs ≡ entry_bytes e) × IsEntry max e)
  unfolding parse_history_entry
  IsEntry-Consumes = Consumes-bind Consumes-read_u8 λ bs b q. Consumes-raise_if _ _ tt λ _.
      Consumes-lift (known_op (op_from_byte b)) (known_op_err (op_from_byte b)) λ op known.
        Consumes-bind Consumes-read_u64_le λ bs1 timestamp q1.
          Consumes-bind Consumes-read_u32_le λ bs2 count q2. Consumes-check_remaining _ (
            Consumes-bind (Consumes-read (count * 32)) λ bs3 raw q3.
              let (roots, made, layout, size, valid) = roots_of_bytes_bytes count raw q3.1 in
              Consumes-lift_ok _ made (
                Consumes-bind Consumes-read_u32_le λ bs4 params_len q4.
                  Consumes-raise_if _ _ tt λ below.
                    Consumes-bind (Consumes-read params_len) λ bs5 params q5. Consumes-pure _ (
                      simp (
                        append-nil,
                        q.0,
                        known_op_ok b op known,
                        q1.0,
                        q2.0,
                        size,
                        q3.0,
                        layout,
                        q4.0,
                        q5.0,
                        q5.1,
                      ),
                      record {
                        timestamp = q1.1;
                        input_count = omega (arith, q2.1, size);
                        inputs = valid;
                        params_fit = omega (arith, q4.1, q5.1);
                        params_below = ground (arith, q5.1);
                      },
                    )))

  entry_width : (e : HistoryEntry) → entry_fixed_len + 4 ≤ length (entry_bytes e)
  entry_width e =
      let tail = le_bytes 4 (length e.params) ++ e.params in
      omega (
        arith,
        length-append (le_bytes 8 e.timestamp_ns)
            (le_bytes 4 (length e.inputs) ++ (flat_map root_bytes e.inputs ++ tail)),
        length-append (le_bytes 4 (length e.inputs)) (flat_map root_bytes e.inputs ++ tail),
        length-append (flat_map root_bytes e.inputs) tail,
        length-append (le_bytes 4 (length e.params)) e.params,
        length-le_bytes 8 e.timestamp_ns,
        length-le_bytes 4 (length e.inputs),
        length-le_bytes 4 (length e.params),
      )

  parse-Reads :
      (h : History) → IsHistory max h → Reads (parse_history_section max) (history_bytes h) h
  unfolding parse_history_section
  parse-Reads h (some_entry, count, valid) =
      Reads-bind _ (Reads-read_u8 history_section_version (omega arith)) (
        Reads-bind _ (Reads-raise_if _ refl) (
          Reads-bind _ (Reads-read_u32_le (length h.entries) count) (
            Reads-bind _ (Reads-raise_if _ (ground arith)) (
              Reads-check_remaining _ _
                (length-flat_map-ge entry_bytes (entry_fixed_len + 4) (IsEntry max)
                  (λ e _. entry_width e) h.entries valid)
                (Reads-cast (sym (append-nil (flat_map entry_bytes h.entries))) (
                  Reads-bind _
                    (Reads-for_each (IsEntry max) _ entry_bytes IsEntry-Reads h.entries valid)
                    (Reads-pure h)))))))

  parse-Consumes :
      Consumes (parse_history_section max) (λ bs h. (bs ≡ history_bytes h) × IsHistory max h)
  unfolding parse_history_section
  parse-Consumes = Consumes-bind Consumes-read_u8 λ bs version q.
      Consumes-raise_if _ _ tt λ supported. Consumes-bind Consumes-read_u32_le λ bs1 count q1.
        Consumes-raise_if _ _ tt λ nonzero. Consumes-check_remaining _ (
          Consumes-bind (Consumes-for_each (IsEntry max) _ entry_bytes IsEntry-Consumes count)
            λ bs2 entries q2. Consumes-pure _ (
              simp (append-nil, q.0, ne-guard _ _ supported, q1.0, q2.0, q2.1),
              (not_empty _ nonzero q2.1, omega (arith, q1.1, q2.1), q2.2),
            ))

-- For every ceiling, the parser of the history section inverts the layout on the histories that
-- have an entry, whose numbers fit their widths and whose parameters are within the ceiling,
-- accepts nothing else, raises a TruncatedError on every input that ends inside such a section,
-- and raises only ParseErrors.
pub parse_history_section-Decodes :
    (max_params_bytes : ℕ)
    → Decodes (parse_history_section max_params_bytes) history_bytes (IsHistory max_params_bytes)
parse_history_section-Decodes max = record {
  reads = parse-Reads max;
  consumes = parse-Consumes max;
}
