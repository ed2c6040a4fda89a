-- ===== src/History/Tests.antt =====
-- A history of one build entry.
use limnifs_py.Prelude.{[], ◌∷◌, arith, replicate}
use limnifs_py.Cursor.Reads.{Reads}
use limnifs_py.History.{History, HistoryEntry, build, delta, parse_history_section}
use limnifs_py.History.Format.{IsHistory, history_bytes, parse_history_section-Decodes}

abbrev pub build_entry : HistoryEntry
build_entry = record { op = build; timestamp_ns = 7; inputs = []; params = 1 ∷ 2 ∷ [] }

abbrev pub delta_entry : HistoryEntry
delta_entry = record {
  op = delta;
  timestamp_ns = 9;
  inputs = record { bytes = replicate 32 3 } ∷ [];
  params = [];
}

abbrev pub two_entries : History
two_entries = record { entries = build_entry ∷ delta_entry ∷ [] }

pub two_entries_valid : IsHistory 4096 two_entries
two_entries_valid = (
  (λ p. cc),
  omega arith,
  (
    record {
      timestamp = omega arith;
      input_count = omega arith;
      inputs = tt;
      params_fit = omega arith;
      params_below = omega arith;
    },
    (
      record {
        timestamp = omega arith;
        input_count = omega arith;
        inputs = omega arith;
        params_fit = omega arith;
        params_below = omega arith;
      },
      tt,
    ),
  ),
)

parse_history_section-Decodes_example :
    Reads (parse_history_section 4096) (history_bytes two_entries) two_entries
parse_history_section-Decodes_example =
    (parse_history_section-Decodes 4096).reads two_entries two_entries_valid
