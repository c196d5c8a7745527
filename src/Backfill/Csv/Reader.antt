-- ===== src/Backfill/Csv/Reader.antt =====
-- A strict reader of the format of RFC 4180, against which the writer of
-- modules/connectors/backfill/csv.ts is checked.
use cadena.Prelude.{ℕ, Option, none, some, List, [], ◌∷◌, ◌++◌, ◌==◌, if◌then◌else◌}
use cadena.Prelude.Text.{Text}

pub data Mode : Type 0 where
  line_start cell_start plain quoted after_quote after_return : Mode

pub record Reading : Type 0 where
  pub mode : Mode
  pub cell : Text
  pub row : List Text
  pub rows : List (List Text)

abbrev pub end_cell : Reading → Reading
end_cell r = record r { mode = cell_start; cell = []; row = r.row ++ r.cell ∷ [] }

abbrev pub end_row : Reading → Reading
end_row r = record {
  mode = line_start;
  cell = [];
  row = [];
  rows = r.rows ++ (r.row ++ r.cell ∷ []) ∷ [];
}

abbrev pub keep : Reading → Mode → (c : ℕ) → Reading
keep r m c = record r { mode = m; cell = r.cell ++ c ∷ [] }

-- At `,` and at the line break, wherever a cell may end.
abbrev read_end : Reading → (c : ℕ) → Option Reading → Option Reading
read_end r c otherwise =
    if c == b','
    then some (end_cell r)
    else if c == b'\r'
    then some (record r { mode = after_return })
    else otherwise

abbrev read_plain : Reading → (c : ℕ) → Option Reading
read_plain r c =
    read_end r c (if c == b'\n' then none else if c == b'"' then none else some (keep r plain c))

abbrev read_first : Reading → (c : ℕ) → Option Reading
read_first r c = if c == b'"' then some (record r { mode = quoted }) else read_plain r c

abbrev read_char_in : Mode → Reading → (c : ℕ) → Option Reading
read_char_in line_start r c = read_first r c
read_char_in cell_start r c = read_first r c
read_char_in plain r c = read_plain r c
read_char_in quoted r c =
    if c == b'"' then some (record r { mode = after_quote }) else some (keep r quoted c)
read_char_in after_quote r c = read_end r c (if c == b'"' then some (keep r quoted c) else none)
read_char_in after_return r c = if c == b'\n' then some (end_row r) else none

unfoldable pub read_char : Reading → (c : ℕ) → Option Reading
read_char r c = read_char_in r.mode r c

-- A text ends with a line break.
abbrev finish : Mode → List (List Text) → Option (List (List Text))
finish line_start rows = some rows
finish _ rows = none

unfoldable pub read_from : Reading → Text → Option (List (List Text))
read_from r [] = finish r.mode r.rows
read_from r (c ∷ s) = elim (read_char r c) [ none ↦ none | some q ↦ read_from q s ]

abbrev pub nothing_read : Reading
nothing_read = record { mode = line_start; cell = []; row = []; rows = [] }

unfoldable pub read_csv : Text → Option (List (List Text))
read_csv = read_from nothing_read
