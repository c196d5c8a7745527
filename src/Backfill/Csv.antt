-- ===== src/Backfill/Csv.antt =====
-- modules/connectors/backfill/csv.ts: the writer of the audit report of a backfill.
pub mod Reader
pub mod Cells
pub mod RoundTrip
mod Tests
use cadena.Prelude.{Bool, true, false, List, [], ◌∷◌, ◌++◌, ◌||◌, ◌==◌, if◌then◌else◌, ℕ}
use cadena.Prelude.Text.{Text, join}

-- A cell's value: null or undefined; a string; or a value of another kind, as `toISOString` or
-- `String` writes it.
pub data Cell : Type 0 where
  absent : Cell
  string printed : Text → Cell

-- The pattern `FORMULA_LEAD`.
abbrev pub formula_lead : Text → Bool
formula_lead [] = false
formula_lead (c ∷ s) =
    c == b'=' || (c == b'+' || (c == b'-' || (c == b'@' || (c == b'\t' || c == b'\r'))))

abbrev pub is_special : (c : ℕ) → Bool
is_special c = c == b'"' || (c == b',' || (c == b'\r' || c == b'\n'))

unfoldable pub has_special : Text → Bool
has_special [] = false
has_special (c ∷ s) = if is_special c then true else has_special s

-- `text.replace(/"/g, '""')`
unfoldable pub double_quotes : Text → Text
double_quotes [] = []
double_quotes (c ∷ s) =
    let rest = double_quotes s in if c == b'"' then b'"' ∷ b'"' ∷ rest else c ∷ rest

-- The text of a cell, behind an apostrophe where a spreadsheet would take it for a formula.
unfoldable pub cell_text : Cell → Text
cell_text absent = []
cell_text (string t) = if formula_lead t then b'\'' ∷ t else t
cell_text (printed t) = t

abbrev pub quoted : Text → Text
quoted t = if has_special t then b'"' ∷ double_quotes t ++ b'"' ∷ [] else t

unfoldable pub csv_cell : Cell → Text
csv_cell absent = []
csv_cell (string t) = quoted (cell_text (string t))
csv_cell (printed t) = quoted t

abbrev csv_cells : List Cell → List Text
csv_cells [] = []
csv_cells (c ∷ cs) = csv_cell c ∷ csv_cells cs

unfoldable pub csv_row : List Cell → Text
csv_row cells = join (b',' ∷ []) (csv_cells cells)

abbrev csv_rows : List (List Cell) → List Text
csv_rows [] = []
csv_rows (r ∷ rs) = csv_row r ∷ csv_rows rs

abbrev pub line_break : Text
line_break = b'\r' ∷ b'\n' ∷ []

-- The header's cells are strings.
abbrev header_cells : List Text → List Cell
header_cells [] = []
header_cells (t ∷ ts) = string t ∷ header_cells ts

unfoldable pub to_csv : (header : List Text) → (rows : List (List Cell)) → Text
to_csv header rows = join line_break (csv_row (header_cells header) ∷ csv_rows rows) ++ line_break
