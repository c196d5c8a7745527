-- ===== src/Backfill/Csv/RoundTrip.antt =====
-- modules/connectors/backfill/csv.ts: a reader of RFC 4180 gets back what was written.
use mathlib.Core.List.{append_assoc}
use cadena.Prelude.{
  ℕ, ◌⊎◌, ◌||◌, ◌==◌, Bool, Bool-cases, inl, inr, false, sym, ◌≡◌, ◌≢◌, refl, ◌∙◌, true, false,
  some, List, [], ◌∷◌, ◌++◌, arith, All,
}
use cadena.Prelude.Text.{Text, codes, join}
use cadena.Backfill.Csv.{
  Cell, absent, string, printed, cell_text, csv_row, csv_rows, header_cells, to_csv, formula_lead,
  line_break,
}
use cadena.Backfill.Csv.Reader.{
  Mode, line_start, cell_start, plain, after_return, read_char, read_from, read_csv,
}
use cadena.Backfill.Csv.Cells.{at, begins, read_step, read_cell}

-- The texts of a row's cells, and those of all rows.
abbrev pub shown : List Cell → List Text
shown [] = []
shown (c ∷ cs) = cell_text c ∷ shown cs

abbrev pub shown_rows : List (List Cell) → List (List Text)
shown_rows [] = []
shown_rows (r ∷ rs) = shown r ∷ shown_rows rs

join-one : (sep s : Text) → join sep (s ∷ []) ≡ s
unfolding join
join-one sep s = refl

join-cons :
    (sep s t u : Text) (ts : List Text)
    → join sep (s ∷ t ∷ ts) ++ u ≡ s ++ (sep ++ (join sep (t ∷ ts) ++ u))
unfolding join
join-cons sep s t u ts = append_assoc (s ++ sep) (join sep (t ∷ ts)) u ∙ append_assoc s sep _

read_row :
    (c : Cell) (cs : List Cell) (m : Mode) (s : Text) (row : List Text) (rows : List (List Text))
    → begins m ≡ true
    → read_from (at m [] row rows) (csv_row (c ∷ cs) ++ b'\r' ∷ b'\n' ∷ s)
      ≡ read_from (at line_start [] [] (rows ++ (row ++ shown (c ∷ cs)) ∷ [])) s
unfolding csv_row read_char
read_row c [] m s row rows b = rw join-one (
    read_cell c (b'\n' ∷ s) m b'\r' row rows b refl
    ∙ (read_step (at plain (cell_text c) row rows) (at after_return (cell_text c) row rows) b'\r'
          (b'\n' ∷ s) refl
        ∙ read_step (at after_return (cell_text c) row rows)
            (at line_start [] [] (rows ++ (row ++ cell_text c ∷ []) ∷ [])) b'\n' s refl))
read_row c (d ∷ cs) m s row rows b =
    let rest_text = csv_row (d ∷ cs) ++ b'\r' ∷ b'\n' ∷ s in
    let rest = read_row d cs cell_start s (row ++ cell_text c ∷ []) rows refl in
    let first =
      read_cell c rest_text m b',' row rows b refl
      ∙ read_step (at plain (cell_text c) row rows)
          (at cell_start [] (row ++ cell_text c ∷ []) rows) b',' rest_text refl in
    rw join-cons (first ∙ (rest ∙ rw append_assoc refl))

-- The tables that the reader tells apart: RFC 4180 writes a row without cells like one with an empty
-- cell.
abbrev pub HasCells : List (List Cell) → Type 0
HasCells = All (λ r. r ≢ [])

read_rows :
    (r : List Cell) (rs : List (List Cell)) (rows : List (List Text))
    → HasCells (r ∷ rs)
    → read_from (at line_start [] [] rows) (join line_break (csv_rows (r ∷ rs)) ++ line_break)
      ≡ some (rows ++ shown_rows (r ∷ rs))
unfolding read_from
read_rows [] rs rows h = absurd (h.0 refl)
read_rows (c ∷ cs) [] rows h = rw join-one (read_row c cs line_start [] [] rows refl)
read_rows (c ∷ cs) (r ∷ rs) rows h = rw join-cons (
    read_row c cs line_start (join line_break (csv_rows (r ∷ rs)) ++ line_break) [] rows refl
    ∙ (read_rows r rs (rows ++ shown (c ∷ cs) ∷ []) h.1 ∙ rw append_assoc refl))

-- What makes a spreadsheet take a text for a formula: its first character is one of `=`, `+`, `-`, `@`, a tab
-- and a carriage return.
abbrev pub leads : Text → (c : ℕ) → Bool
leads [] c = false
leads (x ∷ xs) c = x == c || leads xs c

abbrev pub is_formula : Text → Bool
is_formula [] = false
is_formula (c ∷ t) = leads (codes "=+-@\t\r") c

-- What is to be read for a string: the string, behind an apostrophe where it is a formula.
abbrev pub ReadsAsString : (t read : Text) → Type 0
ReadsAsString t read =
    ((is_formula t ≡ false) × (read ≡ t)) ⊎ ((is_formula t ≡ true) × (read ≡ b'\'' ∷ t))

-- What is to be read for a cell.
abbrev pub ReadsAs : Cell → (read : Text) → Type 0
ReadsAs absent read = read ≡ []
ReadsAs (printed t) read = read ≡ t
ReadsAs (string t) read = ReadsAsString t read

abbrev pub ReadAs : List Cell → List Text → Type 0
ReadAs [] [] = Unit
ReadAs (c ∷ cs) (t ∷ ts) = ReadsAs c t × ReadAs cs ts
ReadAs [] (t ∷ ts) = ⊥
ReadAs (c ∷ cs) [] = ⊥

abbrev pub RowsReadAs : List (List Cell) → List (List Text) → Type 0
RowsReadAs [] [] = Unit
RowsReadAs (r ∷ rs) (t ∷ ts) = ReadAs r t × RowsReadAs rs ts
RowsReadAs [] (t ∷ ts) = ⊥
RowsReadAs (r ∷ rs) [] = ⊥

-- The header's cells are strings.
abbrev pub HeaderReadAs : List Text → List Text → Type 0
HeaderReadAs [] [] = Unit
HeaderReadAs (h ∷ hs) (t ∷ ts) = ReadsAsString h t × HeaderReadAs hs ts
HeaderReadAs [] (t ∷ ts) = ⊥
HeaderReadAs (h ∷ hs) [] = ⊥

formula_lead-is_formula : (t : Text) → formula_lead t ≡ is_formula t
formula_lead-is_formula [] = refl
formula_lead-is_formula (c ∷ t) = ground arith

string-ReadsAs : (t : Text) → ReadsAsString t (cell_text (string t))
unfolding cell_text
string-ReadsAs t =
    let same = formula_lead-is_formula t in
    elim (Bool-cases (formula_lead t)) [
      | inl y ↦ inr (sym same ∙ y, rw y refl)
      | inr n ↦ inl (sym same ∙ n, rw n refl)
    ]

cell-ReadsAs : (c : Cell) → ReadsAs c (cell_text c)
unfolding cell_text
cell-ReadsAs absent = refl
cell-ReadsAs (printed t) = refl
cell-ReadsAs (string t) = string-ReadsAs t

row-ReadAs : (cs : List Cell) → ReadAs cs (shown cs)
row-ReadAs [] = tt
row-ReadAs (c ∷ cs) = (cell-ReadsAs c, row-ReadAs cs)

rows-RowsReadAs : (rs : List (List Cell)) → RowsReadAs rs (shown_rows rs)
rows-RowsReadAs [] = tt
rows-RowsReadAs (r ∷ rs) = (row-ReadAs r, rows-RowsReadAs rs)

header-HeaderReadAs : (ts : List Text) → HeaderReadAs ts (shown (header_cells ts))
header-HeaderReadAs [] = tt
header-HeaderReadAs (t ∷ ts) = (string-ReadsAs t, header-HeaderReadAs ts)

-- The report reads back: a reader of RFC 4180 gets from the written text one row for the header and one
-- for each row, cell by cell: a string as it is, or behind an apostrophe where it starts as a formula
-- does, a value of another kind as it is printed, and nothing for a missing one; whatever quotes,
-- commas and line breaks the cells hold. There is a header, and each row has a cell.
pub read_csv-to_csv :
    (header : List Text) (rows : List (List Cell))
    → header ≢ []
    → HasCells rows
    → (first : List Text) × (others : List (List Text)) × (read_csv (to_csv header rows)
        ≡ some (first ∷ others))
      × HeaderReadAs header first
      × RowsReadAs rows others
unfolding read_csv to_csv
read_csv-to_csv [] rows h hs = absurd (h refl)
read_csv-to_csv (t ∷ ts) rows h hs = (
  shown (header_cells (t ∷ ts)),
  shown_rows rows,
  read_rows (string t ∷ header_cells ts) rows [] ((λ e. cc), hs),
  header-HeaderReadAs (t ∷ ts),
  rows-RowsReadAs rows,
)
