-- ===== src/Backfill/Csv/Tests.antt =====
-- modules/connectors/backfill/csv.ts: a report at a concrete input.
use cadena.Prelude.{◌≡◌, refl, some, List, [], ◌∷◌}
use cadena.Prelude.Text.{Text, codes, join}
use cadena.Backfill.Csv.{
  Cell, absent, string, printed, to_csv, csv_row, csv_cell, cell_text, has_special, double_quotes,
}
use cadena.Backfill.Csv.Reader.{read_csv}
use cadena.Backfill.Csv.RoundTrip.{HeaderReadAs, RowsReadAs, read_csv-to_csv}

abbrev titles : List Text
titles = codes "id" ∷ codes "title, \"as is\"" ∷ []

abbrev report_rows : List (List Cell)
report_rows = (printed (codes "-7") ∷ string (codes "=SUM(A1)") ∷ absent ∷ []) ∷ []

report_text : to_csv titles report_rows ≡ codes "id,\"title, \"\"as is\"\"\"\r\n-7,'=SUM(A1),\r\n"
unfolding to_csv csv_row csv_cell cell_text has_special double_quotes join
report_text = refl

read_csv-to_csv_example :
    (first : List Text) × (others : List (List Text)) × (read_csv (to_csv titles report_rows)
      ≡ some (first ∷ others))
    × HeaderReadAs titles first
    × RowsReadAs report_rows others
read_csv-to_csv_example = read_csv-to_csv titles report_rows (λ e. cc) ((λ e. cc), tt)
