-- ===== src/Backfill/Csv/Cells.antt =====
-- modules/connectors/backfill/csv.ts: a reader of RFC 4180 on one cell.
use mathlib.Core.List.{append_assoc, append-nil}
use cadena.Prelude.{
  ℕ, ◌≡◌, refl, sym, ◌∙◌, ap, Bool, true, false, Bool-cases, some, List, [], ◌∷◌, ◌++◌, ◌||◌, ◌==◌,
  inl, inr, arith,
}
use cadena.Prelude.Text.{Text}
use cadena.Backfill.Csv.{
  Cell, absent, string, printed, cell_text, quoted, csv_cell, has_special, double_quotes,
}
use cadena.Backfill.Csv.Reader.{
  Mode, Reading, line_start, cell_start, plain, after_quote, after_return, read_char, read_from,
  read_csv,
}
use cadena.Backfill.Csv.Reader

abbrev pub at : Mode → Text → List Text → List (List Text) → Reading
at m f row rows = record { mode = m; cell = f; row = row; rows = rows }

pub read_step :
    (r q : Reading) (c : ℕ) (s : Text)
    → read_char r c ≡ some q
    → read_from r (c ∷ s) ≡ read_from q s
unfolding read_from
read_step r q c s e = rw (read_from, e) refl

plain_run :
    (t f s : Text) (row : List Text) (rows : List (List Text))
    → has_special t ≡ false
    → read_from (at plain f row rows) (t ++ s) ≡ read_from (at plain (f ++ t) row rows) s
unfolding read_char has_special
plain_run [] f s row rows h = rw append-nil refl
plain_run (c ∷ t) f s row rows h =
    let rest = plain_run t (f ++ c ∷ []) s row rows (ground arith) in
    read_step (at plain f row rows) (at plain (f ++ c ∷ []) row rows) c (t ++ s) (ground arith)
    ∙ (rest ∙ rw append_assoc refl)

quoted_run :
    (t f s : Text) (row : List Text) (rows : List (List Text))
    → read_from (at Reader.quoted f row rows) (double_quotes t ++ b'"' ∷ s)
      ≡ read_from (at after_quote (f ++ t) row rows) s
unfolding read_char double_quotes
quoted_run [] f s row rows =
    rw append-nil
      (read_step (at Reader.quoted f row rows) (at after_quote f row rows) b'"' s (ground arith))
quoted_run (c ∷ t) f s row rows = elim (Bool-cases (c == b'"')) [
  | inr n ↦
      let rest = quoted_run t (f ++ c ∷ []) s row rows in
      rw n (
        read_step (at Reader.quoted f row rows) (at Reader.quoted (f ++ c ∷ []) row rows) c _
          (ground arith)
        ∙ (rest ∙ rw append_assoc refl))
  | inl y ↦
      let is_quote : c ≡ b'"' = ground arith in
      let same_cell =
        ap (λ d. read_from (at Reader.quoted (f ++ d ∷ []) row rows) (double_quotes t ++ b'"' ∷ s))
          (sym is_quote) in
      let rest : read_from (at Reader.quoted (f ++ b'"' ∷ []) row rows)
            (double_quotes t ++ b'"' ∷ s)
          ≡ read_from (at after_quote (f ++ c ∷ t) row rows) s =
        same_cell ∙ (quoted_run t (f ++ c ∷ []) s row rows ∙ rw append_assoc refl) in
      let escaped = b'"' ∷ double_quotes t ++ b'"' ∷ s in
      rw y (
        read_step (at Reader.quoted f row rows) (at after_quote f row rows) b'"' escaped refl
        ∙ (read_step (at after_quote f row rows) (at Reader.quoted (f ++ b'"' ∷ []) row rows) b'"'
              (double_quotes t ++ b'"' ∷ s) refl
            ∙ rest))
]

-- Where a cell begins, and what stands behind one.
abbrev pub begins : Mode → Bool
begins line_start = true
begins cell_start = true
begins _ = false

abbrev pub ends_cell : ℕ → Bool
ends_cell d = d == b',' || d == b'\r'

read_from_same :
    (r q : Reading) (c : ℕ) (s : Text)
    → read_char r c ≡ read_char q c
    → read_from r (c ∷ s) ≡ read_from q (c ∷ s)
unfolding read_from
read_from_same r q c s e = rw (read_from, e) refl

end_modes :
    (f s : Text) (row : List Text) (rows : List (List Text)) (d : ℕ)
    → ends_cell d ≡ true
    → read_from (at after_quote f row rows) (d ∷ s) ≡ read_from (at plain f row rows) (d ∷ s)
unfolding read_char
end_modes f s row rows d h = read_from_same _ _ d s (ground arith)

first_char :
    (m : Mode) (c : ℕ) (s : Text) (row : List Text) (rows : List (List Text))
    → begins m ≡ true
    → (c == b'"') ≡ false
    → read_from (at m [] row rows) (c ∷ s) ≡ read_from (at plain [] row rows) (c ∷ s)
unfolding read_char
first_char line_start c s row rows b h = read_from_same _ _ c s (ground arith)
first_char cell_start c s row rows b h = read_from_same _ _ c s (ground arith)
first_char plain c s row rows b h = cc
first_char after_quote c s row rows b h = cc
first_char after_return c s row rows b h = cc
first_char Reader.quoted c s row rows b h = cc

opens :
    (m : Mode) (row : List Text) (rows : List (List Text))
    → begins m ≡ true
    → read_char (at m [] row rows) b'"' ≡ some (at Reader.quoted [] row rows)
unfolding read_char
opens line_start row rows b = refl
opens cell_start row rows b = refl
opens plain row rows b = cc
opens after_quote row rows b = cc
opens after_return row rows b = cc
opens Reader.quoted row rows b = cc

read_quoted :
    (t s : Text) (m : Mode) (d : ℕ) (row : List Text) (rows : List (List Text))
    → begins m ≡ true
    → ends_cell d ≡ true
    → read_from (at m [] row rows) (quoted t ++ d ∷ s) ≡ read_from (at plain t row rows) (d ∷ s)
unfolding has_special
read_quoted [] s m d row rows b e = first_char m d s row rows b (ground arith)
read_quoted (c ∷ t) s m d row rows b e = elim (Bool-cases (has_special (c ∷ t))) [
  | inr n ↦ rw n (
      first_char m c (t ++ d ∷ s) row rows b (ground arith)
      ∙ plain_run (c ∷ t) [] (d ∷ s) row rows n)
  | inl y ↦
      rw (y, append_assoc)
        (read_step (at m [] row rows) (at Reader.quoted [] row rows) b'"' _ (opens m row rows b)
          ∙ (quoted_run (c ∷ t) [] (d ∷ s) row rows ∙ end_modes (c ∷ t) s row rows d e))
]

pub read_cell :
    (k : Cell) (s : Text) (m : Mode) (d : ℕ) (row : List Text) (rows : List (List Text))
    → begins m ≡ true
    → ends_cell d ≡ true
    → read_from (at m [] row rows) (csv_cell k ++ d ∷ s)
      ≡ read_from (at plain (cell_text k) row rows) (d ∷ s)
unfolding csv_cell cell_text
read_cell absent s m d row rows b e = first_char m d s row rows b (ground arith)
read_cell (string t) s m d row rows b e = read_quoted (cell_text (string t)) s m d row rows b e
read_cell (printed t) s m d row rows b e = read_quoted t s m d row rows b e
