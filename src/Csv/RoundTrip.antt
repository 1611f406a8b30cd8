-- ===== src/Csv/RoundTrip.antt =====
-- `parse_csv` reads back what `format_csv_row` writes.
use exarrow_rs.Prelude.Text.{Text}
use exarrow_rs.Prelude.{
  ℕ, zero, suc, ◌+◌, ◌<◌, ◌≤◌, Bool, true, false, List, [], ◌∷◌, ◌++◌, append_assoc, some, ok, ◌≡◌,
  ◌≢◌, refl, ◌∙◌, arith, ◌==◌, length, length-append, All,
}
use exarrow_rs.Csv.{
  RowSeparator, lf, cr, crlf, row_end, starts_with_char, format_field, format_fields,
  format_csv_row, next_row, complete_row, parse_rows, parse_csv, needs_quoting, contains_char,
}
use exarrow_rs.Csv.Fields.{next_row-format_field}

-- The separator and the delimiter are two characters, neither of them a line break.
pub record IsFraming (separator delimiter : ℕ) : Type 0 where
  pub differ : separator ≢ delimiter
  pub separator_not_lf : separator ≢ b'\n'
  pub separator_not_cr : separator ≢ b'\r'
  pub delimiter_not_lf : delimiter ≢ b'\n'
  pub delimiter_not_cr : delimiter ≢ b'\r'

abbrev pub IsRow : List Text → Type 0
IsRow [] = ⊥
IsRow (v ∷ vs) = Unit

module _ (separator delimiter : ℕ) where
  -- The rows of a table, each as `format_csv_row` writes it.
  unfoldable pub format_table : RowSeparator → List (List Text) → Text
  unfolding format_csv_row
  format_table sep [] = []
  format_table sep (row ∷ rows) =
      format_csv_row separator delimiter row sep ++ format_table sep rows

module _ (separator delimiter : ℕ) (framing : IsFraming separator delimiter) where
  next_row_separator :
      (row : List Text) (field t : Text) (any : Bool)
      → next_row separator delimiter row field false any (separator ∷ t)
        ≡ next_row separator delimiter (row ++ (field ∷ [])) [] false true t
  unfolding next_row
  next_row_separator row field t any =
      let other : (separator == delimiter) ≡ false = ground (arith, framing.differ) in
      let same : (separator == separator) ≡ true = ground arith in rw (other, same) refl

  -- The rest does not make the row's end a longer one.
  abbrev IsApart : RowSeparator → Text → Type 0
  IsApart lf rest = Unit
  IsApart crlf rest = Unit
  IsApart cr rest = starts_with_char b'\n' rest ≡ false

  next_row-row_end :
      (sep : RowSeparator) (row : List Text) (field rest : Text) (any : Bool)
      → IsApart sep rest
      → next_row separator delimiter row field false any (row_end sep ++ rest)
        ≡ (complete_row separator delimiter row field, rest)
  unfolding next_row row_end
  next_row-row_end lf row field rest any h = ground (arith, framing)
  next_row-row_end cr row field rest any h = ground (arith, framing)
  next_row-row_end crlf row field rest any h = ground (arith, framing)

  field_before_end :
      (sep : RowSeparator) (row : List Text) (v rest : Text) (any : Bool)
      → next_row separator delimiter row [] false any
          (format_field separator delimiter v ++ (row_end sep ++ rest))
        ≡ next_row separator delimiter row v false true (row_end sep ++ rest)
  unfolding row_end
  field_before_end lf row v rest any =
      next_row-format_field separator delimiter row v any b'\n' rest (ground (arith, framing))
  field_before_end cr row v rest any =
      next_row-format_field separator delimiter row v any b'\r' rest (ground (arith, framing))
  field_before_end crlf row v rest any =
      next_row-format_field separator delimiter row v any b'\r' (b'\n' ∷ rest)
        (ground (arith, framing))

  next_row-format_fields :
      (sep : RowSeparator) (row : List Text) (v : Text) (vs : List Text) (rest : Text) (any : Bool)
      → IsApart sep rest
      → next_row separator delimiter row [] false any
          (format_fields separator delimiter (v ∷ vs) ++ (row_end sep ++ rest))
        ≡ (some (some (row ++ v ∷ vs)), rest)
  unfolding format_fields
  next_row-format_fields sep row v [] rest any h =
      field_before_end sep row v rest any ∙ next_row-row_end sep row v rest true h
  next_row-format_fields sep row v (w ∷ vs) rest any h =
      let other : (separator == delimiter) ≡ false = ground (arith, framing.differ) in
      let later = next_row-format_fields sep (row ++ (v ∷ [])) w vs rest true h in
      rw
        (append_assoc (format_field separator delimiter v)
          (separator ∷ format_fields separator delimiter (w ∷ vs)) (row_end sep ++ rest))
        (next_row-format_field separator delimiter row v any separator _ other
          ∙ next_row_separator row v _ true
          ∙ later
          ∙ rw (append_assoc row (v ∷ []) (w ∷ vs)) refl)

  field_start :
      (v : Text) (c : ℕ) (t : Text)
      → (c == b'\n') ≡ false
      → starts_with_char b'\n' (format_field separator delimiter v ++ c ∷ t) ≡ false
  unfolding format_field needs_quoting contains_char
  field_start [] c t h = h
  field_start (x ∷ v) c t h = ground (arith, framing)

  format_table-IsApart :
      (sep : RowSeparator) (rows : List (List Text))
      → All IsRow rows
      → IsApart sep (format_table separator delimiter sep rows)
  format_table-IsApart lf rows h = tt
  format_table-IsApart crlf rows h = tt
  format_table-IsApart cr [] h = unfold format_table in refl
  format_table-IsApart cr ([] ∷ rows) (h, hs) = absurd h
  format_table-IsApart cr ((v ∷ []) ∷ rows) h =
      unfold format_table format_csv_row format_fields row_end in
      rw
        (append_assoc (format_field separator delimiter v) (b'\r' ∷ [])
          (format_table separator delimiter cr rows))
        (field_start v b'\r' _ (ground arith))
  format_table-IsApart cr ((v ∷ w ∷ vs) ∷ rows) h =
      unfold format_table format_csv_row format_fields row_end in
      simp append_assoc (field_start v separator _ (ground (arith, framing)))

  parse_rows_more :
      (fuel n : ℕ) (s t : Text) (row : List Text) (rows : List (List Text))
      → next_row separator delimiter [] [] false false s ≡ (some (some row), t)
      → parse_rows separator delimiter fuel (n + 1) t ≡ ok rows
      → parse_rows separator delimiter (suc fuel) n s ≡ ok (row ∷ rows)
  unfolding parse_rows
  parse_rows_more fuel n s t row rows got later = rw (parse_rows, got, got, later) refl

  parse_rows-format_table :
      (sep : RowSeparator) (rows : List (List Text)) (fuel n : ℕ)
      → All IsRow rows
      → length rows < fuel
      → parse_rows separator delimiter fuel n (format_table separator delimiter sep rows) ≡ ok rows
  unfolding parse_rows format_table
  parse_rows-format_table sep rows zero n h k = absurd (omega arith)
  parse_rows-format_table sep [] (suc fuel) n h k = refl
  parse_rows-format_table sep ([] ∷ rows) (suc fuel) n (h, hs) k = absurd h
  parse_rows-format_table sep ((v ∷ vs) ∷ rows) (suc fuel) n (h, hs) k =
      let first : next_row separator delimiter [] [] false false (
            format_csv_row separator delimiter (v ∷ vs) sep
            ++ format_table separator delimiter sep rows)
          ≡ (some (some (v ∷ vs)), format_table separator delimiter sep rows) =
        unfold format_csv_row in
        rw
          (append_assoc (format_fields separator delimiter (v ∷ vs)) (row_end sep)
            (format_table separator delimiter sep rows))
          (next_row-format_fields sep [] v vs (format_table separator delimiter sep rows) false
            (format_table-IsApart sep rows hs)) in
      parse_rows_more fuel n _ (format_table separator delimiter sep rows) (v ∷ vs) rows first
        (parse_rows-format_table sep rows fuel (n + 1) hs (omega arith))

  row_end-pos : (sep : RowSeparator) → 0 < length (row_end sep)
  unfolding row_end
  row_end-pos lf = omega arith
  row_end-pos cr = omega arith
  row_end-pos crlf = omega arith

  length-format_table :
      (sep : RowSeparator) (rows : List (List Text))
      → length rows ≤ length (format_table separator delimiter sep rows)
  unfolding format_table format_csv_row
  length-format_table sep [] = omega arith
  length-format_table sep (row ∷ rows) = omega (
    arith,
    length-append {0} (format_fields separator delimiter row ++ row_end sep)
        (format_table separator delimiter sep rows),
    length-append {0} (format_fields separator delimiter row) (row_end sep),
    row_end-pos sep,
    length-format_table sep rows,
  )

  -- A table of rows, each with a field at least, written row by row with any row separator, is read back
  -- as it was: its fields may hold separators, delimiters and line breaks. The separator and the delimiter
  -- are two characters, neither of them a line break.
  pub parse_csv-format_table :
      (sep : RowSeparator) (rows : List (List Text))
      → All IsRow rows
      → parse_csv separator delimiter (format_table separator delimiter sep rows) ≡ ok rows
  unfolding parse_csv
  parse_csv-format_table sep rows h =
      parse_rows-format_table sep rows (length (format_table separator delimiter sep rows) + 1) 0 h
        (omega (arith, length-format_table sep rows))
