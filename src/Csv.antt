-- ===== src/Csv.antt =====
-- CSV text: `format_csv_row` of src/import/csv.rs writes a row, and `CsvRows` of src/export/csv.rs,
-- which `parse_csv` collects, reads rows. The iterator's characters are an argument that it returns
-- shortened. The fuel of `parse_rows` is one more than the text's characters, and each row takes one.
pub mod Fields
pub mod Fuel
pub mod RoundTrip
use exarrow_rs.Prelude.Text.{Text}
use exarrow_rs.Prelude.{
  ℕ, zero, suc, ◌+◌, Bool, true, false, not, ◌||◌, List, [], ◌∷◌, ◌++◌, Option, none, some, Result,
  ok, err, ◌==◌, if◌then◌else◌, length,
}

pub data RowSeparator : Type 0 where
  lf cr crlf : RowSeparator

-- `str::contains` of a character.
unfoldable pub contains_char : ℕ → Text → Bool
contains_char x [] = false
contains_char x (c ∷ s) = c == x || contains_char x s

unfoldable pub row_end : RowSeparator → Text
row_end lf = b'\n' ∷ []
row_end cr = b'\r' ∷ []
row_end crlf = b'\r' ∷ b'\n' ∷ []

pub data CsvError : Type 0 where
  -- "Unclosed quote at end of data", with the row's number
  unclosed_quote : ℕ → CsvError
  -- no run of the code gives this
  out_of_fuel : CsvError

abbrev pub starts_with_char : ℕ → Text → Bool
starts_with_char x [] = false
starts_with_char x (c ∷ s) = c == x

module _ (separator delimiter : ℕ) where
  unfoldable pub needs_quoting : Text → Bool
  unfolding contains_char
  needs_quoting value =
      contains_char separator value
      || contains_char delimiter value
      || contains_char b'\n' value
      || contains_char b'\r' value

  unfoldable pub double_delimiter : Text → Text
  double_delimiter [] = []
  double_delimiter (c ∷ s) =
      let rest = double_delimiter s in if c == delimiter then delimiter ∷ c ∷ rest else c ∷ rest

  unfoldable pub format_field : Text → Text
  unfolding needs_quoting double_delimiter
  format_field value =
      if needs_quoting value
      then delimiter ∷ (double_delimiter value ++ (delimiter ∷ []))
      else value

  -- The fields with separators between them.
  unfoldable pub format_fields : List Text → Text
  format_fields [] = []
  format_fields (v ∷ []) = format_field v
  format_fields (v ∷ w ∷ vs) = format_field v ++ separator ∷ format_fields (w ∷ vs)

  unfoldable pub format_csv_row : List Text → RowSeparator → Text
  unfolding format_fields row_end
  format_csv_row row row_separator = format_fields row ++ row_end row_separator

  -- What one call of `next` gives: no row, a row, or `none` for an unclosed quote; and the characters left.
  abbrev pub Row : Type 0
  Row = Option (Option (List Text)) × Text

  abbrev pub complete_row : List Text → Text → Option (Option (List Text))
  complete_row row field = some (some (row ++ (field ∷ [])))

  -- Behind the `while let` loop: `in_quotes`, then `consumed_any`.
  unfoldable pub at_end : List Text → Text → Bool → Bool → Row
  at_end row field true consumed_any = (some none, [])
  at_end row field false false = (none, [])
  at_end row field false true = (complete_row row field, [])

  -- The loop of `next`, with `row`, `field`, `in_quotes` and `consumed_any` as its variables.
  unfoldable pub next_row : List Text → Text → Bool → Bool → Text → Row
  unfolding at_end
  next_row row field in_quotes consumed_any [] = at_end row field in_quotes consumed_any
  next_row row field true consumed_any (c ∷ []) =
      if c == delimiter
      then at_end row field false true
      else at_end row (field ++ (c ∷ [])) true true
  next_row row field true consumed_any (c ∷ d ∷ s) =
      let pushed = next_row row (field ++ (c ∷ [])) true true (d ∷ s) in
      let doubled = next_row row (field ++ (delimiter ∷ [])) true true s in
      let closed = next_row row field false true (d ∷ s) in
      if not (c == delimiter) then pushed else if d == delimiter then doubled else closed
  next_row row field false consumed_any (c ∷ s) =
      let opened = next_row row field true true s in
      let separated = next_row (row ++ (field ∷ [])) [] false true s in
      let skipped = next_row row field false true s in
      let pushed = next_row row (field ++ (c ∷ [])) false true s in
      if c == delimiter
      then opened
      else if c == separator
      then separated
      else if c == b'\n'
      then (complete_row row field, s)
      else if c == b'\r'
      then (if starts_with_char b'\n' s then skipped else (complete_row row field, s))
      else pushed

  -- `collect` over the iterator, with the number of rows yielded.
  unfoldable pub parse_rows : ℕ → ℕ → Text → Result CsvError (List (List Text))
  unfolding next_row
  parse_rows zero rows_yielded s = err out_of_fuel
  parse_rows (suc fuel) rows_yielded s =
      let got = next_row [] [] false false s in
      let later = parse_rows fuel (rows_yielded + 1) got.1 in
      elim (got.0) [
        | none ↦ ok []
        | some none ↦ err (unclosed_quote rows_yielded)
        | some (some row) ↦ (elim later [ ok rows ↦ ok (row ∷ rows) | err e ↦ err e ])
      ]

  unfoldable pub parse_csv : Text → Result CsvError (List (List Text))
  unfolding parse_rows
  parse_csv s = parse_rows (length s + 1) 0 s
