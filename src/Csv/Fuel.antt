-- ===== src/Csv/Fuel.antt =====
-- Reading rows comes to an end.
use exarrow_rs.Prelude.Text.{Text}
use exarrow_rs.Prelude.{
  ℕ, zero, suc, ◌+◌, ◌-◌, ◌<◌, ◌≤◌, Bool, true, false, List, [], ◌∷◌, ◌++◌, none, some, ok, err,
  ◌≡◌, ◌≢◌, refl, sym, ◌∙◌, arith, length, Result, Option,
}
use exarrow_rs.Csv.{at_end, next_row, parse_rows, parse_csv, out_of_fuel, unclosed_quote, CsvError}

module _ (separator delimiter : ℕ) where
  at_end_left :
      (row : List Text) (field : Text) (q any : Bool)
      → (at_end separator delimiter row field q any).1 ≡ []
  unfolding at_end
  at_end_left row field true any = refl
  at_end_left row field false true = refl
  at_end_left row field false false = refl

  next_row_shorter :
      (row : List Text) (field : Text) (q any : Bool) (s : Text)
      → length (next_row separator delimiter row field q any s).1 ≤ length s - 1
  unfolding next_row
  next_row_shorter row field q any [] = rw (at_end_left row field q any) (omega arith)
  next_row_shorter row field true any (c ∷ []) =
      ground
        (arith, at_end_left row field false true, at_end_left row (field ++ (c ∷ [])) true true)
  next_row_shorter row field true any (c ∷ d ∷ s) = ground (
    arith,
    next_row_shorter row (field ++ (c ∷ [])) true true (d ∷ s),
    next_row_shorter row (field ++ (delimiter ∷ [])) true true s,
    next_row_shorter row field false true (d ∷ s),
  )
  next_row_shorter row field false any (c ∷ s) = ground (
    arith,
    next_row_shorter row field true true s,
    next_row_shorter (row ++ (field ∷ [])) [] false true s,
    next_row_shorter row field false true s,
    next_row_shorter row (field ++ (c ∷ [])) false true s,
  )

  abbrev yielded :
      Option (Option (List Text))
      → ℕ
      → Result CsvError (List (List Text))
      → Result CsvError (List (List Text))
  yielded none n later = ok []
  yielded (some none) n later = err (unclosed_quote n)
  yielded (some (some row)) n (ok rows) = ok (row ∷ rows)
  yielded (some (some row)) n (err e) = err e

  yielded_returns :
      (o : Option (Option (List Text))) (n : ℕ) (later : Result CsvError (List (List Text)))
      → later ≢ err out_of_fuel
      → yielded o n later ≢ err out_of_fuel
  yielded_returns none n later h e = cc
  yielded_returns (some none) n later h e = cc
  yielded_returns (some (some row)) n (ok rows) h e = cc
  yielded_returns (some (some row)) n (err x) h e = h e

  parse_rows-yielded :
      (fuel n : ℕ) (s : Text)
      → parse_rows separator delimiter (suc fuel) n s
        ≡ yielded (next_row separator delimiter [] [] false false s).0 n (
            parse_rows separator delimiter fuel
              (n + 1)
              (next_row separator delimiter [] [] false false s).1)
  unfolding parse_rows
  parse_rows-yielded fuel n s = ground arith

  parse_rows_returns :
      (fuel n : ℕ) (s : Text)
      → length s < fuel
      → parse_rows separator delimiter fuel n s ≢ err out_of_fuel
  parse_rows_returns zero n s h e = omega arith
  parse_rows_returns (suc fuel) n [] h e = unfold parse_rows next_row at_end in cc
  parse_rows_returns (suc fuel) n (c ∷ s) h e =
      let got = next_row separator delimiter [] [] false false (c ∷ s) in
      let shorter = next_row_shorter [] [] false false (c ∷ s) in
      let later = parse_rows_returns fuel (n + 1) got.1 (omega arith) in
      yielded_returns got.0 n (parse_rows separator delimiter fuel (n + 1) got.1) later
        (sym (parse_rows-yielded fuel n (c ∷ s)) ∙ e)

  -- Reading a whole text comes to an end: `parse_csv` gives rows or the unclosed quote, with one more fuel
  -- than the text has characters.
  pub parse_csv_returns : (s : Text) → parse_csv separator delimiter s ≢ err out_of_fuel
  unfolding parse_csv
  parse_csv_returns s = parse_rows_returns (length s + 1) 0 s (omega arith)
