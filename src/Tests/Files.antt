-- ===== src/Tests/Files.antt =====
-- CSV text.
use exarrow_rs.Csv.Fuel.{parse_csv_returns}
use exarrow_rs.Csv.RoundTrip.{IsFraming, format_table, parse_csv-format_table}
use exarrow_rs.Csv.{
  crlf, format_csv_row, format_fields, format_field, unclosed_quote, out_of_fuel, parse_csv,
}
use exarrow_rs.Prelude.Text.{Text, codes}
use exarrow_rs.Prelude.{List, [], ◌∷◌, ok, err, ◌≡◌, ◌≢◌, refl, arith}

commas : IsFraming b',' b'"'
commas = record {
  differ = omega arith;
  separator_not_lf = omega arith;
  separator_not_cr = omega arith;
  delimiter_not_lf = omega arith;
  delimiter_not_cr = omega arith;
}

abbrev table : List (List Text)
table = (codes "a,b" ∷ codes "say \"x\"" ∷ []) ∷ ([] ∷ []) ∷ (codes "1\n2" ∷ codes "z" ∷ []) ∷ []

parse_csv-format_table_example : parse_csv b',' b'"' (format_table b',' b'"' crlf table) ≡ ok table
parse_csv-format_table_example =
    parse_csv-format_table b',' b'"' commas crlf table (tt, (tt, (tt, tt)))

format_first_row :
    format_csv_row b',' b'"' (codes "a,b" ∷ codes "say \"x\"" ∷ []) crlf
    ≡ codes "\"a,b\",\"say \"\"x\"\"\"\r\n"
unfolding format_csv_row format_fields format_field
format_first_row = refl

parse_csv_unclosed : parse_csv b',' b'"' (codes "a\n\"b") ≡ err (unclosed_quote 1)
unfolding parse_csv
parse_csv_unclosed = refl

parse_csv_returns_example : parse_csv b',' b'"' (codes "a,\"b") ≢ err out_of_fuel
parse_csv_returns_example = parse_csv_returns b',' b'"' (codes "a,\"b")
