-- ===== src/Tests/Sql.antt =====
-- SQL texts, bound statements and batches.
use exarrow_rs.Prelude.Int.{pos}
use exarrow_rs.Prelude.Text.{Text, codes, byte_len, len_utf8}
use exarrow_rs.Prelude.{
  ℕ, false, List, [], ◌∷◌, Option, none, some, ok, err, ◌≡◌, ◌≢◌, refl, arith, length, All,
  and_then, ltb, ◌>>=◌, if◌then◌else◌,
}
use exarrow_rs.Query.Parameter.{
  Parameter, null, integer, string, parameter_binding_error, not_enough_bound, row_length, contains,
  contains_any, starts_with, to_uppercase, contains_sql_injection_pattern,
}
use exarrow_rs.Query.Prepared.Batch.{entry, HasWidth, build_batch_transposed, build_batch_refused}
use exarrow_rs.Query.Prepared.{PreparedStatement, parameter_to_json, build_batch_parameters_data}
use exarrow_rs.Query.Scan.Pieces.{pieces}
use exarrow_rs.Query.Scan.Tokens.{
  Token, symbol, hole, literal, line, doubled, print, print_all, is_fine, AllFine, hole_offsets,
  scan_placeholders-print_all,
}
use exarrow_rs.Query.Scan.{normal, scan_placeholders}
use exarrow_rs.Query.Statement.Binding.{bound, are_apart, count_holes, build_sql-bound}
use exarrow_rs.Query.Statement.Build.{holes, fill, literals, build_sql-fill}
use exarrow_rs.Query.Statement.Safe.{build_sql-ne-panic}
use exarrow_rs.Query.Statement.{Statement, other, query, panic, literal_at, build_sql}
use exarrow_rs.Tests.Platforms.{whole_floats, tree_json, JsonValue}

abbrev statement : Text → List (Option (Parameter ℕ)) → Statement ℕ
statement sql ps = record { sql = sql; parameters = ps; timeout_ms = none; statement_type = other }

abbrev template : List Token
template =
    symbol b'A' ∷ literal b'\'' (codes "?") ∷ symbol b',' ∷ hole ∷ line (codes " why?") ∷ hole ∷ []

template-AllFine : AllFine template
unfolding is_fine print print_all doubled
template-AllFine = (refl, (refl, (refl, (refl, (refl, (refl, tt))))))

scan_placeholders-print_all_example : scan_placeholders (print_all template) ≡ 5 ∷ 14 ∷ []
unfolding hole_offsets print doubled byte_len len_utf8
scan_placeholders-print_all_example = scan_placeholders-print_all template template-AllFine

abbrev texts : List Text
texts = codes "it's" ∷ codes "?--" ∷ []

abbrev bound_statement : Statement ℕ
bound_statement =
    statement (codes "A'?',?-- why?\n?")
      (some (string (codes "it's")) ∷ some (string (codes "?--")) ∷ [])

texts_pass : All (λ s. contains_sql_injection_pattern whole_floats s ≡ false) texts
unfolding contains_sql_injection_pattern contains_any contains starts_with to_uppercase
texts_pass = (refl, (refl, tt))

build_sql-bound_example :
    (build_sql whole_floats bound_statement ≡ ok (print_all (bound template texts)))
    × AllFine (bound template texts)
    × (scan_placeholders (print_all (bound template texts)) ≡ [])
build_sql-bound_example =
    build_sql-bound whole_floats template texts bound_statement template-AllFine
      (unfold are_apart in refl) (unfold count_holes in refl) texts_pass
      (unfold print_all print doubled in refl) refl

printed_bound : print_all (bound template texts) ≡ codes "A'?','it''s'-- why?\n'?--'"
unfolding print_all print doubled bound
printed_bound = refl

build_sql-fill_example : build_sql whole_floats bound_statement ≡ (
    let ps = pieces normal bound_statement.sql in
    if ltb (length bound_statement.parameters) (holes ps)
    then err (query (parameter_binding_error (length bound_statement.parameters) not_enough_bound))
    else literals (literal_at whole_floats bound_statement.parameters) 0 (holes ps) >>= λ ls.
        ok (fill ps ls))
build_sql-fill_example = build_sql-fill whole_floats bound_statement

build_sql-ne-panic_example :
    build_sql whole_floats (statement (codes "?é?") (some null ∷ [])) ≢ err panic
build_sql-ne-panic_example =
    build_sql-ne-panic whole_floats (statement (codes "?é?") (some null ∷ []))

abbrev two_columns : PreparedStatement ℕ
two_columns = record {
  handle = pos 3;
  num_params = 2;
  parameters = none ∷ none ∷ [];
  is_closed = false;
}

abbrev first_row : List (Parameter ℕ)
first_row = integer (pos 1) ∷ string (codes "a") ∷ []

abbrev second_row : List (Parameter ℕ)
second_row = integer (pos 2) ∷ null ∷ []

build_batch_transposed_example :
    (table : List (List JsonValue)) × (build_batch_parameters_data whole_floats tree_json
        two_columns
        (first_row ∷ second_row ∷ [])
      ≡ ok (some table))
    × (length table ≡ 2)
    × All (HasWidth 2) table
    × ((c r : ℕ)
        → entry table c r
          ≡ and_then
              (entry (first_row ∷ second_row ∷ []) r c)
              (λ p. some (parameter_to_json whole_floats tree_json p)))
build_batch_transposed_example =
    build_batch_transposed whole_floats tree_json two_columns first_row (second_row ∷ [])
      (refl, (refl, tt))

build_batch_refused_example :
    build_batch_parameters_data whole_floats tree_json two_columns
      (first_row ∷ (null ∷ []) ∷ second_row ∷ [])
    ≡ err (query (parameter_binding_error 1 (row_length 1 2)))
build_batch_refused_example =
    build_batch_refused whole_floats tree_json two_columns (first_row ∷ []) (null ∷ [])
      (second_row ∷ []) (refl, tt) (omega arith)
