-- ===== src/Tests/Columns.antt =====
-- Column names and types.
use exarrow_rs.Prelude.Int.{pos}
use exarrow_rs.Prelude.Text.{codes}
use exarrow_rs.Prelude.{true, ◌++◌, some, ok, ◌≡◌, refl, arith, ◌>>=◌}
use exarrow_rs.Types.Infer.Names.{read_quoted, read_quoted-quote_column_name}
use exarrow_rs.Types.Infer.{sanitize_column_name, quote_column_name, widen_type}
use exarrow_rs.Types.Mapping.Valid.{IsDeclarable, through_arrow, arrow_to_exasol-exasol_to_arrow}
use exarrow_rs.Types.Mapping.{decimal, arrow_to_exasol, exasol_to_arrow}

sanitize_1st_name : sanitize_column_name (codes "1st name") ≡ codes "_1ST_NAME"
unfolding sanitize_column_name
sanitize_1st_name = refl

read_quoted-quote_column_name_example :
    read_quoted (quote_column_name (codes "a\"); --") ++ codes " DATE")
    ≡ some (codes "a\"); --", codes " DATE")
read_quoted-quote_column_name_example =
    read_quoted-quote_column_name (codes "a\"); --") (codes " DATE") refl

-- Eighteen digits before the point and ten behind it do not fit what the two widen to.
widen_type_loses_digits :
    widen_type (decimal 18 (pos 0)) (decimal 10 (pos 10)) ≡ decimal 18 (pos 10)
unfolding widen_type
widen_type_loses_digits = refl

arrow_to_exasol-exasol_to_arrow_example :
    (exasol_to_arrow (decimal 36 (pos 2)) >>= arrow_to_exasol (λ t. true)) ≡ ok (decimal 36 (pos 2))
unfolding through_arrow
arrow_to_exasol-exasol_to_arrow_example =
    arrow_to_exasol-exasol_to_arrow (λ t. true) (decimal 36 (pos 2))
      (unfold IsDeclarable in (omega arith, omega arith, omega arith))
