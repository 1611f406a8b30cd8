-- ===== src/Tests/Batches.antt =====
-- A batch of three rows, in messages of at most two.
use exarrow_rs.Native.Batches.Errors.{split_parameter_rows-err}
use exarrow_rs.Native.Batches.Messages.{rows_between, split_parameter_rows-Sends, Sends}
use exarrow_rs.Native.Batches.{
  ParameterColumn, panic, parameter_columns, write_parameter_rows, build_execute_prepared_payload,
  JsonView, BatchError, EncodedParameterRows, RowRange, PreparedStatementHandle, columns_from,
  write_row, write_rows, column_headers, payload_prefix,
}
use exarrow_rs.Native.Batches.Split.{split_loop, split_parameter_rows, message_overhead}
use exarrow_rs.Prelude.Bytes.{Bytes, to_le_bytes}
use exarrow_rs.Prelude.Decimal.{show_nat}
use exarrow_rs.Prelude.Int.{ℤ, pos}
use exarrow_rs.Prelude.Text.{as_bytes, utf8}
use exarrow_rs.Prelude.{some, ℕ, true, false, List, [], ◌∷◌, Result, ok, err, ◌≡◌, refl}

-- Values are whole numbers.
abbrev numbers : JsonView
numbers = record {
  Value = ℕ;
  is_boolean = λ v. false;
  is_number = λ v. true;
  is_f64 = λ v. false;
  is_i64 = λ v. true;
  is_u64 = λ v. true;
}

abbrev write_number : ℕ → ℕ → ℤ → Result BatchError Bytes
write_number wire_type value scale = ok (1 ∷ value ∷ 0 ∷ 0 ∷ 0 ∷ [])

abbrev two_numbers : PreparedStatementHandle
two_numbers = record {
  handle = pos 7;
  num_params = pos 2;
  parameter_types = [];
  parameter_names = [];
  result_columns = [];
}

abbrev three_rows : List (List ℕ)
three_rows = (1 ∷ 2 ∷ 3 ∷ []) ∷ (4 ∷ 5 ∷ 6 ∷ []) ∷ []

abbrev three_rows_bytes : Bytes
three_rows_bytes =
    1 ∷ 1 ∷ 0 ∷ 0 ∷ 0 ∷ 1 ∷ 4 ∷ 0 ∷ 0 ∷ 0 ∷ 1 ∷ 2 ∷ 0 ∷ 0 ∷ 0 ∷ 1 ∷ 5 ∷ 0 ∷ 0 ∷ 0 ∷ 1 ∷ 3 ∷ 0 ∷ 0
    ∷ 0 ∷ 1 ∷ 6 ∷ 0 ∷ 0 ∷ 0 ∷ []

abbrev ends_of : List RowRange → List ℕ
ends_of [] = []
ends_of (g ∷ gs) = g.rows_end ∷ ends_of gs

abbrev ends : Result BatchError EncodedParameterRows → List ℕ
ends (ok e) = ends_of e.ranges
ends (err e) = []

ends-three_rows :
    ends (split_parameter_rows numbers write_number two_numbers three_rows 120) ≡ 2 ∷ 3 ∷ []
unfolding split_parameter_rows split_loop write_rows write_row columns_from message_overhead
    payload_prefix column_headers to_le_bytes as_bytes utf8 show_nat
ends-three_rows = refl

three_rows_written :
    rows_between numbers write_number two_numbers three_rows 120 0 3 ≡ ok three_rows_bytes
unfolding write_rows write_row columns_from
three_rows_written = refl

split_parameter_rows-Sends_example :
    (encoded : EncodedParameterRows) × (split_parameter_rows numbers write_number two_numbers
        three_rows 120
      ≡ ok encoded)
    × (encoded.bytes ≡ three_rows_bytes)
    × Sends numbers write_number two_numbers three_rows 120 encoded encoded.ranges 0
split_parameter_rows-Sends_example =
    split_parameter_rows-Sends numbers write_number two_numbers three_rows 120 three_rows_bytes
      three_rows_written

-- The second column is one value short.
abbrev ragged : List (List ℕ)
ragged = (1 ∷ 2 ∷ []) ∷ (3 ∷ []) ∷ []

abbrev ragged_columns : List ParameterColumn
ragged_columns = parameter_columns numbers two_numbers ragged

ragged_panics : write_parameter_rows numbers write_number ragged ragged_columns 0 2 ≡ err panic
unfolding write_rows write_row columns_from
ragged_panics = refl

split_parameter_rows-err_example :
    (split_parameter_rows numbers write_number two_numbers ragged 120 ≡ err panic)
    × (build_execute_prepared_payload numbers write_number two_numbers (some ragged) ≡ err panic)
split_parameter_rows-err_example =
    split_parameter_rows-err numbers write_number two_numbers ragged 120 panic ragged_panics
