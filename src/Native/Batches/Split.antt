-- ===== src/Native/Batches/Split.antt =====
-- src/transport/native/mod.rs: the split of a batch of parameters into messages.
use exarrow_rs.Native.Batches.{
  JsonView, BatchError, ParameterColumn, RowRange, EncodedParameterRows, PreparedStatementHandle,
  payload_prefix, columns_from, parameter_columns, num_rows, write_rows, write_parameter_rows,
}
use exarrow_rs.Native.Attributes as Attributes
use exarrow_rs.Native.Attributes.{AttributeSet}
use exarrow_rs.Native.Framing.{header_size}
use exarrow_rs.Prelude.Bytes.{Bytes}
use exarrow_rs.Prelude.Int.{ℤ}
use exarrow_rs.Prelude.{
  ℕ, zero, suc, ◌+◌, ◌-◌, true, false, ◌&&◌, List, [], ◌∷◌, ◌++◌, Result, ok, ◌>>=◌, length, ltb,
}

abbrev pub execute_prepared_attributes : AttributeSet
execute_prepared_attributes = Attributes.new

unfoldable pub message_overhead : PreparedStatementHandle → List ParameterColumn → ℕ
unfolding payload_prefix Attributes.serialize
message_overhead handle columns =
    header_size
    + length (Attributes.serialize execute_prepared_attributes)
    + length (payload_prefix handle columns 0)

module _ (json : JsonView) (write_param_value : ℕ → json.Value → ℤ → Result BatchError Bytes) where
  -- The loop of `split_parameter_rows` at `row`, with `left` rows to go, and the range that the code
  -- pushes behind it.
  unfoldable pub split_loop :
      List (List json.Value)
      → List ParameterColumn
      → ℕ
      → ℕ
      → ℕ
      → ℕ
      → ℕ
      → ℕ
      → Bytes
      → Result BatchError (Bytes × List RowRange)
  unfolding write_rows
  split_loop cols columns overhead limit zero row first_row first_byte bytes = ok (
    bytes,
    record {
      rows_start = first_row;
      rows_end = row;
      bytes_start = first_byte;
      bytes_end = length bytes;
    }
        ∷ [],
  )
  split_loop cols columns overhead limit (suc left) row first_row first_byte bytes = do
    more ← write_parameter_rows json write_param_value cols columns row (row + 1)
    elim (ltb first_row row && ltb limit (overhead + (length (bytes ++ more) - first_byte))) [
      | false ↦
          split_loop cols columns overhead limit left (suc row) first_row first_byte (bytes ++ more)
      | true ↦ do
        (out, ranges) ←
            split_loop cols columns overhead limit left (suc row) row (length bytes) (bytes ++ more)
        ok (
          out,
          record {
            rows_start = first_row;
            rows_end = row;
            bytes_start = first_byte;
            bytes_end = length bytes;
          }
              ∷ ranges,
        )
    ]

  unfoldable pub split_parameter_rows :
      PreparedStatementHandle → List (List json.Value) → ℕ → Result BatchError EncodedParameterRows
  unfolding split_loop columns_from message_overhead
  split_parameter_rows handle cols limit =
      let columns = parameter_columns json handle cols in
      elim (num_rows json cols) [
        | zero ↦ ok (record { columns = columns; bytes = []; ranges = [] })
        | suc n ↦ do
          (bytes, ranges) ←
              split_loop cols columns (message_overhead handle columns) limit (suc n) 0 0 0 []
          ok (record { columns = columns; bytes = bytes; ranges = ranges })
      ]
