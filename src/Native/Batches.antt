-- ===== src/Native/Batches.antt =====
-- src/transport/native/mod.rs: the parameters of a prepared statement in CMD_EXECUTE_PREPARED. A
-- value is a `serde_json::Value`; what `write_param_value` appends for one is a parameter, whatever
-- it is. A `usize` range is its two ends, and no sum of lengths overflows.
pub mod Split
pub mod Rows
pub mod Ranges
pub mod Messages
pub mod Errors
use exarrow_rs.Native.Attributes as Attributes
use exarrow_rs.Native.Attributes.{AttributeSet}
use exarrow_rs.Native.Constants.{
  t_decimal, t_double, t_char, t_date, t_timestamp, t_boolean, t_geometry, t_hashtype,
  t_interval_year, t_interval_day, is_varchar, is_utf8, timestamp_param_precision,
}
use exarrow_rs.Native.Framing.{header_size}
use exarrow_rs.Prelude.Bytes.{Bytes, to_le_bytes}
use exarrow_rs.Prelude.Decimal.{show_nat}
use exarrow_rs.Prelude.Int.{ℤ, pos, to_bits}
use exarrow_rs.Prelude.Text.{Text, as_bytes, codes, same_text}
use exarrow_rs.Prelude.{
  ℕ, zero, suc, ◌+◌, ◌-◌, ◌*◌, ◌^◌, Bool, true, false, ◌&&◌, ◌||◌, not, List, [], ◌∷◌, ◌++◌, Option,
  none, some, Result, ok, err, ok_or, ◌>>=◌, length, get_elem?, take, drop, ltb, ◌==◌, and_then,
  if◌then◌else◌,
}

-- What the code asks of a JSON value: whether it is a Boolean or a number, and of which kind.
pub record JsonView : Type 1 where
  pub Value : Type 0
  pub is_boolean : Value → Bool
  pub is_number : Value → Bool
  pub is_f64 : Value → Bool
  pub is_i64 : Value → Bool
  pub is_u64 : Value → Bool

-- The index panic of `col_values[row_idx]`, and `TransportError::SerializationError`.
pub data BatchError : Type 0 where
  panic : BatchError
  serialization_error : Text → BatchError

pub record DataType : Type 0 where
  pub type_name : Text
  pub precision : Option ℤ
  pub scale : Option ℤ
  pub size : Option ℤ
  pub character_set : Option Text
  pub with_local_time_zone : Option Bool
  pub fraction : Option ℤ
  pub srid : Option ℤ

pub record ColumnInfo : Type 0 where
  pub name : Text
  pub data_type : DataType

pub record PreparedStatementHandle : Type 0 where
  pub handle : ℤ
  pub num_params : ℤ
  pub parameter_types : List DataType
  pub parameter_names : List (Option Text)
  pub result_columns : List ColumnInfo

pub record ParameterColumn : Type 0 where
  pub name : Text
  pub wire_type : ℕ
  pub scale : ℤ

pub record RowRange : Type 0 where
  pub rows_start : ℕ
  pub rows_end : ℕ
  pub bytes_start : ℕ
  pub bytes_end : ℕ

pub record EncodedParameterRows : Type 0 where
  pub columns : List ParameterColumn
  pub bytes : Bytes
  pub ranges : List RowRange

abbrev pub i32_bytes : ℤ → Bytes
i32_bytes z = to_le_bytes 4 (to_bits (2 ^ 31) z)

unfoldable pub unwrap_or {ℓ} : {A : Type ℓ} → Option A → A → A
unwrap_or none a = a
unwrap_or (some b) a = b

unfoldable pub data_type_to_wire_type : DataType → ℕ
unfolding same_text
data_type_to_wire_type dt =
    if same_text dt.type_name (codes "DECIMAL")
    then t_decimal
    else if same_text dt.type_name (codes "DOUBLE")
    then t_double
    else if same_text dt.type_name (codes "BOOLEAN")
    then t_boolean
    else if same_text dt.type_name (codes "VARCHAR") || same_text dt.type_name (codes "CHAR")
    then t_char
    else if same_text dt.type_name (codes "DATE")
    then t_date
    else if same_text dt.type_name (codes "TIMESTAMP")
        || same_text dt.type_name (codes "TIMESTAMP WITH LOCAL TIME ZONE")
    then t_timestamp
    else if same_text dt.type_name (codes "GEOMETRY")
    then t_geometry
    else if same_text dt.type_name (codes "HASHTYPE")
    then t_hashtype
    else if same_text dt.type_name (codes "INTERVAL YEAR TO MONTH")
    then t_interval_year
    else if same_text dt.type_name (codes "INTERVAL DAY TO SECOND")
    then t_interval_day
    else t_char

unfoldable pub decimal_metadata : PreparedStatementHandle → ℕ → ℤ × ℤ
unfolding unwrap_or
decimal_metadata handle col_idx = elim (get_elem? handle.parameter_types col_idx) [
  | some dt ↦ (unwrap_or dt.precision (pos 18), unwrap_or dt.scale (pos 0))
  | none ↦ (pos 18, pos 0)
]

unfoldable pub default_name : ℕ → Text
default_name col_idx = codes "param" ++ show_nat col_idx

unfoldable pub write_column_metadata : PreparedStatementHandle → ℕ → ℕ → Bytes
unfolding decimal_metadata
write_column_metadata handle col_idx wire_type =
    if wire_type == t_char
    then ((is_varchar + is_utf8) ∷ []) ++ i32_bytes (pos 2000000) ++ i32_bytes (pos (2000000 * 4))
    else if wire_type == t_decimal
    then i32_bytes (decimal_metadata handle col_idx).0
      ++ i32_bytes (decimal_metadata handle col_idx).1
    else if wire_type == t_timestamp
    then i32_bytes (pos timestamp_param_precision)
    else []

-- The column headers from column `i` on.
unfoldable pub column_headers : PreparedStatementHandle → ℕ → List ParameterColumn → Bytes
unfolding write_column_metadata
column_headers handle i [] = []
column_headers handle i (column ∷ columns) =
    to_le_bytes 4 (length (as_bytes column.name))
    ++ as_bytes column.name
    ++ to_le_bytes 4 column.wire_type
    ++ write_column_metadata handle i column.wire_type
    ++ column_headers handle (i + 1) columns

unfoldable pub payload_prefix : PreparedStatementHandle → List ParameterColumn → ℕ → Bytes
unfolding column_headers
payload_prefix handle columns num_rows =
    i32_bytes handle.handle
    ++ i32_bytes (pos 1)
    ++ (1 ∷ [])
    ++ to_le_bytes 4 (length columns)
    ++ to_le_bytes 8 num_rows
    ++ to_le_bytes 8 num_rows
    ++ column_headers handle 0 columns

unfoldable pub build_range_payload :
    PreparedStatementHandle → EncodedParameterRows → RowRange → Bytes
unfolding payload_prefix
build_range_payload handle encoded range =
    payload_prefix handle encoded.columns (range.rows_end - range.rows_start)
    ++ take (range.bytes_end - range.bytes_start) (drop range.bytes_start encoded.bytes)

module _ (json : JsonView) where
  unfoldable pub json_value_to_wire_type : json.Value → ℕ
  json_value_to_wire_type value =
      if json.is_boolean value
      then t_boolean
      else if json.is_number value
      then (if json.is_f64 value && not (json.is_i64 value) && not (json.is_u64 value)
          then t_double
          else t_decimal)
      else t_char

  unfoldable pub infer_wire_type : PreparedStatementHandle → ℕ → List json.Value → ℕ × Text
  unfolding data_type_to_wire_type json_value_to_wire_type default_name unwrap_or
  infer_wire_type handle col_idx col_values = elim (get_elem? handle.parameter_types col_idx) [
    | some dt ↦ (
      data_type_to_wire_type dt,
      unwrap_or (and_then (get_elem? handle.parameter_names col_idx) (λ n. n))
          (default_name col_idx),
    )
    | none ↦ elim col_values [
      | [] ↦ (t_char, default_name col_idx)
      | value ∷ values ↦ (json_value_to_wire_type value, default_name col_idx)
    ]
  ]

  -- The columns from column `i` on.
  unfoldable pub columns_from :
      PreparedStatementHandle → ℕ → List (List json.Value) → List ParameterColumn
  unfolding infer_wire_type decimal_metadata
  columns_from handle i [] = []
  columns_from handle i (col_values ∷ cols) =
      let (wire_type, name) = infer_wire_type handle i col_values in
      record {
        name = name;
        wire_type = wire_type;
        scale = if wire_type == t_decimal then (decimal_metadata handle i).1 else pos 0;
      }
      ∷ columns_from handle (i + 1) cols

  abbrev pub parameter_columns :
      PreparedStatementHandle → List (List json.Value) → List ParameterColumn
  parameter_columns handle cols = columns_from handle 0 cols

  -- `cols.first().map_or(0, Vec::len)`.
  abbrev pub num_rows : List (List json.Value) → ℕ
  num_rows [] = 0
  num_rows (col ∷ cols) = length col

  module _ (write_param_value : ℕ → json.Value → ℤ → Result BatchError Bytes) where
    -- One row: `cols.iter().zip(columns)`.
    unfoldable pub write_row :
        ℕ → List (List json.Value) → List ParameterColumn → Result BatchError Bytes
    write_row row_idx [] columns = ok []
    write_row row_idx (col ∷ cols) [] = ok []
    write_row row_idx (col ∷ cols) (column ∷ columns) = do
      value ← ok_or (get_elem? col row_idx) panic
      bytes ← write_param_value column.wire_type value column.scale
      rest ← write_row row_idx cols columns
      ok (bytes ++ rest)

    -- `n` rows from row `start` on.
    unfoldable pub write_rows :
        List (List json.Value) → List ParameterColumn → ℕ → ℕ → Result BatchError Bytes
    unfolding write_row
    write_rows cols columns zero start = ok []
    write_rows cols columns (suc n) start = do
      row ← write_row start cols columns
      rest ← write_rows cols columns n (suc start)
      ok (row ++ rest)

    -- The rows from `start` to before `end`.
    abbrev pub write_parameter_rows :
        List (List json.Value) → List ParameterColumn → ℕ → ℕ → Result BatchError Bytes
    write_parameter_rows cols columns start end = write_rows cols columns (end - start) start

    unfoldable pub build_execute_prepared_payload :
        PreparedStatementHandle → Option (List (List json.Value)) → Result BatchError Bytes
    unfolding payload_prefix columns_from write_rows unwrap_or
    build_execute_prepared_payload handle parameters =
        let cols = unwrap_or parameters [] in
        let columns = parameter_columns handle cols in
        do
          rows ← write_parameter_rows cols columns 0 (num_rows cols)
          ok (payload_prefix handle columns (num_rows cols) ++ rows)
