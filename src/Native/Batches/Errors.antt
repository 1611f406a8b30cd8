-- ===== src/Native/Batches/Errors.antt =====
-- A value of a batch that cannot be written.
use exarrow_rs.Native.Batches.{
  JsonView, BatchError, ParameterColumn, RowRange, PreparedStatementHandle, parameter_columns,
  num_rows, unwrap_or, write_rows, write_parameter_rows, build_execute_prepared_payload,
}
use exarrow_rs.Native.Batches.Split.{split_loop, message_overhead, split_parameter_rows}
use exarrow_rs.Native.Batches.Messages.{ℕ-cases}
use exarrow_rs.Native.Batches.Rows.{
  rows_from, rows_between-one, write_rows-err, write_rows-returns, rows_between-err,
}
use exarrow_rs.Prelude.Bytes.{Bytes}
use exarrow_rs.Prelude.Int.{ℤ}
use exarrow_rs.Prelude.{
  ℕ, zero, suc, ◌+◌, ◌-◌, ◌&&◌, List, [], ◌++◌, some, Result, err, length, ltb, ◌≡◌, refl, sym, ap,
  ◌∙◌, arith, inl, inr, Bool-cases,
}

module _ (json : JsonView) (write_param_value : ℕ → json.Value → ℤ → Result BatchError Bytes)
    (cols : List (List json.Value)) (columns : List ParameterColumn) where
  module _ (overhead limit : ℕ) where
    abbrev run : ℕ → ℕ → ℕ → ℕ → Bytes → Result BatchError (Bytes × List RowRange)
    run left row first_row first_byte bytes =
        split_loop json write_param_value cols columns overhead limit left row first_row first_byte
          bytes

    split_loop-err :
        (left row first_row first_byte : ℕ) (bytes : Bytes) (x : BatchError)
        → rows_from json write_param_value cols columns left row ≡ err x
        → run left row first_row first_byte bytes ≡ err x
    unfolding split_loop
    split_loop-err zero row first_row first_byte bytes x h =
        absurd (write_rows-returns json write_param_value cols columns row x h)
    split_loop-err (suc left) row first_row first_byte bytes x h =
        elim (write_rows-err json write_param_value cols columns left row x h) [
          | inl e ↦
              let failed =
                rows_between-err json write_param_value cols columns row (row + 1) x (omega arith)
                  e in
              ground arith
          | inr (r, e, later) ↦
              let written =
                rows_between-one json write_param_value cols columns row (row + 1) r (omega arith)
                  e in
              let joins = split_loop-err left (suc row) first_row first_byte (bytes ++ r) x later in
              let cuts = split_loop-err left (suc row) row (length bytes) (bytes ++ r) x later in
              elim (Bool-cases
                (ltb first_row row && ltb limit (overhead + (length (bytes ++ r) - first_byte)))) [
                  | inl cut ↦ ground arith
                  | inr join ↦ ground arith
                ]
        ]

module _ (json : JsonView) (write_param_value : ℕ → json.Value → ℤ → Result BatchError Bytes)
    (handle : PreparedStatementHandle) (cols : List (List json.Value)) where
  abbrev columns_of : List ParameterColumn
  columns_of = parameter_columns json handle cols

  split_parameter_rows-fails :
      (limit n : ℕ) (x : BatchError)
      → num_rows json cols ≡ suc n
      → split_loop json write_param_value cols columns_of
          (message_overhead handle columns_of)
          limit
          (suc n)
          0
          0
          0
          []
        ≡ err x
      → split_parameter_rows json write_param_value handle cols limit ≡ err x
  unfolding split_parameter_rows
  split_parameter_rows-fails limit n x e run = rw (split_parameter_rows, e, run) refl

  build_execute_prepared_payload-fails :
      (x : BatchError)
      → write_parameter_rows json write_param_value cols columns_of 0 (num_rows json cols) ≡ err x
      → build_execute_prepared_payload json write_param_value handle (some cols) ≡ err x
  unfolding build_execute_prepared_payload unwrap_or
  build_execute_prepared_payload-fails x h = rw h refl

  -- Where a row is missing or a value cannot be written, splitting the batch ends with that error, for
  -- any limit, which is the error that building a single message for the batch ends with.
  pub split_parameter_rows-err :
      (limit : ℕ) (x : BatchError)
      → write_parameter_rows json write_param_value cols
          (parameter_columns json handle cols)
          0
          (num_rows json cols)
        ≡ err x
      → (split_parameter_rows json write_param_value handle cols limit ≡ err x)
        × (build_execute_prepared_payload json write_param_value handle (some cols) ≡ err x)
  split_parameter_rows-err limit x h = (
    elim (ℕ-cases (num_rows json cols)) [
      | inl e ↦ absurd (
          write_rows-returns json write_param_value cols columns_of 0 x
            (ap (λ n. write_parameter_rows json write_param_value cols columns_of 0 n) (sym e) ∙ h))
      | inr (n, e) ↦
          let count : suc n ≡ num_rows json cols - 0 = omega (arith, e) in
          split_parameter_rows-fails limit n x e (
            split_loop-err json write_param_value cols columns_of
              (message_overhead handle columns_of) limit (suc n) 0 0 0 [] x
              (ap (λ i. write_rows json write_param_value cols columns_of i 0) count ∙ h))
    ],
    build_execute_prepared_payload-fails x h,
  )
