-- ===== src/Native/Batches/Messages.antt =====
-- What the messages of a batch carry.
use exarrow_rs.Native.Attributes as Attributes
use exarrow_rs.Native.Batches.Ranges.{Covers, Covers-same, split_loop-Covers}
use exarrow_rs.Native.Batches.Rows.{write_rows-none, rows_between-none}
use exarrow_rs.Native.Batches.{
  JsonView, BatchError, ParameterColumn, RowRange, EncodedParameterRows, PreparedStatementHandle,
  payload_prefix, build_range_payload, parameter_columns, num_rows, write_rows,
  write_parameter_rows,
}
use exarrow_rs.Native.Batches.Split.{
  execute_prepared_attributes, split_loop, message_overhead, split_parameter_rows,
}
use exarrow_rs.Native.Framing.{header_size}
use exarrow_rs.Prelude.Bytes.{Bytes, to_le_bytes}
use exarrow_rs.Prelude.Int.{ℤ}
use exarrow_rs.Prelude.{
  ℕ, zero, suc, ◌+◌, ◌-◌, ◌<◌, ◌≤◌, List, [], ◌∷◌, ◌++◌, Result, ok, length, length-append, take,
  drop, ◌≡◌, refl, sym, ap, ◌∙◌, arith, ◌⊎◌, inl, inr,
}

pub ℕ-cases : (n : ℕ) → (n ≡ 0) ⊎ ((m : ℕ) × (n ≡ suc m))
ℕ-cases zero = inl refl
ℕ-cases (suc m) = inr (m, refl)

length-take-le : (n : ℕ) (xs : Bytes) → length (take n xs) ≤ n
length-take-le zero xs = omega arith
length-take-le (suc n) [] = omega arith
length-take-le (suc n) (x ∷ xs) = omega (arith, length-take-le n xs)

-- The length of a message with a payload: header, attributes and payload.
abbrev message_size : Bytes → ℕ
message_size payload =
    header_size + length (Attributes.serialize execute_prepared_attributes) + length payload

length-payload_prefix :
    (handle : PreparedStatementHandle) (columns : List ParameterColumn) (m n : ℕ)
    → length (payload_prefix handle columns m) ≡ length (payload_prefix handle columns n)
unfolding payload_prefix to_le_bytes
length-payload_prefix handle columns m n = refl

module _ (json : JsonView) (write_param_value : ℕ → json.Value → ℤ → Result BatchError Bytes)
    (handle : PreparedStatementHandle) (cols : List (List json.Value)) (limit : ℕ) where
  abbrev pub columns_of : List ParameterColumn
  columns_of = parameter_columns json handle cols

  abbrev pub rows_between : ℕ → ℕ → Result BatchError Bytes
  rows_between start end = write_parameter_rows json write_param_value cols columns_of start end

  -- The messages of the ranges carry the rows from `r` on: each the prefix for its number of rows
  -- and then its rows, and within the limit unless it carries a single row.
  abbrev pub Sends : EncodedParameterRows → List RowRange → ℕ → Type 0
  Sends encoded [] r = r ≡ num_rows json cols
  Sends encoded (g ∷ gs) r =
      (r < g.rows_end)
      × ((rows : Bytes) × (rows_between r g.rows_end ≡ ok rows)
          × (build_range_payload handle encoded g
              ≡ payload_prefix handle columns_of (g.rows_end - r) ++ rows))
      × ((g.rows_end ≡ suc r) ⊎ (message_size (build_range_payload handle encoded g) ≤ limit))
      × Sends encoded gs g.rows_end

  abbrev encoded_of : Bytes → List RowRange → EncodedParameterRows
  encoded_of bytes ranges = record { columns = columns_of; bytes = bytes; ranges = ranges }

  Sends-Covers :
      (encoded : EncodedParameterRows) (ranges : List RowRange) (r b : ℕ)
      → encoded.columns ≡ columns_of
      → Covers json write_param_value cols columns_of
          (message_overhead handle columns_of)
          limit
          encoded.bytes
          (num_rows json cols)
          ranges
          r
          b
      → Sends encoded ranges r
  unfolding build_range_payload message_overhead
  Sends-Covers encoded [] r b e (done, end) = done
  Sends-Covers encoded (g ∷ gs) r b e (start, first, more, rows, fits, rest) =
      let piece = take (g.bytes_end - b) (drop b encoded.bytes) in
      let payload : build_range_payload handle encoded g
          ≡ payload_prefix handle columns_of (g.rows_end - r) ++ piece =
        rw (start, first, e) refl in
      let small = length-take-le (g.bytes_end - b) (drop b encoded.bytes) in
      let size : length (build_range_payload handle encoded g)
          ≡ length (payload_prefix handle columns_of 0) + length piece =
        ap length payload
        ∙ length-append (payload_prefix handle columns_of (g.rows_end - r)) piece
        ∙ ap (λ n. n + length piece) (length-payload_prefix handle columns_of (g.rows_end - r) 0) in
      (
        more,
        (piece, rows, payload),
        elim fits [ inl single ↦ inl single | inr k ↦ inr (omega arith) ],
        Sends-Covers encoded gs g.rows_end g.bytes_end e rest,
      )

  split_parameter_rows-none :
      num_rows json cols ≡ 0
      → split_parameter_rows json write_param_value handle cols limit ≡ ok (encoded_of [] [])
  unfolding split_parameter_rows
  split_parameter_rows-none e = rw (split_parameter_rows, e) refl

  split_parameter_rows-some :
      (n : ℕ) (bytes : Bytes) (ranges : List RowRange)
      → num_rows json cols ≡ suc n
      → split_loop json write_param_value cols columns_of
          (message_overhead handle columns_of)
          limit
          (suc n)
          0
          0
          0
          []
        ≡ ok (bytes, ranges)
      → split_parameter_rows json write_param_value handle cols limit ≡ ok (encoded_of bytes ranges)
  unfolding split_parameter_rows
  split_parameter_rows-some n bytes ranges e run = rw (split_parameter_rows, e, run) refl

  -- Where every value can be written, a batch is split, the encoded bytes are those of all its rows,
  -- and its messages carry the rows one after the other, none missing and none twice: each message is
  -- the prefix for its number of rows and then exactly the encoding of these rows, and its length
  -- with header and attributes is within the limit unless it carries a single row.
  pub split_parameter_rows-Sends :
      (bytes : Bytes)
      → rows_between 0 (num_rows json cols) ≡ ok bytes
      → (encoded : EncodedParameterRows) × (split_parameter_rows json write_param_value handle cols
            limit
          ≡ ok encoded)
        × (encoded.bytes ≡ bytes)
        × Sends encoded encoded.ranges 0
  split_parameter_rows-Sends bytes h = elim (ℕ-cases (num_rows json cols)) [
    | inl e ↦
        let rows = ap (λ n. rows_between 0 n) (sym e) ∙ h in
        (
          encoded_of [] [],
          split_parameter_rows-none e,
          sym (write_rows-none json write_param_value cols columns_of 0 bytes rows),
          sym e,
        )
    | inr (n, e) ↦
        let count : suc n ≡ num_rows json cols - 0 = omega (arith, e) in
        let (ranges, run, covers) =
          split_loop-Covers json write_param_value cols columns_of
            (message_overhead handle columns_of) limit (suc n) 0 0 [] [] bytes (omega arith)
            (omega arith) (rows_between-none json write_param_value cols columns_of)
            (inl (omega arith))
            (ap (λ i. write_rows json write_param_value cols columns_of i 0) count ∙ h) in
        (
          encoded_of bytes ranges,
          split_parameter_rows-some n bytes ranges e run,
          refl,
          Sends-Covers (encoded_of bytes ranges) ranges 0 0 refl (
              Covers-same json write_param_value cols columns_of
                (message_overhead handle columns_of) limit bytes bytes (0 + suc n)
                (num_rows json cols) ranges 0 0 refl (omega (arith, e)) covers),
        )
  ]
