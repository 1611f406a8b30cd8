-- ===== src/Tests/Response.antt =====
-- Responses of the native protocol.
use exarrow_rs.Native.Constants.{t_interval_day}
use exarrow_rs.Native.Response.Columns.{parse_column_meta-print_column}
use exarrow_rs.Native.Response.Wire.{
  Column, interval_day, IsColumn, meta_of, print_column, print_details,
}
use exarrow_rs.Native.Response.Panics.{
  IsPanicLength, parse_column_meta-panic, negative_length_panics,
}
use exarrow_rs.Native.Response.{
  panic, read_i32, read_length_prefixed, slice, read_word, meta_kind, parse_column_meta,
  parse_message_part,
}
use exarrow_rs.Prelude.Bytes.{Bytes, to_le_bytes, from_le_bytes}
use exarrow_rs.Prelude.Int.{pos}
use exarrow_rs.Prelude.Text.{codes, as_bytes, utf8, byte_len, len_utf8}
use exarrow_rs.Prelude.{◌+◌, [], ◌∷◌, ◌++◌, ok, err, ◌≡◌, refl, arith, length}

abbrev duration : Column
duration = record {
  name = codes "é";
  type_id = t_interval_day;
  details = interval_day 1 (pos 29) (pos 29) (pos 9) (pos 3);
}

duration-IsColumn : IsColumn duration
unfolding byte_len len_utf8 meta_kind
duration-IsColumn = record {
  chars = ground arith;
  name_fits = omega arith;
  id_fits = omega arith;
  typed = refl;
  words = (omega arith, omega arith, omega arith, omega arith);
}

parse_column_meta-print_column_example :
    parse_column_meta ((7 ∷ 7 ∷ []) ++ (print_column duration ++ 9 ∷ [])) 2
    ≡ ok (meta_of duration, 2 + length (print_column duration))
parse_column_meta-print_column_example =
    parse_column_meta-print_column (7 ∷ 7 ∷ []) duration (9 ∷ []) duration-IsColumn
      (unfold print_column print_details to_le_bytes byte_len len_utf8 as_bytes utf8 in omega arith)

-- The length -1, with nothing behind it.
abbrev minus_one : Bytes
minus_one = 255 ∷ 255 ∷ 255 ∷ 255 ∷ []

parse_column_meta-panic_example : IsPanicLength minus_one 0
parse_column_meta-panic_example =
    parse_column_meta-panic minus_one 0 (omega arith)
      (unfold parse_column_meta read_length_prefixed read_i32 read_word from_le_bytes slice in refl)

minus_one-IsPanicLength : IsPanicLength minus_one 0
unfolding read_i32 from_le_bytes
minus_one-IsPanicLength = (0, 4, refl, omega arith)

negative_length_panics_example :
    (parse_column_meta minus_one 0 ≡ err panic) × (parse_message_part minus_one 0 ≡ err panic)
negative_length_panics_example =
    negative_length_panics minus_one 0 (omega arith) minus_one-IsPanicLength
