-- ===== src/Native/Response.antt =====
-- src/transport/native/result_parser.rs: the readers of a response, its messages and its column
-- metadata. The offset is returned advanced. An i32 length becomes a `usize` by sign extension, and
-- the end of the range is computed modulo 2^64, as a release build does; a build with overflow checks
-- panics where the sum wraps. A slice whose end is before its start panics.
pub mod Wire
pub mod Columns
pub mod Panics
use exarrow_rs.Native.Constants.{
  t_decimal, t_smalldecimal, t_bigdecimal, t_char, t_geometry, t_hashtype, t_interval_year,
  t_interval_day, t_timestamp, t_timestamp_local_tz, t_timestamp_utc,
}
use exarrow_rs.Prelude.Bytes.{Bytes, from_le_bytes}
use exarrow_rs.Prelude.Int.{ℤ, pos, negsuc, from_bits}
use exarrow_rs.Prelude.Text.{Text, codes}
use exarrow_rs.Prelude.Utf8.{from_utf8}
use exarrow_rs.Prelude.{
  ℕ, ◌+◌, ◌-◌, ◌%◌, ◌^◌, Bool, true, false, not, ◌&&◌, ◌||◌, List, [], ◌∷◌, Option, none, some,
  Result, ok, err, ◌>>=◌, ◌>>◌, ensure, ok_or, leb, ◌==◌, if◌then◌else◌, length, take, drop,
}

-- The messages of `TransportError::ProtocolError`.
pub data ResponseError : Type 0 where
  truncated_i32 truncated_i64 : ResponseError
  truncated_column_name truncated_char truncated_interval truncated_message : ResponseError
  invalid_column_name invalid_message : ResponseError

pub data Failure : Type 0 where
  protocol : ResponseError → Failure
  panic : Failure

abbrev pub Read : Type 0 → Type 0
Read A = Result Failure (A × ℕ)

unfoldable pub read_word : ℕ → ResponseError → Bytes → ℕ → Read ℕ
read_word width e bytes offset = do
  ensure (leb (offset + width) (length bytes)) (protocol e)
  ok (from_le_bytes (take width (drop offset bytes)), offset + width)

unfoldable pub read_u8 : ResponseError → Bytes → ℕ → Read ℕ
unfolding read_word
read_u8 e bytes offset = read_word 1 e bytes offset

unfoldable pub read_i32 : Bytes → ℕ → Read ℤ
unfolding read_word
read_i32 bytes offset = do
  (word, offset) ← read_word 4 truncated_i32 bytes offset
  ok (from_bits (2 ^ 31) word, offset)

unfoldable pub read_i64 : Bytes → ℕ → Read ℤ
unfolding read_word
read_i64 bytes offset = do
  (word, offset) ← read_word 8 truncated_i64 bytes offset
  ok (from_bits (2 ^ 63) word, offset)

-- `as usize` of an i32.
abbrev pub as_usize : ℤ → ℕ
as_usize (pos n) = n
as_usize (negsuc n) = 2 ^ 64 - 1 - n

-- `&data[from..to]`; `none` is a panic.
unfoldable pub slice : Bytes → ℕ → ℕ → Option Bytes
slice bytes from to =
    if leb from to && leb to (length bytes) then some (take (to - from) (drop from bytes)) else none

unfoldable pub read_length_prefixed : ResponseError → Bytes → ℕ → Read Bytes
unfolding read_i32 slice
read_length_prefixed e bytes offset = do
  (len, offset) ← read_i32 bytes offset
  let end = (offset + as_usize len) % 2 ^ 64
  ensure (leb end (length bytes)) (protocol e)
  value ← ok_or (slice bytes offset end) panic
  ok (value, end)

pub record NativeWarning : Type 0 where
  pub message : Text
  pub sql_state : Text

abbrev unknown_state : Text
unknown_state = codes "?????"

-- `from_utf8(…).unwrap_or("?????")`.
abbrev state_or_unknown : Option Text → Text
state_or_unknown none = unknown_state
state_or_unknown (some s) = s

unfoldable pub read_sql_state : Bytes → ℕ → Text × ℕ
read_sql_state bytes offset =
    if leb (offset + 5) (length bytes)
    then (state_or_unknown (from_utf8 (take 5 (drop offset bytes))), offset + 5)
    else (unknown_state, offset)

unfoldable pub parse_message_part : Bytes → ℕ → Read NativeWarning
unfolding read_length_prefixed read_sql_state
parse_message_part bytes offset = do
  (value, offset) ← read_length_prefixed truncated_message bytes offset
  message ← ok_or (from_utf8 value) (protocol invalid_message)
  let state = read_sql_state bytes offset
  ok (record { message = message; sql_state = state.0 }, state.1)

pub record NativeColumnMeta : Type 0 where
  pub name : Text
  pub type_id : ℕ
  pub precision : Option ℤ
  pub scale : Option ℤ
  pub is_varchar : Bool
  pub max_len : Option ℤ
  pub interval_fraction : Option ℤ

abbrev pub bare : Text → ℕ → NativeColumnMeta
bare name type_id = record {
  name = name;
  type_id = type_id;
  precision = none;
  scale = none;
  is_varchar = false;
  max_len = none;
  interval_fraction = none;
}

-- The arms of `match type_id`.
pub data MetaKind : Type 0 where
  decimal text interval_year interval_day timestamp plain : MetaKind

unfoldable pub meta_kind : ℕ → MetaKind
meta_kind id =
    if id == t_decimal || id == t_smalldecimal || id == t_bigdecimal
    then decimal
    else if id == t_char || id == t_geometry || id == t_hashtype
    then text
    else if id == t_interval_year
    then interval_year
    else if id == t_interval_day
    then interval_day
    else if id == t_timestamp || id == t_timestamp_local_tz || id == t_timestamp_utc
    then timestamp
    else plain

-- The flag byte, the longest length and the octet length: `vc_flag & IS_VARCHAR` is the lowest bit.
unfoldable pub read_lengths : ResponseError → NativeColumnMeta → Bytes → ℕ → Read NativeColumnMeta
unfolding read_u8 read_i32
read_lengths e meta bytes offset = do
  (flag, offset) ← read_u8 e bytes offset
  (max_len, offset) ← read_i32 bytes offset
  (octet_len, offset) ← read_i32 bytes offset
  ok (record meta { is_varchar = flag % 2 == 1; max_len = some max_len }, offset)

unfoldable pub read_kind : MetaKind → NativeColumnMeta → Bytes → ℕ → Read NativeColumnMeta
unfolding read_lengths
read_kind decimal meta bytes offset = do
  (p, offset) ← read_i32 bytes offset
  (s, offset) ← read_i32 bytes offset
  ok (record meta { precision = some p; scale = some s }, offset)
read_kind text meta bytes offset = read_lengths truncated_char meta bytes offset
read_kind interval_year meta bytes offset = do
  (meta, offset) ← read_lengths truncated_interval meta bytes offset
  (p, offset) ← read_i32 bytes offset
  ok (meta, offset)
read_kind interval_day meta bytes offset = do
  (meta, offset) ← read_lengths truncated_interval meta bytes offset
  (p, offset) ← read_i32 bytes offset
  (fraction, offset) ← read_i32 bytes offset
  ok (record meta { interval_fraction = some fraction }, offset)
read_kind timestamp meta bytes offset = do (p, offset) ← read_i32 bytes offset; ok (meta, offset)
read_kind plain meta bytes offset = ok (meta, offset)

-- `read_i32(…)? as u32`.
abbrev pub as_u32 : ℤ → ℕ
as_u32 (pos n) = n
as_u32 (negsuc n) = 2 ^ 32 - 1 - n

unfoldable pub parse_column_meta : Bytes → ℕ → Read NativeColumnMeta
unfolding read_length_prefixed meta_kind read_kind
parse_column_meta bytes offset = do
  (value, offset) ← read_length_prefixed truncated_column_name bytes offset
  name ← ok_or (from_utf8 value) (protocol invalid_column_name)
  (id, offset) ← read_i32 bytes offset
  read_kind (meta_kind (as_u32 id)) (bare name (as_u32 id)) bytes offset
