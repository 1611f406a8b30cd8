-- ===== src/Native/Attributes/Reader.antt =====
-- `parse_attributes` and its helpers.
use exarrow_rs.Native.Attributes.{
  AttributeValue, string, binary, int32, int64, AttributeSet, new, add, AttrType, str, bin, i32,
  i64, attribute_type,
}
use exarrow_rs.Prelude.Bytes.{Bytes, from_le_bytes}
use exarrow_rs.Prelude.Int.{from_bits}
use exarrow_rs.Prelude.Utf8.{from_utf8}
use exarrow_rs.Prelude.{
  ℕ, zero, suc, ◌+◌, ◌-◌, ◌^◌, not, take, drop, length, Result, ok, ◌>>=◌, ◌>>◌, ensure, ok_or, leb,
  ◌==◌,
}

pub data AttributeError : Type 0 where
  missing_attr_id missing_length missing_i32 missing_i64 missing_bool : AttributeError
  -- bytes needed, bytes left
  need_bytes : ℕ → ℕ → AttributeError
  -- the attribute's id
  invalid_utf8 : ℕ → AttributeError

-- The `n` bytes of `data` from `offset` on, after the length check of every reader.
unfoldable pub take_bytes : Bytes → ℕ → ℕ → AttributeError → Result AttributeError (Bytes × ℕ)
take_bytes bytes offset n e = do
  ensure (leb (offset + n) (length bytes)) e
  ok (take n (drop offset bytes), offset + n)

unfoldable pub read_attribute_id : Bytes → ℕ → Result AttributeError (ℕ × ℕ)
unfolding take_bytes
read_attribute_id bytes offset = do
  (b, offset) ← take_bytes bytes offset 2 missing_attr_id
  ok (from_le_bytes b, offset)

unfoldable pub read_length_prefixed : Bytes → ℕ → Result AttributeError (Bytes × ℕ)
unfolding take_bytes
read_length_prefixed bytes offset = do
  (b, offset) ← take_bytes bytes offset 4 missing_length
  let len = from_le_bytes b
  take_bytes bytes offset len (need_bytes len (length bytes - offset))

unfoldable pub read_string : Bytes → ℕ → ℕ → Result AttributeError (AttributeValue × ℕ)
unfolding read_length_prefixed
read_string bytes offset id = do
  (b, offset) ← read_length_prefixed bytes offset
  s ← ok_or (from_utf8 b) (invalid_utf8 id)
  ok (string s, offset)

unfoldable pub read_int32 : Bytes → ℕ → Result AttributeError (AttributeValue × ℕ)
unfolding take_bytes
read_int32 bytes offset = do
  (b, offset) ← take_bytes bytes offset 4 missing_i32
  ok (int32 (from_bits (2 ^ 31) (from_le_bytes b)), offset)

unfoldable pub read_int64 : Bytes → ℕ → Result AttributeError (AttributeValue × ℕ)
unfolding take_bytes
read_int64 bytes offset = do
  (b, offset) ← take_bytes bytes offset 8 missing_i64
  ok (int64 (from_bits (2 ^ 63) (from_le_bytes b)), offset)

unfoldable pub read_bool : Bytes → ℕ → Result AttributeError (AttributeValue × ℕ)
unfolding take_bytes
read_bool bytes offset = do
  (b, offset) ← take_bytes bytes offset 1 missing_bool
  ok (AttributeValue.bool (not (from_le_bytes b == 0)), offset)

unfoldable pub read_typed : AttrType → Bytes → ℕ → ℕ → Result AttributeError (AttributeValue × ℕ)
unfolding read_string read_length_prefixed read_int32 read_int64 read_bool
read_typed str bytes offset id = read_string bytes offset id
read_typed bin bytes offset id = do
  (b, offset) ← read_length_prefixed bytes offset
  ok (binary b, offset)
read_typed i32 bytes offset id = read_int32 bytes offset
read_typed i64 bytes offset id = read_int64 bytes offset
read_typed AttrType.bool bytes offset id = read_bool bytes offset

unfoldable pub read_attribute_value : Bytes → ℕ → ℕ → Result AttributeError (AttributeValue × ℕ)
unfolding read_typed
read_attribute_value bytes offset id = read_typed (attribute_type id) bytes offset id

-- The loop `for _ in 0..count`, with the set and the offset as its variables.
unfoldable pub parse_loop : ℕ → Bytes → AttributeSet → ℕ → Result AttributeError AttributeSet
parse_loop zero bytes set offset = ok set
parse_loop (suc count) bytes set offset = do
  (id, offset) ← read_attribute_id bytes offset
  (value, offset) ← read_attribute_value bytes offset id
  parse_loop count bytes (add set id value) offset

unfoldable pub parse_attributes : Bytes → ℕ → Result AttributeError AttributeSet
unfolding parse_loop
parse_attributes bytes count = parse_loop count bytes new 0
