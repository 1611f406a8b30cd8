-- ===== src/Native/Attributes.antt =====
-- src/transport/native/attributes.rs: protocol attributes and their binary form.
-- `data: &[u8]` with `offset: &mut usize` becomes the bytes with an offset that each reader returns
-- advanced. A `String` is its `char`s; i32 and i64 are integers with their two's complement pattern.
-- An error is the `TransportError::ProtocolError` of one `Err` of the source, with the values that
-- its message names.
pub mod Reader
pub mod RoundTrip
pub mod Sound
use exarrow_rs.Native.Constants.{
  attr_autocommit, attr_tsutc_enabled, attr_encryption_required, attr_snapshot_transactions_enabled,
  attr_transaction_state, attr_protocol_version, attr_query_timeout, attr_query_cache_access,
  attr_client_keys_len, attr_sessionid, attr_data_message_size, attr_result_set_handle,
  attr_statement_handle, attr_num_rows, attr_client_receive_key, attr_client_send_key,
  attr_public_key, attr_encoded_password, attr_random_phrase,
}
use exarrow_rs.Prelude.Bytes.{Bytes, to_le_bytes}
use exarrow_rs.Prelude.Int.{ℤ, to_bits}
use exarrow_rs.Prelude.Text.{Text, as_bytes, byte_len}
use exarrow_rs.Prelude.{
  ℕ, zero, suc, ◌+◌, ◌%◌, ◌^◌, Bool, true, false, ◌||◌, List, [], ◌∷◌, ◌++◌, Option, none, some,
  length, ◌==◌, if◌then◌else◌,
}

pub data AttributeValue : Type 0 where
  string : Text → AttributeValue
  binary : Bytes → AttributeValue
  int32 : ℤ → AttributeValue
  int64 : ℤ → AttributeValue
  bool : Bool → AttributeValue

pub record Attribute : Type 0 where
  pub id : ℕ
  pub value : AttributeValue

abbrev pub AttributeSet : Type 0
AttributeSet = List Attribute

abbrev pub new : AttributeSet
new = []

unfoldable pub add : AttributeSet → ℕ → AttributeValue → AttributeSet
add set id value = set ++ (record { id = id; value = value } ∷ [])

-- `find` gives the first attribute with the id.
unfoldable pub get : AttributeSet → ℕ → Option AttributeValue
get [] id = none
get (a ∷ set) id = if a.id == id then some a.value else get set id

unfoldable pub num_attributes : AttributeSet → ℕ
num_attributes set = length set % 2 ^ 32

unfoldable pub value_len : AttributeValue → ℕ
value_len (string s) = 4 + byte_len s
value_len (binary b) = 4 + length b
value_len (int32 v) = 4
value_len (int64 v) = 8
value_len (bool v) = 1

unfoldable pub serialized_len : Attribute → ℕ
unfolding value_len
serialized_len a = 2 + value_len a.value

-- The `usize` sum, before the cast to u32.
unfoldable pub total_len : AttributeSet → ℕ
total_len [] = 0
total_len (a ∷ set) = serialized_len a + total_len set

unfoldable pub data_len : AttributeSet → ℕ
unfolding total_len
data_len set = total_len set % 2 ^ 32

-- `(b.len() as u32).to_le_bytes()` and the bytes.
abbrev pub length_prefixed : Bytes → Bytes
length_prefixed b = to_le_bytes 4 (length b % 2 ^ 32) ++ b

unfoldable pub serialize_value : AttributeValue → Bytes
serialize_value (string s) = length_prefixed (as_bytes s)
serialize_value (binary b) = length_prefixed b
serialize_value (int32 v) = to_le_bytes 4 (to_bits (2 ^ 31) v)
serialize_value (int64 v) = to_le_bytes 8 (to_bits (2 ^ 63) v)
serialize_value (bool v) = (if v then 1 else 0) ∷ []

unfoldable pub serialize_attribute : Attribute → Bytes
unfolding serialize_value
serialize_attribute a = to_le_bytes 2 a.id ++ serialize_value a.value

unfoldable pub serialize : AttributeSet → Bytes
serialize [] = []
serialize (a ∷ set) = serialize_attribute a ++ serialize set

pub data AttrType : Type 0 where
  str bin i32 i64 bool : AttrType

-- A `match` arm of several patterns.
abbrev one_of : ℕ → List ℕ → Bool
one_of id [] = false
one_of id (x ∷ xs) = id == x || one_of id xs

unfoldable pub attribute_type : ℕ → AttrType
attribute_type id =
    if one_of id (
      attr_autocommit ∷ attr_tsutc_enabled ∷ attr_encryption_required
      ∷ attr_snapshot_transactions_enabled ∷ attr_transaction_state ∷ 15 ∷ 41 ∷ 45 ∷ 50 ∷ 61 ∷ 62
      ∷ [])
    then AttrType.bool
    else if one_of id (
        attr_protocol_version ∷ attr_query_timeout ∷ attr_query_cache_access ∷ attr_client_keys_len
        ∷ 16 ∷ 36 ∷ 40 ∷ 44 ∷ 46 ∷ 60 ∷ 69 ∷ 72 ∷ 73 ∷ [])
    then i32
    else if one_of id (
        attr_sessionid ∷ attr_data_message_size ∷ attr_result_set_handle ∷ attr_statement_handle
        ∷ attr_num_rows ∷ 18 ∷ 24 ∷ 25 ∷ 42 ∷ 43 ∷ 68 ∷ 70 ∷ [])
    then i64
    else if one_of id (
        attr_client_receive_key ∷ attr_client_send_key ∷ attr_public_key ∷ attr_encoded_password
        ∷ attr_random_phrase ∷ 65 ∷ 66 ∷ [])
    then bin
    else str
