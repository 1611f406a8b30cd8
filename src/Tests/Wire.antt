-- ===== src/Tests/Wire.antt =====
-- Headers and attributes of the native protocol.
use exarrow_rs.Native.Attributes.Reader.{
  parse_attributes, parse_loop, take_bytes, read_attribute_id, missing_attr_id,
}
use exarrow_rs.Native.Attributes.RoundTrip.{
  IsAttribute, parse_attributes-serialize, data_len-serialize,
}
use exarrow_rs.Native.Attributes.Sound.{IsTyped, parse_attributes_sound}
use exarrow_rs.Native.Attributes.{
  AttributeSet, string, binary, int32, int64, bool, num_attributes, data_len, serialize,
  attribute_type, serialize_attribute, serialize_value,
}
use exarrow_rs.Native.Constants.{
  attr_autocommit, attr_query_timeout, attr_current_schema, attr_sessionid, attr_public_key,
}
use exarrow_rs.Native.Framing.RoundTrip.{IsHeader, parse-serialize}
use exarrow_rs.Native.Framing.{MessageHeader, serialize as serialize_header, parse}
use exarrow_rs.Prelude.Bytes.{to_le_bytes}
use exarrow_rs.Prelude.Int.{pos, negsuc}
use exarrow_rs.Prelude.Text.{codes, as_bytes, utf8, byte_len, len_utf8}
use exarrow_rs.Prelude.{◌*◌, ◌≤◌, true, [], ◌∷◌, ◌++◌, ok, err, length, All, ◌≡◌, refl, arith}

abbrev header : MessageHeader
header = record {
  message_length = 70000;
  command = 12;
  serial = 4294967295;
  num_attributes = 3;
  attribute_data_len = 70000;
  num_result_parts = 1;
}

header-IsHeader : IsHeader header
header-IsHeader = record {
  length_fits = omega arith;
  command_fits = omega arith;
  serial_fits = omega arith;
  count_fits = omega arith;
  data_len_fits = omega arith;
  parts_fit = omega arith;
}

parse-serialize_example : parse (serialize_header header) ≡ header
parse-serialize_example = parse-serialize header header-IsHeader

abbrev attributes : AttributeSet
attributes =
    record { id = attr_autocommit; value = bool true }
    ∷ record { id = attr_query_timeout; value = int32 (negsuc 0) }
    ∷ record { id = attr_sessionid; value = int64 (pos 123456789012) }
    ∷ record { id = attr_current_schema; value = string (codes "é") }
    ∷ record { id = attr_public_key; value = binary (255 ∷ 0 ∷ []) }
    ∷ []

attributes-IsAttribute : All IsAttribute attributes
unfolding attribute_type byte_len len_utf8
attributes-IsAttribute = (
  record { id_fits = omega arith; typed = refl; value_fits = tt },
  (
    record { id_fits = omega arith; typed = refl; value_fits = ground arith },
    (
      record { id_fits = omega arith; typed = refl; value_fits = ground arith },
      (
        record { id_fits = omega arith; typed = refl; value_fits = ground arith },
        (record { id_fits = omega arith; typed = refl; value_fits = ground arith }, tt),
      ),
    ),
  ),
)

parse_attributes-serialize_example :
    parse_attributes (serialize attributes ++ 1 ∷ 2 ∷ []) (num_attributes attributes)
    ≡ ok attributes
parse_attributes-serialize_example =
    parse_attributes-serialize attributes (1 ∷ 2 ∷ []) attributes-IsAttribute (omega arith)

data_len-serialize_example : data_len attributes ≡ length (serialize attributes)
data_len-serialize_example =
    data_len-serialize attributes (
      unfold serialize serialize_attribute serialize_value as_bytes utf8 to_le_bytes in omega arith)

parse_attributes_sound_example :
    (length attributes ≡ 5)
    × All IsTyped attributes
    × (3 * 5 ≤ length (serialize attributes ++ 1 ∷ 2 ∷ []))
unfolding num_attributes
parse_attributes_sound_example =
    parse_attributes_sound (serialize attributes ++ 1 ∷ 2 ∷ []) 5 {set = attributes}
      parse_attributes-serialize_example

parse_attributes_truncated : parse_attributes (1 ∷ []) 1 ≡ err missing_attr_id
unfolding parse_attributes parse_loop read_attribute_id take_bytes
parse_attributes_truncated = refl
