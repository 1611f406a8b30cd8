-- ===== src/Native/Framing.antt =====
-- src/transport/native/framing.rs: the 21-byte message header and the serial counter.
-- The Rust fields are u32, command u8; a value is the number and its range is a hypothesis.
pub mod RoundTrip
use exarrow_rs.Prelude.{ℕ, ◌+◌, ◌%◌, ◌^◌, ◌<◌, ◌++◌, [], ◌∷◌, take, drop}
use exarrow_rs.Prelude.Bytes.{Bytes, to_le_bytes, from_le_bytes}

pub record MessageHeader : Type 0 where
  pub message_length : ℕ
  pub command : ℕ
  pub serial : ℕ
  pub num_attributes : ℕ
  pub attribute_data_len : ℕ
  pub num_result_parts : ℕ

abbrev pub header_size : ℕ
header_size = 21

unfoldable pub new : ℕ → ℕ → ℕ → ℕ → ℕ → MessageHeader
new command serial num_attributes attribute_data_len num_result_parts = record {
  message_length = attribute_data_len;
  command = command;
  serial = serial;
  num_attributes = num_attributes;
  attribute_data_len = attribute_data_len;
  num_result_parts = num_result_parts;
}

-- The copies into `buf` fill it from left to right with no gap.
unfoldable pub serialize : MessageHeader → Bytes
serialize h =
    to_le_bytes 4 h.message_length
    ++ ((h.command ∷ [])
        ++ (to_le_bytes 4 h.serial
            ++ (to_le_bytes 4 h.num_attributes
                ++ (to_le_bytes 4 h.attribute_data_len ++ to_le_bytes 4 h.num_result_parts))))

-- `T::from_le_bytes([data[i], …])`, on `n` bytes.
abbrev pub word_at : ℕ → ℕ → Bytes → ℕ
word_at i n bytes = from_le_bytes (take n (drop i bytes))

-- `parse` on an array of 21 bytes, which never fails.
unfoldable pub parse : Bytes → MessageHeader
parse bytes = record {
  message_length = word_at 0 4 bytes;
  command = word_at 4 1 bytes;
  serial = word_at 5 4 bytes;
  num_attributes = word_at 9 4 bytes;
  attribute_data_len = word_at 13 4 bytes;
  num_result_parts = word_at 17 4 bytes;
}

pub record SerialCounter : Type 0 where
  pub next_serial : ℕ

abbrev pub new_counter : SerialCounter
new_counter = record { next_serial = 1 }

-- `fetch_add` on an AtomicU32 wraps; it returns the value before.
unfoldable pub next : SerialCounter → ℕ × SerialCounter
next c = (c.next_serial, record { next_serial = (c.next_serial + 1) % 2 ^ 32 })
