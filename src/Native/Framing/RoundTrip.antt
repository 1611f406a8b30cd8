-- ===== src/Native/Framing/RoundTrip.antt =====
-- The header is read back from its bytes, in both directions.
use exarrow_rs.Prelude.{ℕ, zero, suc, ◌+◌, ◌%◌, ◌^◌, ◌<◌, length, ◌≡◌, ◌≢◌, refl, arith}
use exarrow_rs.Prelude.Bytes.{to_le_bytes, from_le_bytes}
use exarrow_rs.Native.Framing.{
  MessageHeader, header_size, serialize, parse, SerialCounter, new_counter, next,
}

-- Every field is in the range of its Rust type.
pub record IsHeader (h : MessageHeader) : Type 0 where
  pub length_fits : h.message_length < 2 ^ 32
  pub command_fits : h.command < 2 ^ 8
  pub serial_fits : h.serial < 2 ^ 32
  pub count_fits : h.num_attributes < 2 ^ 32
  pub data_len_fits : h.attribute_data_len < 2 ^ 32
  pub parts_fit : h.num_result_parts < 2 ^ 32

-- A serialized header has 21 bytes.
pub length-serialize : (h : MessageHeader) → length (serialize h) ≡ header_size
unfolding serialize to_le_bytes
length-serialize h = refl

-- A header whose fields are in range is read back from its serialized form.
pub parse-serialize : (h : MessageHeader) → IsHeader h → parse (serialize h) ≡ h
unfolding serialize parse to_le_bytes from_le_bytes
parse-serialize h v = ground arith

-- The counter after `k` calls.
pub after : ℕ → SerialCounter → SerialCounter
after zero c = c
after (suc k) c = (next (after k c)).1

after_lem :
    (k : ℕ) (c : SerialCounter)
    → c.next_serial < 2 ^ 32
    → (after k c).next_serial ≡ (c.next_serial + k) % 2 ^ 32
unfolding after next
after_lem zero c h = omega arith
after_lem (suc k) c h = omega (arith, after_lem k c h)

-- The serial number of call number `k` (from 0) of a new counter is `k + 1` modulo 2^32.
pub next-after : (k : ℕ) → (next (after k new_counter)).0 ≡ (k + 1) % 2 ^ 32
unfolding next
next-after k = omega (arith, after_lem k new_counter (omega arith))

-- Two calls fewer than 2^32 apart never return the same serial number.
pub next_distinct :
    (k d : ℕ)
    → 0 < d
    → d < 2 ^ 32
    → (next (after k new_counter)).0 ≢ (next (after (k + d) new_counter)).0
next_distinct k d h g e = absurd (omega (arith, next-after k, next-after (k + d)))
