-- ===== src/Native/Attributes/RoundTrip.antt =====
-- `parse_attributes` reads back what `serialize` writes.
use exarrow_rs.Native.Attributes.Reader.{
  AttributeError, take_bytes, read_attribute_id, read_length_prefixed, read_typed,
  read_attribute_value, parse_loop, parse_attributes, missing_attr_id, missing_length, missing_i32,
  missing_i64, missing_bool,
}
use exarrow_rs.Native.Attributes.{
  AttributeValue, string, binary, int32, int64, bool, Attribute, AttributeSet, add, num_attributes,
  value_len, total_len, data_len, length_prefixed, serialize_value, serialize_attribute, serialize,
  serialized_len, AttrType, str, bin, i32, i64, attribute_type,
}
use exarrow_rs.Prelude.Bytes.{
  Bytes, to_le_bytes, from_le_bytes, length-to_le_bytes, from_le_bytes-to_le_bytes,
}
use exarrow_rs.Prelude.Int.{Fits, to_bits, from_bits-to_bits, to_bits-lt}
use exarrow_rs.Prelude.Text.{as_bytes, byte_len, length-as_bytes}
use exarrow_rs.Prelude.Utf8.{IsChar, from_utf8-as_bytes}
use exarrow_rs.Prelude.{
  ℕ, ◌+◌, ◌%◌, ◌^◌, ◌<◌, true, false, [], ◌∷◌, ◌++◌, append_assoc, append-nil, ◌≡◌, refl, sym, ap,
  ◌∙◌, arith, length, length-append, take-length, At, At-append, At-length, All, ok, leb,
}

-- The wire type of a value.
abbrev pub type_of : AttributeValue → AttrType
type_of (string s) = str
type_of (binary b) = bin
type_of (int32 v) = i32
type_of (int64 v) = i64
type_of (bool v) = AttrType.bool

-- The value is in the range of its Rust type, and its length in that of the length prefix.
abbrev pub InRange : AttributeValue → Type 0
InRange (string s) = All IsChar s × (byte_len s < 2 ^ 32)
InRange (binary b) = length b < 2 ^ 32
InRange (int32 v) = Fits (2 ^ 31) v
InRange (int64 v) = Fits (2 ^ 63) v
InRange (bool v) = Unit

pub record IsAttribute (a : Attribute) : Type 0 where
  pub id_fits : a.id < 2 ^ 16
  pub typed : attribute_type a.id ≡ type_of a.value
  pub value_fits : InRange a.value

take_bytes-At :
    (bytes : Bytes) (o n : ℕ) (b rest : Bytes) (e : AttributeError)
    → At bytes o (b ++ rest)
    → n ≡ length b
    → take_bytes bytes o n e ≡ ok (b, o + n)
unfolding take_bytes
take_bytes-At bytes o n b rest e h k =
    let fits : leb (o + n) (length bytes) ≡ true =
      ground (arith, At-length bytes o (b ++ rest) h, length-append b rest) in
    rw (fits, h.1, k, take-length)

read_length_prefixed-At :
    (bytes : Bytes) (o : ℕ) (b rest : Bytes)
    → At bytes o (length_prefixed b ++ rest)
    → length b < 2 ^ 32
    → read_length_prefixed bytes o ≡ ok (b, o + 4 + length b)
unfolding read_length_prefixed
read_length_prefixed-At bytes o b rest h fits =
    let size = length b % 2 ^ 32 in
    let prefix = to_le_bytes 4 size in
    let h' : At bytes o (prefix ++ (b ++ rest)) = rw append_assoc at h in
    let next = At-append bytes o prefix (b ++ rest) h' in
    let four : 4 ≡ length prefix = sym (length-to_le_bytes 4 size) in
    let next' : At bytes (o + 4) (b ++ rest) = rw length-to_le_bytes at next in
    let size_eq : from_le_bytes prefix ≡ length b =
      from_le_bytes-to_le_bytes 4 size (omega arith) ∙ omega arith in
    rw (take_bytes-At bytes o 4 prefix (b ++ rest) missing_length h' four)
      (take_bytes-At bytes (o + 4) (from_le_bytes prefix) b rest _ next' size_eq ∙ rw size_eq)

length-serialize_value : (v : AttributeValue) → length (serialize_value v) ≡ value_len v
unfolding serialize_value value_len
length-serialize_value (string s) = omega (
  arith,
  length-append {0} (to_le_bytes 4 (length (as_bytes s) % 2 ^ 32)) (as_bytes s),
  length-to_le_bytes 4 (length (as_bytes s) % 2 ^ 32),
  length-as_bytes s,
)
length-serialize_value (binary b) = omega (
  arith,
  length-append {0} (to_le_bytes 4 (length b % 2 ^ 32)) b,
  length-to_le_bytes 4 (length b % 2 ^ 32),
)
length-serialize_value (int32 v) = length-to_le_bytes 4 _
length-serialize_value (int64 v) = length-to_le_bytes 8 _
length-serialize_value (bool v) = refl

read_typed-At :
    (v : AttributeValue) (bytes : Bytes) (o id : ℕ) (rest : Bytes)
    → InRange v
    → At bytes o (serialize_value v ++ rest)
    → read_typed (type_of v) bytes o id ≡ ok (v, o + value_len v)
unfolding read_typed serialize_value value_len
read_typed-At (string s) bytes o id rest (chars, fits) h =
    let size : length (as_bytes s) < 2 ^ 32 = omega (arith, length-as_bytes s) in
    rw (read_length_prefixed-At bytes o (as_bytes s) rest h size, from_utf8-as_bytes s chars)
      (ap (λ n. ok (string s, n)) (omega (arith, length-as_bytes s)))
read_typed-At (binary b) bytes o id rest fits h =
    rw (read_length_prefixed-At bytes o b rest h fits) (ap (λ n. ok (binary b, n)) (omega arith))
read_typed-At (int32 v) bytes o id rest fits h =
    let word = to_le_bytes 4 (to_bits (2 ^ 31) v) in
    rw (
      take_bytes-At bytes o 4 word rest missing_i32 h (sym (length-to_le_bytes 4 _)),
      from_le_bytes-to_le_bytes 4 (to_bits (2 ^ 31) v) (to_bits-lt (2 ^ 31) v fits),
      from_bits-to_bits (2 ^ 31) v fits,
    )
read_typed-At (int64 v) bytes o id rest fits h =
    let word = to_le_bytes 8 (to_bits (2 ^ 63) v) in
    rw (
      take_bytes-At bytes o 8 word rest missing_i64 h (sym (length-to_le_bytes 8 _)),
      from_le_bytes-to_le_bytes 8 (to_bits (2 ^ 63) v) (to_bits-lt (2 ^ 63) v fits),
      from_bits-to_bits (2 ^ 63) v fits,
    )
read_typed-At (bool true) bytes o id rest fits h =
    rw (take_bytes-At bytes o 1 (1 ∷ []) rest missing_bool h refl) (unfold from_le_bytes in refl)
read_typed-At (bool false) bytes o id rest fits h =
    rw (take_bytes-At bytes o 1 (0 ∷ []) rest missing_bool h refl) (unfold from_le_bytes in refl)

read_attribute_id-At :
    (bytes : Bytes) (o id : ℕ) (rest : Bytes)
    → id < 2 ^ 16
    → At bytes o (to_le_bytes 2 id ++ rest)
    → read_attribute_id bytes o ≡ ok (id, o + 2)
unfolding read_attribute_id
read_attribute_id-At bytes o id rest fits h = rw (
  take_bytes-At bytes o 2 (to_le_bytes 2 id) rest missing_attr_id h (sym (length-to_le_bytes 2 id)),
  from_le_bytes-to_le_bytes 2 id fits,
)

parse_loop-At :
    (set done : AttributeSet) (bytes : Bytes) (o : ℕ) (rest : Bytes)
    → All IsAttribute set
    → At bytes o (serialize set ++ rest)
    → parse_loop (length set) bytes done o ≡ ok (done ++ set)
unfolding parse_loop add serialize serialize_attribute
parse_loop-At [] done bytes o rest all h = rw append-nil
parse_loop-At (a ∷ set) done bytes o rest (valid, all) h =
    let value = serialize_value a.value in
    let h₀ : At bytes o (to_le_bytes 2 a.id ++ (value ++ (serialize set ++ rest))) =
      simp append_assoc at h in
    let h₁ : At bytes (o + 2) (value ++ (serialize set ++ rest)) =
      rw length-to_le_bytes at (At-append bytes o (to_le_bytes 2 a.id) _ h₀) in
    let h₂ : At bytes (o + 2 + value_len a.value) (serialize set ++ rest) =
      rw length-serialize_value at (At-append bytes (o + 2) value _ h₁) in
    let read : read_attribute_value bytes (o + 2) a.id ≡ ok (a.value, o + 2 + value_len a.value) =
      unfold read_attribute_value in
      rw valid.typed (read_typed-At a.value bytes (o + 2) a.id _ valid.value_fits h₁) in
    rw (read_attribute_id-At bytes o a.id _ valid.id_fits h₀, read)
      (parse_loop-At set (done ++ a ∷ []) bytes _ rest all h₂
        ∙ ap ok (append_assoc done (a ∷ []) set))

-- Reading back the serialized form, with any bytes behind it, gives the set: each attribute has an
-- id in range, a value of the wire type of its id, and a length that fits its prefix.
pub parse_attributes-serialize :
    (set : AttributeSet) (rest : Bytes)
    → All IsAttribute set
    → length set < 2 ^ 32
    → parse_attributes (serialize set ++ rest) (num_attributes set) ≡ ok set
unfolding parse_attributes num_attributes
parse_attributes-serialize set rest all few =
    let whole : length set % 2 ^ 32 ≡ length set = omega arith in
    rw whole (parse_loop-At set [] (serialize set ++ rest) 0 rest all (omega arith, refl))

total_len-serialize : (set : AttributeSet) → total_len set ≡ length (serialize set)
unfolding total_len serialize serialize_attribute serialized_len
total_len-serialize [] = refl
total_len-serialize (a ∷ set) = omega (
  arith,
  total_len-serialize set,
  length-serialize_value a.value,
  length-to_le_bytes 2 a.id,
  length-append {0} (to_le_bytes 2 a.id) (serialize_value a.value),
  length-append {0} (to_le_bytes 2 a.id ++ serialize_value a.value) (serialize set),
)

-- `data_len`, which the message header declares, is the number of bytes that `serialize` writes,
-- as long as those are fewer than 2^32.
pub data_len-serialize :
    (set : AttributeSet) → length (serialize set) < 2 ^ 32 → data_len set ≡ length (serialize set)
unfolding data_len
data_len-serialize set h = omega (arith, total_len-serialize set)
