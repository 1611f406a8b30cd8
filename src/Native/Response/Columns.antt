-- ===== src/Native/Response/Columns.antt =====
-- Column metadata as the server writes it is read back, from any offset of the data.
use exarrow_rs.Native.Response.{
  ResponseError, read_word, read_u8, read_i32, read_length_prefixed, slice, NativeColumnMeta, bare,
  read_lengths, read_kind, parse_column_meta, truncated_i32, truncated_column_name, truncated_char,
  truncated_interval,
}
use exarrow_rs.Prelude.Bytes.{
  Bytes, to_le_bytes, from_le_bytes, length-to_le_bytes, from_le_bytes-to_le_bytes,
}
use exarrow_rs.Prelude.Int.{ℤ, pos, Fits, to_bits, from_bits-to_bits, to_bits-lt}
use exarrow_rs.Prelude.Text.{as_bytes, byte_len, length-as_bytes}
use exarrow_rs.Prelude.Utf8.{from_utf8-as_bytes}
use exarrow_rs.Prelude.{
  ℕ, ◌+◌, ◌-◌, ◌%◌, ◌^◌, ◌<◌, true, [], ◌∷◌, ◌++◌, append_assoc, some, ok, ◌≡◌, refl, ap, ◌∙◌,
  arith, leb, length, length-append, drop-length, take-length, At, At-append, At-length,
}
use exarrow_rs.Native.Response.Wire.{
  Details, decimal, text, interval_year, interval_day, timestamp, plain, Column, kind_of, word32,
  print_details, print_column, is_odd, with_details, meta_of, AreWords, IsColumn,
}

read_word-At :
    (e : ResponseError) (bytes : Bytes) (o : ℕ) (word rest : Bytes)
    → At bytes o (word ++ rest)
    → read_word (length word) e bytes o ≡ ok (from_le_bytes word, o + length word)
unfolding read_word
read_word-At e bytes o word rest h =
    let fits : leb (o + length word) (length bytes) ≡ true =
      ground (arith, At-length bytes o (word ++ rest) h, length-append word rest) in
    rw (fits, h.1, take-length)

read_i32-At :
    (bytes : Bytes) (o : ℕ) (z : ℤ) (rest : Bytes)
    → Fits (2 ^ 31) z
    → At bytes o (word32 z ++ rest)
    → read_i32 bytes o ≡ ok (z, o + 4)
unfolding read_i32
read_i32-At bytes o z rest fits h =
    let word : read_word 4 truncated_i32 bytes o ≡ ok (from_le_bytes (word32 z), o + 4) =
      rw length-to_le_bytes at (read_word-At truncated_i32 bytes o (word32 z) rest h) in
    rw (
      word,
      from_le_bytes-to_le_bytes 4 (to_bits (2 ^ 31) z) (to_bits-lt (2 ^ 31) z fits),
      from_bits-to_bits (2 ^ 31) z fits,
    )

-- Behind a word.
At-word32 :
    (bytes : Bytes) (o : ℕ) (z : ℤ) (rest : Bytes)
    → At bytes o (word32 z ++ rest)
    → At bytes (o + 4) rest
At-word32 bytes o z rest h = rw length-to_le_bytes at (At-append bytes o (word32 z) rest h)

At-byte : (bytes : Bytes) (o f : ℕ) (rest : Bytes) → At bytes o (f ∷ rest) → At bytes (o + 1) rest
At-byte bytes o f rest h = At-append bytes o (f ∷ []) rest h

from_le_bytes_one : (f : ℕ) → from_le_bytes (f ∷ []) ≡ f
unfolding from_le_bytes
from_le_bytes_one f = omega arith

read_u8-At :
    (e : ResponseError) (bytes : Bytes) (o f : ℕ) (rest : Bytes)
    → At bytes o (f ∷ rest)
    → read_u8 e bytes o ≡ ok (f, o + 1)
unfolding read_u8
read_u8-At e bytes o f rest h =
    read_word-At e bytes o (f ∷ []) rest h ∙ ap (λ n. ok (n, o + 1)) (from_le_bytes_one f)

read_lengths-At :
    (e : ResponseError) (meta : NativeColumnMeta) (bytes : Bytes) (off f : ℕ) (m o : ℤ)
    (rest : Bytes)
    → Fits (2 ^ 31) m
    → Fits (2 ^ 31) o
    → At bytes off (f ∷ (word32 m ++ (word32 o ++ rest)))
    → (read_lengths e meta bytes off
        ≡ ok (record meta { is_varchar = is_odd f; max_len = some m }, off + 9))
      × At bytes (off + 9) rest
unfolding read_lengths
read_lengths-At e meta bytes off f m o rest hm ho h =
    let h₁ = At-byte bytes off f _ h in
    let h₂ = At-word32 bytes (off + 1) m _ h₁ in
    let h₃ = At-word32 bytes (off + 1 + 4) o _ h₂ in
    let sum : off + 1 + 4 + 4 ≡ off + 9 = omega arith in
    (
      rw
          (
            read_u8-At e bytes off f _ h,
            read_i32-At bytes (off + 1) m _ hm h₁,
            read_i32-At bytes (off + 1 + 4) o _ ho h₂,
          )
          (ap (λ n. ok (record meta { is_varchar = is_odd f; max_len = some m }, n)) sum),
      rw sum at h₃,
    )

abbrev details_len : Details → ℕ
details_len (decimal p s) = 8
details_len (text f m o) = 9
details_len (interval_year f m o p) = 13
details_len (interval_day f m o p q) = 17
details_len (timestamp p) = 4
details_len plain = 0

length-print_details : (d : Details) → length (print_details d) ≡ details_len d
unfolding print_details to_le_bytes
length-print_details (decimal p s) = refl
length-print_details (text f m o) = refl
length-print_details (interval_year f m o p) = refl
length-print_details (interval_day f m o p q) = refl
length-print_details (timestamp p) = refl
length-print_details plain = refl

-- The details that the type calls for are read.
read_kind-At :
    (d : Details) (meta : NativeColumnMeta) (bytes : Bytes) (off : ℕ) (rest : Bytes)
    → AreWords d
    → At bytes off (print_details d ++ rest)
    → read_kind (kind_of d) meta bytes off ≡ ok (with_details d meta, off + details_len d)
unfolding read_kind print_details
read_kind-At (decimal p s) meta bytes off rest (hp, hs) h =
    let h₀ : At bytes off (word32 p ++ (word32 s ++ rest)) = simp append_assoc at h in
    let h₁ = At-word32 bytes off p _ h₀ in
    rw (read_i32-At bytes off p _ hp h₀, read_i32-At bytes (off + 4) s rest hs h₁)
      (ap (λ n. ok (with_details (decimal p s) meta, n)) (omega arith))
read_kind-At (text f m o) meta bytes off rest (hm, ho) h =
    let h₀ : At bytes off (f ∷ (word32 m ++ (word32 o ++ rest))) = simp append_assoc at h in
    (read_lengths-At truncated_char meta bytes off f m o rest hm ho h₀).0
read_kind-At (interval_year f m o p) meta bytes off rest (hm, ho, hp) h =
    let h₀ : At bytes off (f ∷ (word32 m ++ (word32 o ++ (word32 p ++ rest)))) =
      simp append_assoc at h in
    let (lengths, h₁) = read_lengths-At truncated_interval meta bytes off f m o _ hm ho h₀ in
    rw (lengths, read_i32-At bytes (off + 9) p rest hp h₁)
      (ap (λ n. ok (with_details (interval_year f m o p) meta, n)) (omega arith))
read_kind-At (interval_day f m o p q) meta bytes off rest (hm, ho, hp, hq) h =
    let h₀ : At bytes off (f ∷ (word32 m ++ (word32 o ++ (word32 p ++ (word32 q ++ rest))))) =
      simp append_assoc at h in
    let (lengths, h₁) = read_lengths-At truncated_interval meta bytes off f m o _ hm ho h₀ in
    let h₂ = At-word32 bytes (off + 9) p _ h₁ in
    rw
      (lengths, read_i32-At bytes (off + 9) p _ hp h₁, read_i32-At bytes (off + 9 + 4) q rest hq h₂)
      (ap (λ n. ok (with_details (interval_day f m o p q) meta, n)) (omega arith))
read_kind-At (timestamp p) meta bytes off rest hp h = rw (read_i32-At bytes off p rest hp h) refl
read_kind-At plain meta bytes off rest u h = ap (λ n. ok (meta, n)) (omega arith)

read_length_prefixed-At :
    (e : ResponseError) (bytes : Bytes) (off : ℕ) (value rest : Bytes)
    → length bytes < 2 ^ 63
    → length value < 2 ^ 31
    → At bytes off (word32 (pos (length value)) ++ (value ++ rest))
    → read_length_prefixed e bytes off ≡ ok (value, off + 4 + length value)
unfolding read_length_prefixed slice
read_length_prefixed-At e bytes off value rest big small h =
    let h₁ = At-word32 bytes off (pos (length value)) _ h in
    let total : length bytes ≡ off + 4 + (length value + length rest) =
      At-length bytes (off + 4) (value ++ rest) h₁
      ∙ ap (◌+◌ (off + 4)) (length-append value rest) in
    let end : (off + 4 + length value) % 2 ^ 64 ≡ off + 4 + length value = omega arith in
    let fits : leb (off + 4 + length value) (length bytes) ≡ true = ground arith in
    let up : leb (off + 4) (off + 4 + length value) ≡ true = ground arith in
    let size : off + 4 + length value - (off + 4) ≡ length value = omega arith in
    rw
      (read_i32-At bytes off (pos (length value)) _ small h, end, fits, up, size, h₁.1, take-length)

length-print_column :
    (c : Column)
    → length (print_column c) ≡ 4 + length (as_bytes c.name) + 4 + details_len c.details
unfolding print_column
length-print_column c = omega (
  arith,
  length-append {0} (word32 (pos (byte_len c.name)))
      (as_bytes c.name ++ (word32 (pos c.type_id) ++ print_details c.details)),
  length-append {0} (as_bytes c.name) (word32 (pos c.type_id) ++ print_details c.details),
  length-append {0} (word32 (pos c.type_id)) (print_details c.details),
  length-print_details c.details,
  length-to_le_bytes 4 (byte_len c.name),
  length-to_le_bytes 4 c.type_id,
)

parse_column_meta-At :
    (c : Column) (bytes : Bytes) (off : ℕ) (rest : Bytes)
    → length bytes < 2 ^ 63
    → IsColumn c
    → At bytes off (print_column c ++ rest)
    → parse_column_meta bytes off ≡ ok (meta_of c, off + length (print_column c))
unfolding parse_column_meta print_column
parse_column_meta-At c bytes off rest big valid h =
    let value = as_bytes c.name in
    let behind = word32 (pos c.type_id) ++ (print_details c.details ++ rest) in
    let split : At bytes off (word32 (pos (byte_len c.name)) ++ (value ++ behind)) =
      simp append_assoc at h in
    let h₀ : At bytes off (word32 (pos (length value)) ++ (value ++ behind)) =
      rw (length-as_bytes c.name) split in
    let small : length value < 2 ^ 31 = omega (arith, length-as_bytes c.name, valid.name_fits) in
    let h₁ =
      At-append bytes (off + 4) value behind (At-word32 bytes off (pos (length value)) _ h₀) in
    let h₂ = At-word32 bytes (off + 4 + length value) (pos c.type_id) _ h₁ in
    rw
      (
        read_length_prefixed-At truncated_column_name bytes off value behind big small h₀,
        from_utf8-as_bytes c.name valid.chars,
        read_i32-At bytes (off + 4 + length value) (pos c.type_id) _ valid.id_fits h₁,
        valid.typed,
        read_kind-At c.details (bare c.name c.type_id) bytes (off + 4 + length value + 4) rest
            valid.words h₂,
      )
      (ap (λ n. ok (meta_of c, n)) (omega (arith, length-print_column c)))

-- Column metadata is read back from any offset of the data, with any bytes behind it: the name, the type
-- id and what the driver keeps of the details; the offset moves to the end of the metadata.
pub parse_column_meta-print_column :
    (before : Bytes) (c : Column) (rest : Bytes)
    → IsColumn c
    → length (before ++ (print_column c ++ rest)) < 2 ^ 63
    → parse_column_meta (before ++ (print_column c ++ rest)) (length before)
      ≡ ok (meta_of c, length before + length (print_column c))
parse_column_meta-print_column before c rest valid big =
    parse_column_meta-At c (before ++ (print_column c ++ rest)) (length before) rest big valid (
      omega (arith, length-append before (print_column c ++ rest)),
      drop-length before (print_column c ++ rest),
    )
