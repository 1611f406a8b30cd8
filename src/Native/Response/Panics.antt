-- ===== src/Native/Response/Panics.antt =====
-- Which inputs make the readers panic.
use exarrow_rs.Native.Response.{
  ResponseError, Failure, panic, Read, read_word, read_i32, read_length_prefixed, slice,
  parse_column_meta, parse_message_part, truncated_column_name, truncated_message, NativeColumnMeta,
  MetaKind, read_kind, read_lengths, meta_kind, bare, as_u32,
}
use exarrow_rs.Prelude.Bytes.{Bytes}
use exarrow_rs.Prelude.Utf8.{from_utf8}
use exarrow_rs.Prelude.Int.{ℤ, pos, negsuc}
use exarrow_rs.Prelude.{
  ℕ, ◌^◌, ◌≤◌, ◌<◌, ok, err, ◌≡◌, ◌≢◌, ◌⊎◌, refl, arith, length, inl, inr, Option-cases,
}

-- The i32 at the offset is negative, and reaches back no further than to the start of the data.
abbrev pub IsPanicLength : Bytes → ℕ → Type 0
IsPanicLength bytes offset =
    (n : ℕ) × (o : ℕ) × (read_i32 bytes offset ≡ ok (negsuc n, o)) × (n < o)

read_i32-ne-panic : (bytes : Bytes) (offset : ℕ) → read_i32 bytes offset ≢ err panic
unfolding read_i32
read_i32-ne-panic bytes offset = ground arith

read_lengths-ne-panic :
    (e : ResponseError) (meta : NativeColumnMeta) (bytes : Bytes) (offset : ℕ)
    → read_lengths e meta bytes offset ≢ err panic
unfolding read_lengths
read_lengths-ne-panic e meta bytes offset = ground arith

read_kind-ne-panic :
    (k : MetaKind) (meta : NativeColumnMeta) (bytes : Bytes) (offset : ℕ)
    → read_kind k meta bytes offset ≢ err panic
unfolding read_kind
read_kind-ne-panic k meta bytes offset = ground arith

Read-cases :
    {A : Type 0} (r : Read A)
    → ((a : A) × (o : ℕ) × (r ≡ ok (a, o))) ⊎ ((e : Failure) × (r ≡ err e))
Read-cases (ok (a, o)) = inl (a, o, refl)
Read-cases (err e) = inr (e, refl)

abbrev IsSmall : ℤ → Type 0
IsSmall (pos n) = n < 2 ^ 31
IsSmall (negsuc n) = n < 2 ^ 31

read_i32-fits :
    (bytes : Bytes) (offset : ℕ) (z : ℤ) (o : ℕ)
    → read_i32 bytes offset ≡ ok (z, o)
    → IsSmall z × (o ≤ length bytes)
unfolding read_i32 read_word
read_i32-fits bytes offset z o h = ground arith

read_length_prefixed-panic :
    (e : ResponseError) (bytes : Bytes) (offset : ℕ)
    → length bytes < 2 ^ 63
    → read_length_prefixed e bytes offset ≡ err panic
    → IsPanicLength bytes offset
unfolding read_length_prefixed slice
read_length_prefixed-panic e bytes offset h k = elim (Read-cases (read_i32 bytes offset)) [
  | inl (pos n, o, q) ↦ absurd (ground (arith, read_i32-fits bytes offset (pos n) o q))
  | inl (negsuc n, o, q) ↦ (n, o, q, ground (arith, read_i32-fits bytes offset (negsuc n) o q))
  | inr (f, q) ↦ absurd (ground (arith, read_i32-ne-panic bytes offset))
]

read_length_prefixed_panics :
    (e : ResponseError) (bytes : Bytes) (offset : ℕ)
    → length bytes < 2 ^ 63
    → IsPanicLength bytes offset
    → read_length_prefixed e bytes offset ≡ err panic
unfolding read_length_prefixed slice
read_length_prefixed_panics e bytes offset h (n, o, q, l) =
    ground (arith, q, l, read_i32-fits bytes offset (negsuc n) o q)

-- Reading column metadata panics only on a name length that is negative, of at most the bytes up to
-- and with the length. The data has fewer than 2^63 bytes, like every slice.
pub parse_column_meta-panic :
    (bytes : Bytes) (offset : ℕ)
    → length bytes < 2 ^ 63
    → parse_column_meta bytes offset ≡ err panic
    → IsPanicLength bytes offset
unfolding parse_column_meta
parse_column_meta-panic bytes offset h k =
    elim (Read-cases (read_length_prefixed truncated_column_name bytes offset)) [
      | inl (value, o, q) ↦ absurd (elim (Option-cases (from_utf8 value)) [
        | inl u ↦ ground arith
        | inr (name, u) ↦ elim (Read-cases (read_i32 bytes o)) [
          | inr (f, v) ↦ ground (arith, read_i32-ne-panic bytes o)
          | inl (id, o', v) ↦
              ground
                (arith, read_kind-ne-panic (meta_kind (as_u32 id)) (bare name (as_u32 id)) bytes o')
        ]
      ])
      | inr (f, q) ↦ read_length_prefixed-panic truncated_column_name bytes offset h (ground arith)
    ]

-- Reading a message from data of fewer than 2^63 bytes panics only on a length that is negative and
-- of at most the bytes up to and with the length.
pub parse_message_part-panic :
    (bytes : Bytes) (offset : ℕ)
    → length bytes < 2 ^ 63
    → parse_message_part bytes offset ≡ err panic
    → IsPanicLength bytes offset
unfolding parse_message_part
parse_message_part-panic bytes offset h k =
    elim (Read-cases (read_length_prefixed truncated_message bytes offset)) [
      | inl (value, o, q) ↦ absurd (ground arith)
      | inr (f, q) ↦ read_length_prefixed-panic truncated_message bytes offset h (ground arith)
    ]

-- On a length that is negative, and of at most the bytes up to and with the length, reading column
-- metadata and reading a message both panic, whatever follows it; the data has fewer than 2^63 bytes.
pub negative_length_panics :
    (bytes : Bytes) (offset : ℕ)
    → length bytes < 2 ^ 63
    → IsPanicLength bytes offset
    → (parse_column_meta bytes offset ≡ err panic) × (parse_message_part bytes offset ≡ err panic)
unfolding parse_column_meta parse_message_part
negative_length_panics bytes offset h k = (
  rw (read_length_prefixed_panics truncated_column_name bytes offset h k) refl,
  rw (read_length_prefixed_panics truncated_message bytes offset h k) refl,
)
