-- ===== src/Http/Chunks.antt =====
-- src/transport/http_transport.rs: bodies of a known size, and chunked bodies.
pub mod Line
pub mod Pieces
pub mod RoundTrip
use exarrow_rs.Connection.Version.{split_once}
use exarrow_rs.Http.{
  Stream, TransportError, io_error, protocol_error, out_of_fuel, Io, read_exact, read_line, send,
}
use exarrow_rs.Prelude.Bytes.{Bytes}
use exarrow_rs.Prelude.Call.{give, fail, from, modify, ◌>>=◌, ◌>>◌}
use exarrow_rs.Prelude.Hex.{show_hex, parse_hex}
use exarrow_rs.Prelude.Text.{Text, as_bytes, codes}
use exarrow_rs.Prelude.{
  ℕ, zero, suc, ◌+◌, ◌-◌, ◌^◌, min, Bool, true, false, [], ◌∷◌, ◌++◌, Option, Result, ok_or, length,
  ◌==◌, if◌then◌else◌,
}
use exarrow_rs.Query.Statement.{is_whitespace, trim_start}

abbrev pub export_piece_max_bytes : ℕ
export_piece_max_bytes = 65536

unfoldable pub encode_chunk : Bytes → Bytes
unfolding show_hex
encode_chunk [] = as_bytes (codes "0\r\n\r\n")
encode_chunk (b ∷ bs) =
    as_bytes (show_hex (length (b ∷ bs))) ++ (b'\r' ∷ b'\n' ∷ ((b ∷ bs) ++ (b'\r' ∷ b'\n' ∷ [])))

abbrev cons_unless_blank : ℕ → Text → Text
cons_unless_blank c [] = if is_whitespace c then [] else c ∷ []
cons_unless_blank c (d ∷ s) = c ∷ d ∷ s

unfoldable pub trim_end : Text → Text
trim_end [] = []
trim_end (c ∷ s) = cons_unless_blank c (trim_end s)

-- `str::trim`.
unfoldable pub trim : Text → Text
unfolding trim_start trim_end
trim s = trim_end (trim_start s)

-- A size is a 64-bit `usize`.
unfoldable pub parse_chunk_size : Text → Result TransportError ℕ
unfolding split_once trim parse_hex
parse_chunk_size size_line =
    ok_or (parse_hex (2 ^ 64) (trim (split_once b';' size_line).0)) protocol_error

-- The loop of `forward_sized_body`, with fuel.
unfoldable pub forward_loop : ℕ → ℕ → Io (Unit {0})
unfolding read_exact send
forward_loop zero remaining = if remaining == 0 then give tt else fail out_of_fuel
forward_loop (suc fuel) remaining = elim (remaining == 0) [
  | true ↦ give tt
  | false ↦ do
    piece ← read_exact io_error (min remaining export_piece_max_bytes)
    modify (send piece)
    forward_loop fuel (remaining - length piece)
]

-- Each round forwards a byte at least, so the length is fuel enough.
unfoldable pub forward_sized_body : ℕ → Io (Unit {0})
unfolding forward_loop
forward_sized_body len = forward_loop len len

-- The loop of `forward_chunked_body`, with fuel.
unfoldable pub chunk_loop : ℕ → Io (Unit {0})
unfolding read_line parse_chunk_size forward_sized_body read_exact
chunk_loop zero = fail out_of_fuel
chunk_loop (suc fuel) = do
  size_line ← read_line
  chunk_size ← from (λ e. e) (parse_chunk_size size_line)
  forward_sized_body chunk_size
  crlf ← read_exact protocol_error 2
  if chunk_size == 0 then give tt else chunk_loop fuel

-- Each round reads a byte at least.
unfoldable pub forward_chunked_body : Io (Unit {0})
unfolding chunk_loop
forward_chunked_body s = chunk_loop (length s.input + 1) s
