-- ===== src/Http.antt =====
-- src/transport/http_transport.rs: the HTTP tunnel that Exasol sends requests through. The stream
-- is what the peer sends until it closes its side, and what was written to it; the channel to the
-- consumer of an EXPORT is the pieces that were sent, with how much was written before each. Nothing
-- else touches them during a call.
pub mod Chunks
pub mod Request
pub mod Response
pub mod Ranges
use exarrow_rs.Prelude.Bytes.{Bytes}
use exarrow_rs.Prelude.Call.{Call, give, fail, from, modify, ◌>>=◌, ◌>>◌}
use exarrow_rs.Prelude.Text.{Text}
use exarrow_rs.Prelude.Utf8.{from_utf8}
use exarrow_rs.Prelude.{
  ℕ, zero, suc, Bool, true, false, List, [], ◌∷◌, ◌++◌, Option, none, some, Result, ok, err, ok_or,
  length, take, drop, leb, ◌==◌, and_then,
}

-- `TransportError`, of which the callers read the constructor; and `out_of_fuel`, which no run of
-- the code gives.
pub data TransportError : Type 0 where
  io_error protocol_error out_of_fuel : TransportError

pub record Stream : Type 0 where
  pub input : Bytes
  pub output : Bytes
  -- the pieces that the channel took, each with the number of bytes that had been written to the peer
  -- by then, which orders the pieces and the writes; and how many more its consumer takes before it
  -- stops
  pub pieces : List (ℕ × Bytes)
  pub room : Option ℕ

abbrev pub Io : Type 0 → Type 0
Io A = Call Stream TransportError A

-- `read_exact`; the error is what the caller maps an early end to.
unfoldable pub read_exact : TransportError → ℕ → Io Bytes
read_exact e n s = elim (leb n (length s.input)) [
  | true ↦ (ok (take n s.input), record s { input = drop n s.input })
  | false ↦ (err e, record s { input = [] })
]

-- `write_all`.
unfoldable pub write_all : Bytes → Io (Unit {0})
write_all bytes s = (ok tt, record s { output = s.output ++ bytes })

-- `let _ = sink.send(piece)`: a closed channel takes nothing.
unfoldable pub send : Bytes → Stream → Stream
send piece s = elim (s.room) [
  | none ↦ record s { pieces = s.pieces ++ ((length s.output, piece) ∷ []) }
  | some zero ↦ s
  | some (suc k) ↦ record s { pieces = s.pieces ++ ((length s.output, piece) ∷ []); room = some k }
]

-- The bytes up to CRLF, and what follows it. A CR that no LF follows is kept with the next byte.
unfoldable pub line_bytes : Bytes → Option (Bytes × Bytes)
line_bytes [] = none
line_bytes (b ∷ []) = none
line_bytes (b ∷ c ∷ s) = elim (b == b'\r') [
  | false ↦ and_then (line_bytes (c ∷ s)) (λ p. some (b ∷ p.0, p.1))
  | true ↦ elim (c == b'\n') [
    | true ↦ some ([], s)
    | false ↦ and_then (line_bytes s) (λ p. some (b ∷ c ∷ p.0, p.1))
  ]
]

-- `read_line`; every caller maps its error to a protocol error.
unfoldable pub read_line : Io Text
unfolding line_bytes from_utf8
read_line s = elim (line_bytes s.input) [
  | none ↦ (err protocol_error, record s { input = [] })
  | some p ↦ (ok_or (from_utf8 p.0) protocol_error, record s { input = p.1 })
]
