-- ===== src/Http/Ranges.antt =====
-- src/transport/http_transport.rs: a Parquet file served by HTTP range requests. The source is the
-- bytes of the file; its size was read when it was opened.
pub mod Served
pub mod Asked
pub mod Conversation
use exarrow_rs.Connection.Version.{split_once}
use exarrow_rs.Http.Chunks.{trim}
use exarrow_rs.Http.Request.{parse_http_request, get, put, head, lookup}
use exarrow_rs.Http.{Stream, TransportError, io_error, protocol_error, out_of_fuel, Io, write_all}
use exarrow_rs.Prelude.Bytes.{Bytes}
use exarrow_rs.Prelude.Call.{give, fail, attempt, ◌>>=◌, ◌>>◌}
use exarrow_rs.Prelude.Decimal.{show_nat, parse_unsigned}
use exarrow_rs.Prelude.Text.{Text, as_bytes, codes}
use exarrow_rs.Prelude.{
  ℕ, zero, suc, ◌+◌, ◌-◌, ◌^◌, min, Bool, true, false, ◌||◌, List, [], ◌∷◌, ◌++◌, Option, none,
  some, Result, ok, err, length, take, drop, ltb, leb, ◌==◌, and_then, if◌then◌else◌,
}

abbrev pub http_chunk_size : ℕ
http_chunk_size = 65536

pub record SeekableFile : Type 0 where
  pub source : Bytes
  pub len : ℕ

unfoldable pub open_file : Bytes → SeekableFile
open_file source = record { source = source; len = length source }

unfoldable pub strip_prefix : Text → Text → Option Text
strip_prefix s [] = some s
strip_prefix [] (p ∷ ps) = none
strip_prefix (c ∷ s) (p ∷ ps) = let rest = strip_prefix s ps in if c == p then rest else none

unfoldable pub parse_byte_range : Text → Option (ℕ × ℕ)
unfolding strip_prefix split_once trim parse_unsigned
parse_byte_range range_header = and_then (strip_prefix range_header (codes "bytes=")) λ range.
    let (start_str, end_str) = split_once b'-' range in
    and_then end_str λ end_str.
      and_then (parse_unsigned (2 ^ 64) (trim start_str))
        λ start. and_then (parse_unsigned (2 ^ 64) (trim end_str)) λ end. some (start, end)

-- The copying loop of `write_span_response`, with fuel; `left` is what the source still has.
unfoldable pub copy_loop : ℕ → ℕ → Bytes → Io (Unit {0})
unfolding write_all
copy_loop zero remaining left = if remaining == 0 then give tt else fail out_of_fuel
copy_loop (suc fuel) remaining left = elim (remaining == 0) [
  | true ↦ give tt
  | false ↦ elim (leb (min remaining http_chunk_size) (length left)) [
    | false ↦ fail io_error
    | true ↦ do
      write_all (take (min remaining http_chunk_size) left)
      copy_loop fuel (remaining - min remaining http_chunk_size)
          (drop (min remaining http_chunk_size) left)
  ]
]

-- The span is from `start` to before `end`.
unfoldable pub write_span_response : SeekableFile → Text → ℕ → ℕ → Io (Unit {0})
unfolding copy_loop write_all
write_span_response file head_text start end = do
  write_all (as_bytes head_text)
  copy_loop (end - start) (end - start) (drop start file.source)

unfoldable pub write_bad_request_response : Io (Unit {0})
unfolding write_all
write_bad_request_response = write_all (as_bytes (codes "HTTP/1.1 400 Bad Request\r\n\r\n"))

unfoldable pub write_file_size_response : ℕ → Io (Unit {0})
unfolding write_all show_nat
write_file_size_response file_len = write_all (
    as_bytes
      (codes "HTTP/1.1 200 OK\r\nContent-Length: " ++ (show_nat file_len ++ codes "\r\n\r\n")))

-- `head` of `serve_byte_range`.
unfoldable pub partial_head : ℕ → ℕ → ℕ → ℕ → Text
unfolding show_nat
partial_head span_len start clamped_end file_len =
    codes "HTTP/1.1 206 Partial Content\r\nContent-Length: "
    ++ (show_nat span_len
        ++ (codes "\r\nContent-Range: bytes "
            ++ (show_nat start
                ++ (b'-'
                    ∷ (show_nat clamped_end ++ (b'/' ∷ (show_nat file_len ++ codes "\r\n\r\n")))))))

unfoldable pub serve_byte_range : SeekableFile → Text → Io (Unit {0})
unfolding parse_byte_range write_bad_request_response write_span_response partial_head
serve_byte_range file range_header = elim (parse_byte_range range_header) [
  | none ↦ write_bad_request_response
  | some (start, end) ↦
      let clamped_end = min end (file.len - 1) in
      if file.len == 0 || leb file.len start
      then write_bad_request_response
      else if ltb clamped_end start
      then write_bad_request_response
      else (let span_len = clamped_end - start + 1 in
          write_span_response file (partial_head span_len start clamped_end file.len) start
            (clamped_end + 1))
]

unfoldable pub serve_whole_file : SeekableFile → Io (Unit {0})
unfolding write_span_response show_nat
serve_whole_file file =
    write_span_response file
      (codes "HTTP/1.1 200 OK\r\nContent-Length: " ++ (show_nat file.len ++ codes "\r\n\r\n")) 0
      file.len

module _ (to_lowercase : Text → Text) where
  -- The loop of `serve_parquet_range_requests`, with fuel. The end of the stream, like a malformed
  -- request, ends the conversation without an error.
  unfoldable pub serve_loop : ℕ → SeekableFile → Io (Unit {0})
  unfolding parse_http_request lookup serve_byte_range serve_whole_file write_file_size_response
      write_all
  serve_loop zero file = fail out_of_fuel
  serve_loop (suc fuel) file = do
    parsed ← attempt (parse_http_request to_lowercase)
    elim parsed [
      | err out_of_fuel ↦ fail out_of_fuel
      | err e ↦ give tt
      | ok request ↦ elim (request.method) [
        | head ↦ write_file_size_response file.len >> serve_loop fuel file
        | get ↦ elim (lookup request.headers (codes "range")) [
          | some range_header ↦ serve_byte_range file range_header >> serve_loop fuel file
          | none ↦ serve_whole_file file >> serve_loop fuel file
        ]
        | put ↦
            write_all (as_bytes (codes "HTTP/1.1 405 Method Not Allowed\r\n\r\n"))
            >> fail protocol_error
      ]
    ]

  -- Each request is a byte at least.
  unfoldable pub serve_parquet_range_requests : Bytes → Io (Unit {0})
  unfolding serve_loop open_file
  serve_parquet_range_requests source s = serve_loop (length s.input + 1) (open_file source) s
