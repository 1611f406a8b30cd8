-- ===== src/Tests/Http.antt =====
-- The HTTP tunnel.
use mathlib.Core.List.{flat_map}
use exarrow_rs.Http.Chunks.Pieces.{join, IsSmall, Arrives}
use exarrow_rs.Http.Chunks.RoundTrip.{in_chunks, forward_chunked_body-in_chunks}
use exarrow_rs.Http.Chunks.{encode_chunk, forward_chunked_body}
use exarrow_rs.Http.Ranges.Conversation.{conversation, serve_parquet_range_requests-conversation}
use exarrow_rs.Http.Ranges.Asked.{Ask, file_size, whole_file, range, answers}
use exarrow_rs.Http.Ranges.Served.{due, serve_byte_range-due}
use exarrow_rs.Http.Ranges.{
  open_file, parse_byte_range, serve_byte_range, serve_parquet_range_requests,
}
use exarrow_rs.Http.Request.Printed.{inserted, request_bytes, parse_http_request-request_bytes}
use exarrow_rs.Http.Request.Lines.{IsLineChar}
use exarrow_rs.Http.Request.{put, parse_http_request}
use exarrow_rs.Http.Response.Export.{
  answered, chunked_headers, chunked_headers-IsHeader, export_request,
  handle_export_request-in_chunks,
}
use exarrow_rs.Http.Response.{handle_export_request}
use exarrow_rs.Http.{Stream, line_bytes}
use exarrow_rs.Prelude.Bytes.{Bytes}
use exarrow_rs.Prelude.Text.{Text, codes, as_bytes, utf8}
use exarrow_rs.Prelude.{
  ◌+◌, List, [], ◌∷◌, ◌++◌, map, none, some, ok, ◌≡◌, refl, arith, All, within, if◌then◌else◌,
}

abbrev lower : Text → Text
lower = map (λ c. if within b'A' b'Z' c then c + 32 else c)

abbrev receiving : Bytes → Stream
receiving input = record { input = input; output = []; pieces = []; room = none }

abbrev two_chunks : List Bytes
two_chunks = codes "a,b\n" ∷ codes "c" ∷ []

encode_two : in_chunks two_chunks ≡ codes "4\r\na,b\n\r\n1\r\nc\r\n0\r\n\r\n"
unfolding encode_chunk flat_map as_bytes utf8
encode_two = refl

forward_chunked_body-in_chunks_example :
    Arrives
      (join two_chunks)
      (codes "GET")
      (receiving (in_chunks two_chunks ++ codes "GET"))
      (forward_chunked_body (receiving (in_chunks two_chunks ++ codes "GET")))
forward_chunked_body-in_chunks_example =
    forward_chunked_body-in_chunks two_chunks (codes "GET")
      (receiving (in_chunks two_chunks ++ codes "GET")) (ground arith) refl

-- A CR behind which comes CRLF does not let the line end there.
line_after_cr : line_bytes (codes "a\r\r\nb\r\nc") ≡ some (codes "a\r\r\nb", codes "c")
unfolding line_bytes
line_after_cr = refl

abbrev parquet : Bytes
parquet = codes "PAR1data"

serve_byte_range-due_example :
    serve_byte_range (open_file parquet) (codes "bytes=4-99") (receiving []) ≡ (
      ok tt,
      record (receiving []) { output = [] ++ due parquet (parse_byte_range (codes "bytes=4-99")) },
    )
serve_byte_range-due_example = serve_byte_range-due parquet (codes "bytes=4-99") (receiving [])

abbrev file_path : Text
file_path = codes "/f.parquet"

file_path-IsLine : All IsLineChar file_path
file_path-IsLine = ground arith

abbrev asks : List Ask
asks = file_size ∷ range 4 99 ∷ range 8 9 ∷ whole_file ∷ []

serve_parquet_range_requests-conversation_example :
    serve_parquet_range_requests lower parquet (receiving (conversation lower file_path asks)) ≡ (
      ok tt,
      record (receiving (conversation lower file_path asks)) {
        input = [];
        output = [] ++ answers parquet asks;
      },
    )
serve_parquet_range_requests-conversation_example =
    serve_parquet_range_requests-conversation lower file_path parquet asks
      (receiving (conversation lower file_path asks)) refl (ground arith) file_path-IsLine
      (ground arith) refl

parse_http_request-request_bytes_example :
    parse_http_request lower
      (receiving (request_bytes lower put file_path (chunked_headers lower file_path) (codes "0")))
    ≡ (
      ok (record {
        method = put;
        path = file_path;
        headers = inserted lower (chunked_headers lower file_path) [];
      }),
      receiving (codes "0"),
    )
parse_http_request-request_bytes_example =
    parse_http_request-request_bytes lower put file_path (chunked_headers lower file_path)
      (codes "0")
      (receiving (request_bytes lower put file_path (chunked_headers lower file_path) (codes "0")))
      (ground arith) file_path-IsLine (chunked_headers-IsHeader lower file_path) refl

abbrev export_input : Bytes
export_input =
    request_bytes lower put file_path (chunked_headers lower file_path) (in_chunks two_chunks ++ [])

handle_export_request-in_chunks_example :
    (ps : List Bytes) × (join ps ≡ join two_chunks)
    × All IsSmall ps
    × (handle_export_request lower (receiving export_input)
        ≡ (ok (export_request lower file_path), answered (receiving export_input) [] ps))
handle_export_request-in_chunks_example =
    handle_export_request-in_chunks lower file_path two_chunks [] (receiving export_input) refl refl
      (ground arith) file_path-IsLine (ground arith) refl
