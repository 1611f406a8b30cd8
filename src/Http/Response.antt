-- ===== src/Http/Response.antt =====
-- src/transport/http_transport.rs: responses, and the requests of an IMPORT and of an EXPORT. The
-- tunnel is open: a closed one refuses before the stream is touched.
pub mod Export
use exarrow_rs.Http.Chunks.{encode_chunk, forward_sized_body, forward_chunked_body}
use exarrow_rs.Http.Request.{
  HttpRequest, HttpMethod, get, put, head, parse_http_request, is_chunked, content_length,
}
use exarrow_rs.Prelude.Text.{same_text}
use exarrow_rs.Http.{Stream, TransportError, protocol_error, Io, write_all}
use exarrow_rs.Prelude.Bytes.{Bytes}
use exarrow_rs.Prelude.Call.{give, fail, ◌>>=◌, ◌>>◌}
use exarrow_rs.Prelude.Decimal.{show_nat}
use exarrow_rs.Prelude.Text.{Text, as_bytes, codes}
use exarrow_rs.Prelude.{
  ℕ, ◌+◌, Bool, true, false, ◌||◌, List, [], ◌∷◌, ◌++◌, map, Option, none, some, length, within,
  if◌then◌else◌,
}

abbrev to_ascii_lowercase : ℕ → ℕ
to_ascii_lowercase c = if within b'A' b'Z' c then c + 32 else c

-- `eq_ignore_ascii_case`.
abbrev eq_ignore_ascii_case : Text → Text → Bool
eq_ignore_ascii_case s t = same_text (map to_ascii_lowercase s) (map to_ascii_lowercase t)

abbrev crlf : Text
crlf = codes "\r\n"

unfoldable pub header_lines : List (Text × Text) → Text
header_lines [] = []
header_lines ((name, value) ∷ hs) = name ++ (codes ": " ++ (value ++ (crlf ++ header_lines hs)))

unfoldable pub has_content_length : List (Text × Text) → Bool
unfolding same_text
has_content_length [] = false
has_content_length ((name, value) ∷ hs) =
    eq_ignore_ascii_case name (codes "content-length") || has_content_length hs

abbrev length_line : List (Text × Text) → Option Bytes → Text
length_line headers none = []
length_line headers (some body) =
    if has_content_length headers
    then []
    else codes "Content-Length: " ++ (show_nat (length body) ++ crlf)

abbrev body_bytes : Option Bytes → Bytes
body_bytes none = []
body_bytes (some body) = body

unfoldable pub build_http_response : ℕ → Text → List (Text × Text) → Option Bytes → Bytes
unfolding header_lines has_content_length show_nat
build_http_response status_code status_text headers body =
    as_bytes (
      codes "HTTP/1.1 "
      ++ (show_nat status_code
          ++ (b' '
              ∷ (status_text
                  ++ (crlf ++ (header_lines headers ++ (length_line headers body ++ crlf)))))))
    ++ body_bytes body

abbrev pub build_chunked_response_headers : Bytes
build_chunked_response_headers =
    build_http_response 200 (codes "OK")
      ((codes "Content-Type", codes "application/octet-stream")
        ∷ (codes "Transfer-Encoding", codes "chunked")
        ∷ [])
      none

abbrev pub build_ok_response : Bytes
build_ok_response = build_http_response 200 (codes "OK") [] none

-- An empty chunk would end the body, and is not written.
unfoldable pub write_chunked_body : Bytes → Io (Unit {0})
unfolding encode_chunk
write_chunked_body [] = give tt
write_chunked_body (b ∷ bs) = write_all (encode_chunk (b ∷ bs))

unfoldable pub write_final_chunk : Io (Unit {0})
unfolding encode_chunk
write_final_chunk = write_all (encode_chunk [])

module _ (to_lowercase : Text → Text) where
  unfoldable pub handle_import_request : Io HttpRequest
  unfolding parse_http_request write_all
  handle_import_request = do
    request ← parse_http_request to_lowercase
    elim (request.method) [
      | get ↦ write_all build_chunked_response_headers >> give request
      | put ↦ fail protocol_error
      | head ↦ fail protocol_error
    ]

  abbrev read_body : HttpRequest → Io (Unit {0})
  read_body request =
      if is_chunked to_lowercase request
      then forward_chunked_body
      else (elim (content_length request) [
        | some n ↦ forward_sized_body n
        | none ↦ fail protocol_error
      ])

  unfoldable pub handle_export_request : Io HttpRequest
  unfolding parse_http_request is_chunked content_length write_all
  handle_export_request = do
    request ← parse_http_request to_lowercase
    elim (request.method) [
      | put ↦ read_body request >> write_all build_ok_response >> give request
      | get ↦ fail protocol_error
      | head ↦ fail protocol_error
    ]
