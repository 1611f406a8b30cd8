-- ===== src/Http/Request.antt =====
-- src/transport/http_transport.rs: requests and responses. `str::to_lowercase` is not code of this
-- repository; the map of headers is the list of what was inserted, the latest in front.
pub mod Lines
pub mod Printed
use exarrow_rs.Connection.Version.{split_once}
use exarrow_rs.Http.Chunks.{trim, forward_sized_body, forward_chunked_body}
use exarrow_rs.Http.{Stream, TransportError, protocol_error, out_of_fuel, Io, read_line, write_all}
use exarrow_rs.Prelude.Bytes.{Bytes}
use exarrow_rs.Prelude.Call.{give, fail, from, ◌>>=◌, ◌>>◌}
use exarrow_rs.Prelude.Decimal.{show_nat, parse_unsigned}
use exarrow_rs.Prelude.Text.{same_text, Text, as_bytes, codes}
use exarrow_rs.Prelude.{
  ℕ, zero, suc, ◌+◌, ◌^◌, Bool, true, false, not, ◌&&◌, ◌||◌, List, [], ◌∷◌, ◌++◌, Option, none,
  some, Result, ok, err, ok_or, length, ◌==◌, and_then, within, if◌then◌else◌,
}
use exarrow_rs.Query.Parameter.{contains}
use exarrow_rs.Query.Statement.{is_whitespace}

abbrev pub add_word : Text → List Text → List Text
add_word [] words = words
add_word (c ∷ w) words = (c ∷ w) ∷ words

-- The word at the front, which may be empty, and the words behind it.
unfoldable pub words_from : Text → Text × List Text
words_from [] = ([], [])
words_from (c ∷ s) =
    let (word, words) = words_from s in
    if is_whitespace c then ([], add_word word words) else (c ∷ word, words)

-- `split_whitespace`.
unfoldable pub split_whitespace : Text → List Text
unfolding words_from
split_whitespace s = let (word, words) = words_from s in add_word word words

pub data HttpMethod : Type 0 where
  get put head : HttpMethod

unfoldable pub method_of : Text → Option HttpMethod
unfolding same_text
method_of s =
    if same_text s (codes "GET")
    then some get
    else if same_text s (codes "PUT")
    then some put
    else if same_text s (codes "HEAD")
    then some head
    else none

abbrev pub Headers : Type 0
Headers = List (Text × Text)

pub record HttpRequest : Type 0 where
  pub method : HttpMethod
  pub path : Text
  pub headers : Headers

-- `HashMap::get`.
unfoldable pub lookup : Headers → Text → Option Text
unfolding same_text
lookup [] name = none
lookup ((n, v) ∷ hs) name = let older = lookup hs name in if same_text n name then some v else older

unfoldable pub content_length : HttpRequest → Option ℕ
unfolding lookup parse_unsigned
content_length r = and_then (lookup r.headers (codes "content-length")) (parse_unsigned (2 ^ 64))

-- The method and the path; the third word is not looked at.
unfoldable pub parse_request_line : Text → Result TransportError (HttpMethod × Text)
unfolding split_whitespace method_of
parse_request_line line = elim (split_whitespace line) [
  | [] ↦ err protocol_error
  | a ∷ [] ↦ err protocol_error
  | a ∷ b ∷ [] ↦ err protocol_error
  | a ∷ b ∷ c ∷ more ↦ elim (method_of a) [ some m ↦ ok (m, b) | none ↦ err protocol_error ]
]

module _ (to_lowercase : Text → Text) where
  unfoldable pub is_chunked : HttpRequest → Bool
  unfolding lookup contains
  is_chunked r = elim (lookup r.headers (codes "transfer-encoding")) [
    | some v ↦ contains (to_lowercase v) (codes "chunked")
    | none ↦ false
  ]

  -- A line without a colon is passed over.
  unfoldable pub add_header : Text → Headers → Headers
  unfolding split_once trim
  add_header line headers = elim ((split_once b':' line).1) [
    | some value ↦ (to_lowercase (trim (split_once b':' line).0), trim value) ∷ headers
    | none ↦ headers
  ]

  -- The loop over the header lines, with fuel.
  unfoldable pub header_loop : ℕ → Headers → Io Headers
  unfolding read_line add_header
  header_loop zero headers = fail out_of_fuel
  header_loop (suc fuel) headers = do
    line ← read_line
    elim line [ [] ↦ give headers | c ∷ cs ↦ header_loop fuel (add_header (c ∷ cs) headers) ]

  -- Each line is a byte at least.
  unfoldable pub read_headers : Io Headers
  unfolding header_loop
  read_headers s = header_loop (length s.input + 1) [] s

  unfoldable pub parse_http_request : Io HttpRequest
  unfolding read_line parse_request_line read_headers
  parse_http_request = do
    request_line ← read_line
    first ← from (λ e. e) (parse_request_line request_line)
    headers ← read_headers
    give (record { method = first.0; path = first.1; headers = headers })
