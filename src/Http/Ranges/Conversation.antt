-- ===== src/Http/Ranges/Conversation.antt =====
-- The requests of one connection for a file, and their answers, in order.
use exarrow_rs.Http.Ranges.Asked.{
  range_text, parse_byte_range-range_text, Ask, IsAsk, method_for, headers_for, ok_head, answer,
  answers, headers_for-IsHeader, file_size, whole_file, range,
}
use exarrow_rs.Http.Ranges.Served.{due, serve_byte_range-due, copy_loop-takes}
use exarrow_rs.Http.Ranges.{
  SeekableFile, open_file, serve_byte_range, serve_whole_file, write_span_response, serve_loop,
  serve_parquet_range_requests,
}
use exarrow_rs.Http.Request.Printed.{
  inserted, request_bytes, request_bytes-length, parse_http_request-request_bytes,
}
use exarrow_rs.Http.Request.Lines.{IsLineChar, IsPath}
use exarrow_rs.Http.Request.{HttpRequest, get, lookup, parse_http_request}
use exarrow_rs.Prelude.Text.{same_text}
use exarrow_rs.Http.{Stream, line_bytes, read_line, write_all}
use exarrow_rs.Prelude.Bytes.{Bytes}
use exarrow_rs.Prelude.Text.{Text, codes}
use exarrow_rs.Prelude.{
  ℕ, zero, suc, ◌+◌, ◌-◌, ◌≤◌, ◌<◌, List, [], ◌∷◌, ◌++◌, some, ok, ◌≡◌, refl, sym, ap, ◌∙◌, arith,
  length, take, All, append_assoc, append-nil,
}

take-all : (xs : Bytes) → take (length xs) xs ≡ xs
take-all [] = refl
take-all (x ∷ xs) = ap (λ t. x ∷ t) (take-all xs)

serve_whole_file-whole :
    (source : Bytes) (t : Stream)
    → serve_whole_file (open_file source) t
      ≡ (ok tt, record t { output = t.output ++ (ok_head source ++ source) })
unfolding serve_whole_file write_span_response open_file write_all
serve_whole_file-whole source t =
    let all : length source - 0 ≡ length source = omega arith in
    copy_loop-takes (length source - 0) (length source - 0) source
      (record t { output = t.output ++ ok_head source }) (omega arith) (omega arith)
    ∙ ap (λ out. (ok tt, record t { output = out }))
        (ap (λ bs. (t.output ++ ok_head source) ++ bs)
            (ap (λ n. take n source) all ∙ take-all source)
          ∙ append_assoc t.output (ok_head source) source)

module _ (to_lowercase : Text → Text) (path : Text) where
  -- The requests, each for the same path.
  abbrev pub conversation : List Ask → Bytes
  conversation [] = []
  conversation (a ∷ asks) =
      request_bytes to_lowercase (method_for a) path (headers_for a) (conversation asks)

  -- What is read of one request.
  abbrev request_for : Ask → HttpRequest
  request_for a = record {
    method = method_for a;
    path = path;
    headers = inserted to_lowercase (headers_for a) [];
  }

  serve_loop-end :
      (fuel : ℕ) (source : Bytes) (s : Stream)
      → s.input ≡ []
      → serve_loop to_lowercase (suc fuel) (open_file source) s ≡ (ok tt, record s { input = [] })
  unfolding serve_loop parse_http_request read_line line_bytes
  serve_loop-end fuel source s e = ground arith

  lookup-range :
      (value : Text)
      → to_lowercase (codes "Range") ≡ codes "range"
      → lookup ((to_lowercase (codes "Range"), value) ∷ []) (codes "range") ≡ some value
  unfolding lookup same_text
  lookup-range value e = rw e

  serve_loop-range :
      (fuel : ℕ) (file : SeekableFile) (r : HttpRequest) (value : Text) (s t u : Stream)
      → parse_http_request to_lowercase s ≡ (ok r, t)
      → r.method ≡ get
      → lookup r.headers (codes "range") ≡ some value
      → serve_byte_range file value t ≡ (ok tt, u)
      → serve_loop to_lowercase (suc fuel) file s ≡ serve_loop to_lowercase fuel file u
  unfolding serve_loop
  serve_loop-range fuel file r value s t u p m asked served = ground arith

  serve_loop-ask :
      (fuel : ℕ) (source : Bytes) (a : Ask) (s t : Stream)
      → to_lowercase (codes "Range") ≡ codes "range"
      → IsAsk a
      → parse_http_request to_lowercase s ≡ (ok (request_for a), t)
      → serve_loop to_lowercase (suc fuel) (open_file source) s
        ≡ serve_loop to_lowercase fuel
            (open_file source)
            (record t { output = t.output ++ answer source a })
  unfolding serve_loop open_file
  serve_loop-ask fuel source file_size s t e h p = rw p
  serve_loop-ask fuel source whole_file s t e h p = rw (p, serve_whole_file-whole source t)
  serve_loop-ask fuel source (range start end) s t e (h, k) p =
      let asked = lookup-range (range_text start end) e in
      let served = serve_byte_range-due source (range_text start end) t in
      let read = parse_byte_range-range_text start end h k in
      serve_loop-range fuel (open_file source) (request_for (range start end))
        (range_text start end) s t _ p refl asked
        (served ∙ ap (λ r. (ok tt, record t { output = t.output ++ due source r })) read)

  conversation-length : (asks : List Ask) → length asks ≤ length (conversation asks)
  conversation-length [] = omega arith
  conversation-length (a ∷ asks) = omega (
    arith,
    request_bytes-length to_lowercase (method_for a) path (headers_for a) (conversation asks),
    conversation-length asks,
  )

  serve_loop-conversation :
      (fuel : ℕ) (source : Bytes) (asks : List Ask) (s : Stream)
      → to_lowercase (codes "Range") ≡ codes "range"
      → IsPath path
      → All IsLineChar path
      → All IsAsk asks
      → length asks < fuel
      → s.input ≡ conversation asks
      → serve_loop to_lowercase fuel (open_file source) s
        ≡ (ok tt, record s { input = []; output = s.output ++ answers source asks })
  serve_loop-conversation zero source asks s e p c h k i = absurd (omega arith)
  serve_loop-conversation (suc fuel) source [] s e p c h k i =
      serve_loop-end fuel source s i
      ∙ ap (λ out. (ok tt, record s { input = []; output = out })) (sym (append-nil s.output))
  serve_loop-conversation (suc fuel) source (a ∷ asks) s e p c (h, hs) k i =
      serve_loop-ask fuel source a s (record s { input = conversation asks }) e h
        (parse_http_request-request_bytes to_lowercase (method_for a) path (headers_for a)
          (conversation asks) s p c (headers_for-IsHeader a) i)
      ∙ serve_loop-conversation fuel source asks
          (record s { input = conversation asks; output = s.output ++ answer source a }) e p c hs
          (omega arith) refl
      ∙ ap (λ out. (ok tt, record s { input = []; output = out }))
          (append_assoc s.output (answer source a) (answers source asks))

  -- Exasol may ask for the size of the file, the whole file and any ranges of it, in any order and
  -- number, and then close the connection: the driver answers each request, in order, with the size,
  -- the file, or what is due for the range, and ends without an error. The path is not empty and
  -- without blanks, bounds are below 2^64, and `to_lowercase` turns the header's name to `range`.
  pub serve_parquet_range_requests-conversation :
      (source : Bytes) (asks : List Ask) (s : Stream)
      → to_lowercase (codes "Range") ≡ codes "range"
      → IsPath path
      → All IsLineChar path
      → All IsAsk asks
      → s.input ≡ conversation asks
      → serve_parquet_range_requests to_lowercase source s
        ≡ (ok tt, record s { input = []; output = s.output ++ answers source asks })
  unfolding serve_parquet_range_requests
  serve_parquet_range_requests-conversation source asks s e p c h i =
      let enough : length asks < length s.input + 1 =
        rw i (omega (arith, conversation-length asks)) in
      serve_loop-conversation (length s.input + 1) source asks s e p c h enough i
