-- ===== src/Http/Response/Export.antt =====
-- The request of an EXPORT whose body comes in chunks.
use exarrow_rs.Http.Chunks.Line.{trim-clean}
use exarrow_rs.Http.Chunks.Pieces.{deliver, join, IsSmall}
use exarrow_rs.Http.Chunks.RoundTrip.{in_chunks, IsChunk, forward_chunked_body-in_chunks}
use exarrow_rs.Http.Chunks.{forward_chunked_body}
use exarrow_rs.Http.Request.Printed.{
  IsHeader, inserted, request_bytes, parse_http_request-request_bytes,
}
use exarrow_rs.Http.Request.Lines.{IsLineChar, IsPath}
use exarrow_rs.Http.Request.{HttpRequest, put, lookup, is_chunked, parse_http_request}
use exarrow_rs.Prelude.Text.{same_text}
use exarrow_rs.Http.Response.{build_ok_response, handle_export_request}
use exarrow_rs.Http.{Stream, send, write_all}
use exarrow_rs.Prelude.Bytes.{Bytes}
use exarrow_rs.Prelude.Text.{Text, codes}
use exarrow_rs.Prelude.{
  ℕ, zero, suc, ◌-◌, Option, none, some, map, length, take, ap, ◌∙◌, append_assoc, append-nil, true,
  List, [], ◌∷◌, ◌++◌, ok, ◌≡◌, refl, arith, All,
}
use exarrow_rs.Query.Parameter.{contains}

-- The pieces that a channel with this room takes, and the room that is left.
abbrev pub taken : Option ℕ → List Bytes → List Bytes
taken none ps = ps
taken (some n) ps = take n ps

abbrev pub room_left : Option ℕ → List Bytes → Option ℕ
room_left none ps = none
room_left (some n) ps = some (n - length ps)

-- Pieces that are sent when `n` bytes have been written.
abbrev pub sent_after : ℕ → List Bytes → List (ℕ × Bytes)
sent_after n = map (λ p. (n, p))

-- The stream behind the body, whose pieces were all sent before the response was written.
abbrev pub answered : Stream → Bytes → List Bytes → Stream
answered s rest ps = record {
  input = rest;
  output = s.output ++ build_ok_response;
  pieces = s.pieces ++ sent_after (length s.output) (taken s.room ps);
  room = room_left s.room ps;
}

deliver-taken :
    (ps : List Bytes) (i o : Bytes) (q : List (ℕ × Bytes)) (r : Option ℕ)
    → deliver (record { input = i; output = o; pieces = q; room = r }) ps ≡ record {
      input = i;
      output = o;
      pieces = q ++ sent_after (length o) (taken r ps);
      room = room_left r ps;
    }
unfolding send
deliver-taken [] i o q none = rw (append-nil q)
deliver-taken [] i o q (some zero) = rw (append-nil q)
deliver-taken [] i o q (some (suc n)) =
    let whole : suc n - 0 ≡ suc n = omega arith in rw (append-nil q, whole)
deliver-taken (p ∷ ps) i o q none =
    deliver-taken ps i o (q ++ ((length o, p) ∷ [])) none
    ∙ ap (λ t. record { input = i; output = o; pieces = t; room = none })
        (append_assoc q ((length o, p) ∷ []) (sent_after (length o) ps))
deliver-taken (p ∷ ps) i o q (some zero) =
    let closed : 0 - suc (length ps) ≡ 0 - length ps = omega arith in
    rw closed (deliver-taken ps i o q (some zero))
deliver-taken (p ∷ ps) i o q (some (suc n)) =
    let fewer : suc n - suc (length ps) ≡ n - length ps = omega arith in
    rw fewer (
      deliver-taken ps i o (q ++ ((length o, p) ∷ [])) (some n)
      ∙ ap (λ t. record { input = i; output = o; pieces = t; room = some (n - length ps) })
          (append_assoc q ((length o, p) ∷ []) (sent_after (length o) (take n ps))))

module _ (to_lowercase : Text → Text) (path : Text) where
  abbrev pub chunked_headers : List (Text × Text)
  chunked_headers = (codes "Transfer-Encoding", codes "chunked") ∷ []

  -- What is read of the request.
  abbrev pub export_request : HttpRequest
  export_request = record {
    method = put;
    path = path;
    headers = inserted to_lowercase chunked_headers [];
  }

  pub chunked_headers-IsHeader : All IsHeader chunked_headers
  chunked_headers-IsHeader =
      ((ground arith, trim-clean (codes "chunked") (ground arith), ground arith), tt)

  export_request-is_chunked :
      to_lowercase (codes "Transfer-Encoding") ≡ codes "transfer-encoding"
      → to_lowercase (codes "chunked") ≡ codes "chunked"
      → is_chunked to_lowercase export_request ≡ true
  unfolding is_chunked lookup same_text contains
  export_request-is_chunked e f = rw (e, f)

  handle_export_request-steps :
      (s t u : Stream)
      → parse_http_request to_lowercase s ≡ (ok export_request, t)
      → is_chunked to_lowercase export_request ≡ true
      → forward_chunked_body t ≡ (ok tt, u)
      → handle_export_request to_lowercase s
        ≡ (ok export_request, record u { output = u.output ++ build_ok_response })
  unfolding handle_export_request write_all
  handle_export_request-steps s t u p c f = rw (p, c, f)

  -- An EXPORT whose rows come in chunks: the driver reads the request, hands the whole body to the
  -- channel in pieces of at most 64 KiB, as many as its consumer takes, each of them before a byte of
  -- the response is written, and then answers 200 OK, with the stream behind the body. A chunk has a
  -- byte at least and fewer than 2^64; the path is not empty and without blanks; and `to_lowercase`
  -- gives the lower case of the header's name and value.
  pub handle_export_request-in_chunks :
      (chunks : List Bytes) (rest : Bytes) (s : Stream)
      → to_lowercase (codes "Transfer-Encoding") ≡ codes "transfer-encoding"
      → to_lowercase (codes "chunked") ≡ codes "chunked"
      → IsPath path
      → All IsLineChar path
      → All IsChunk chunks
      → s.input ≡ request_bytes to_lowercase put path chunked_headers (in_chunks chunks ++ rest)
      → (ps : List Bytes) × (join ps ≡ join chunks)
        × All IsSmall ps
        × (handle_export_request to_lowercase s ≡ (ok export_request, answered s rest ps))
  handle_export_request-in_chunks chunks rest s e f p c h i =
      let parsed =
        parse_http_request-request_bytes to_lowercase put path chunked_headers
          (in_chunks chunks ++ rest) s p c chunked_headers-IsHeader i in
      let (ps, joined, smalls, sent) =
        forward_chunked_body-in_chunks chunks rest (record s { input = in_chunks chunks ++ rest }) h
          refl in
      (
        ps,
        joined,
        smalls,
        handle_export_request-steps s _ _ parsed (export_request-is_chunked e f) sent
            ∙ ap (λ u. (ok export_request, record u { output = u.output ++ build_ok_response }))
                (deliver-taken ps rest s.output s.pieces s.room),
      )
