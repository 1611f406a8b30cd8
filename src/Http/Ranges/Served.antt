-- ===== src/Http/Ranges/Served.antt =====
-- What a request for a range of a file is answered.
use exarrow_rs.Http.Ranges.{
  http_chunk_size, open_file, parse_byte_range, copy_loop, write_span_response,
  write_bad_request_response, partial_head, serve_byte_range,
}
use exarrow_rs.Http.{Stream, write_all}
use exarrow_rs.Prelude.Bytes.{Bytes}
use exarrow_rs.Prelude.Decimal.{show_nat}
use exarrow_rs.Prelude.Text.{Text, as_bytes, codes}
use exarrow_rs.Prelude.{
  ℕ, zero, suc, ◌+◌, ◌-◌, ◌≤◌, ◌<◌, min, true, false, ◌&&◌, ◌∷◌, ◌++◌, Option, none, some, ok, ◌≡◌,
  sym, ap, ◌∙◌, arith, length, take, drop, length-drop, length-take, refl, take-take-drop,
  append_assoc, append-nil, ltb, leb, ◌==◌, if◌then◌else◌, inl, inr, Bool-cases, Option-cases,
}

copy_loop-more :
    (fuel n : ℕ) (left : Bytes) (s : Stream)
    → 0 < n
    → leb (min n http_chunk_size) (length left) ≡ true
    → copy_loop (suc fuel) n left s
      ≡ copy_loop fuel
          (n - min n http_chunk_size)
          (drop (min n http_chunk_size) left)
          (record s { output = s.output ++ take (min n http_chunk_size) left })
unfolding copy_loop write_all
copy_loop-more fuel n left s h k = let some_left : (n == 0) ≡ false = ground arith in ground arith

pub copy_loop-takes :
    (fuel n : ℕ) (left : Bytes) (s : Stream)
    → n ≤ fuel
    → n ≤ length left
    → copy_loop fuel n left s ≡ (ok tt, record s { output = s.output ++ take n left })
unfolding copy_loop write_all
copy_loop-takes zero zero left s h k = ground (arith, append-nil s.output)
copy_loop-takes (suc fuel) zero left s h k = ground (arith, append-nil s.output)
copy_loop-takes zero (suc n) left s h k = absurd (omega arith)
copy_loop-takes (suc fuel) (suc n) left s h k =
    let m = min (suc n) http_chunk_size in
    let enough : leb m (length left) ≡ true = ground arith in
    let sum : suc n ≡ m + (suc n - m) = ground arith in
    let whole : take (suc n) left ≡ take m left ++ take (suc n - m) (drop m left) =
      ap (λ i. take i left) sum ∙ take-take-drop m (suc n - m) left in
    copy_loop-more fuel (suc n) left s (omega arith) enough
    ∙ copy_loop-takes fuel (suc n - m) (drop m left) (record s { output = s.output ++ take m left })
        (ground arith) (ground (arith, length-drop m left))
    ∙ ap (λ out. (ok tt, record s { output = out }))
        (append_assoc s.output (take m left) (take (suc n - m) (drop m left))
          ∙ ap (λ t. s.output ++ t) (sym whole))

-- The bytes of the file from `start` to `last`, both included.
abbrev pub slice : Bytes → ℕ → ℕ → Bytes
slice source start last = take (last + 1 - start) (drop start source)

write_span_response-slice :
    (source : Bytes) (text : Text) (start last : ℕ) (s : Stream)
    → start ≤ last
    → last < length source
    → write_span_response (open_file source) text start (last + 1) s
      ≡ (ok tt, record s { output = s.output ++ (as_bytes text ++ slice source start last) })
unfolding write_span_response open_file write_all
write_span_response-slice source text start last s h k =
    copy_loop-takes (last + 1 - start) (last + 1 - start) (drop start source)
      (record s { output = s.output ++ as_bytes text }) (omega arith)
      (omega (arith, length-drop start source))
    ∙ ap (λ out. (ok tt, record s { output = out }))
        (append_assoc s.output (as_bytes text) (slice source start last))

abbrev pub bad_request : Bytes
bad_request = as_bytes (codes "HTTP/1.1 400 Bad Request\r\n\r\n")

-- A 206 response with a body that stands in a file of `len` bytes from `start` on: its
-- Content-Length is the length of the body, and its Content-Range the offsets of the body's first and
-- last byte.
abbrev pub partial_response : ℕ → ℕ → Bytes → Bytes
partial_response start len body =
    as_bytes (
      codes "HTTP/1.1 206 Partial Content\r\nContent-Length: "
      ++ (show_nat (length body)
          ++ (codes "\r\nContent-Range: bytes "
              ++ (show_nat start
                  ++ (b'-'
                      ∷ (show_nat (start + length body - 1)
                          ++ (b'/' ∷ (show_nat len ++ codes "\r\n\r\n"))))))))
    ++ body

-- What is due for a range of a file: its bytes, as far as the file goes; or the refusal, where no
-- byte of the file is in the range or there is no range.
abbrev pub due : Bytes → Option (ℕ × ℕ) → Bytes
due source none = bad_request
due source (some (start, end)) =
    if leb start end && ltb start (length source)
    then partial_response start (length source) (slice source start (min end (length source - 1)))
    else bad_request

length-slice :
    (source : Bytes) (start last : ℕ)
    → start ≤ last
    → last < length source
    → length (slice source start last) ≡ last - start + 1
length-slice source start last h k =
    length-take (last + 1 - start) (drop start source) (omega (arith, length-drop start source))
    ∙ omega arith

-- The head that the code writes is that of the body it writes.
partial_head-slice :
    (source : Bytes) (start last : ℕ)
    → start ≤ last
    → last < length source
    → as_bytes (partial_head (last - start + 1) start last (length source))
        ++ slice source start last
      ≡ partial_response start (length source) (slice source start last)
unfolding partial_head
partial_head-slice source start last h k =
    let size = length-slice source start last h k in
    let end : start + (last - start + 1) - 1 ≡ last = omega arith in rw (size, end) refl

serve_byte_range-inside :
    (source : Bytes) (start end : ℕ) (s : Stream) (header : Text)
    → parse_byte_range header ≡ some (start, end)
    → start ≤ end
    → start < length source
    → serve_byte_range (open_file source) header s
      ≡ write_span_response
          (open_file source)
          (partial_head
            (min end (length source - 1) - start + 1)
            start
            (min end (length source - 1))
            (length source))
          start
          (min end (length source - 1) + 1)
          s
unfolding serve_byte_range open_file
serve_byte_range-inside source start end s header e h k = ground arith

serve_byte_range-outside :
    (source : Bytes) (start end : ℕ) (s : Stream) (header : Text)
    → parse_byte_range header ≡ some (start, end)
    → (leb start end && ltb start (length source)) ≡ false
    → serve_byte_range (open_file source) header s
      ≡ (ok tt, record s { output = s.output ++ bad_request })
unfolding serve_byte_range write_bad_request_response write_all open_file
serve_byte_range-outside source start end s header e h = ground arith

serve_byte_range-malformed :
    (source : Bytes) (s : Stream) (header : Text)
    → parse_byte_range header ≡ none
    → serve_byte_range (open_file source) header s
      ≡ (ok tt, record s { output = s.output ++ bad_request })
unfolding serve_byte_range write_bad_request_response write_all
serve_byte_range-malformed source s header e = ground arith

-- A range request for a file is answered, without an error, with exactly what is due. Where the
-- header is read as a range with a byte of the file in it, that is a 206 response with the bytes from
-- the start of the range to its end or to the end of the file, whose Content-Length is the number of
-- these bytes and whose Content-Range names the offsets of the first and the last of them and the
-- size of the file; else, also where `parse_byte_range` reads no range, it is 400.
pub serve_byte_range-due :
    (source : Bytes) (header : Text) (s : Stream)
    → serve_byte_range (open_file source) header s
      ≡ (ok tt, record s { output = s.output ++ due source (parse_byte_range header) })
serve_byte_range-due source header s = elim (Option-cases (parse_byte_range header)) [
  | inl malformed ↦ rw malformed (serve_byte_range-malformed source s header malformed)
  | inr ((start, end), e) ↦ elim (Bool-cases (leb start end && ltb start (length source))) [
    | inl inside ↦
        let last = min end (length source - 1) in
        let served =
          serve_byte_range-inside source start end s header e (ground arith) (ground arith)
          ∙ write_span_response-slice source
              (partial_head (last - start + 1) start last (length source)) start last s
              (ground arith) (ground arith)
          ∙ ap (λ out. (ok tt, record s { output = s.output ++ out }))
              (partial_head-slice source start last (ground arith) (ground arith)) in
        rw (e, inside) served
    | inr outside ↦ rw (e, outside) (serve_byte_range-outside source start end s header e outside)
  ]
]
