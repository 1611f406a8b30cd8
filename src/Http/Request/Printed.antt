-- ===== src/Http/Request/Printed.antt =====
-- A request that is printed is read back.
use exarrow_rs.Http.Request.Lines.{
  IsLineChar, line, read_line-line, method_text, request_line, method_text-IsLine, version-IsLine,
  IsPath, parse_request_line-request_line,
}
use exarrow_rs.Connection.Version.{split_once}
use exarrow_rs.Http.Chunks.Line.{IsInk, trim-clean}
use exarrow_rs.Http.Chunks.{trim}
use exarrow_rs.Http.Request.{
  HttpMethod, Headers, add_header, header_loop, read_headers, parse_http_request,
}
use exarrow_rs.Http.{Stream, read_line}
use exarrow_rs.Prelude.Bytes.{Bytes}
use exarrow_rs.Prelude.Text.{Text, as_bytes, codes}
use exarrow_rs.Prelude.{
  ℕ, zero, suc, ◌+◌, ◌≤◌, ◌<◌, false, List, [], ◌∷◌, ◌++◌, ◌≢◌, some, ok, ◌≡◌, refl, ◌∙◌, arith,
  length, All, All-append, length-append, inl, ◌==◌,
}
use exarrow_rs.Query.Statement.{trim_start}

-- A header line, `Name: value`.
abbrev pub header_line : Text × Text → Text
header_line (name, value) = name ++ (b':' ∷ b' ' ∷ value)

-- A name without blanks and colons; a value without blanks at its ends and without line breaks.
abbrev pub IsHeader : Text × Text → Type 0
IsHeader (name, value) =
    All (λ c. IsInk c × (c ≢ b':') × IsLineChar c) name
    × (trim value ≡ value)
    × All IsLineChar value

split_once-colon :
    (name s : Text)
    → All (λ c. IsInk c × (c ≢ b':') × IsLineChar c) name
    → split_once b':' (name ++ (b':' ∷ s)) ≡ (name, some s)
unfolding split_once
split_once-colon [] s h = refl
split_once-colon (c ∷ name) s ((ink, apart, chr), hs) =
    let other : (c == b':') ≡ false = ground arith in rw (other, split_once-colon name s hs)

name-IsInk : (name : Text) → All (λ c. IsInk c × (c ≢ b':') × IsLineChar c) name → All IsInk name
name-IsInk [] h = tt
name-IsInk (c ∷ name) ((ink, apart, chr), hs) = (ink, name-IsInk name hs)

name-IsLine :
    (name : Text) → All (λ c. IsInk c × (c ≢ b':') × IsLineChar c) name → All IsLineChar name
name-IsLine [] h = tt
name-IsLine (c ∷ name) ((ink, apart, chr), hs) = (chr, name-IsLine name hs)

header_line-IsLine :
    (name value : Text)
    → All (λ c. IsInk c × (c ≢ b':') × IsLineChar c) name
    → All IsLineChar value
    → All IsLineChar (header_line (name, value))
header_line-IsLine name value n l =
    All-append IsLineChar name (b':' ∷ b' ' ∷ value) (name-IsLine name n)
      ((inl (omega arith), λ e. ground arith), ((inl (omega arith), λ e. ground arith), l))

trim-blank : (s : Text) → trim (b' ' ∷ s) ≡ trim s
unfolding trim trim_start
trim-blank s = refl

module _ (to_lowercase : Text → Text) where
  -- The map after the headers were inserted in order.
  abbrev pub inserted : List (Text × Text) → Headers → Headers
  inserted [] older = older
  inserted ((name, value) ∷ hs) older = inserted hs ((to_lowercase name, value) ∷ older)

  add_header-header_line :
      (name value : Text) (older : Headers)
      → IsHeader (name, value)
      → add_header to_lowercase (header_line (name, value)) older
        ≡ (to_lowercase name, value) ∷ older
  unfolding add_header
  add_header-header_line name value older (n, v, l) = rw (
    add_header,
    split_once-colon name (b' ' ∷ value) n,
    split_once-colon name (b' ' ∷ value) n,
    trim-clean name (name-IsInk name n),
    trim-blank value,
    v,
  )

  -- The lines of the headers and the empty line, in front of what follows the request.
  abbrev pub header_bytes : List (Text × Text) → Bytes → Bytes
  header_bytes [] rest = line [] rest
  header_bytes (h ∷ hs) rest = line (header_line h) (header_bytes hs rest)

  header_loop-line :
      (fuel : ℕ) (older : Headers) (text : Text) (s t : Stream)
      → 0 < length text
      → read_line s ≡ (ok text, t)
      → header_loop to_lowercase (suc fuel) older s
        ≡ header_loop to_lowercase fuel (add_header to_lowercase text older) t
  unfolding header_loop
  header_loop-line fuel older [] s t full e = absurd (omega arith)
  header_loop-line fuel older (c ∷ cs) s t full e = rw e

  header_loop-end :
      (fuel : ℕ) (older : Headers) (s t : Stream)
      → read_line s ≡ (ok [], t)
      → header_loop to_lowercase (suc fuel) older s ≡ (ok older, t)
  unfolding header_loop
  header_loop-end fuel older s t e = rw e

  header_loop-header_bytes :
      (fuel : ℕ) (hs : List (Text × Text)) (older : Headers) (rest : Bytes) (s : Stream)
      → length hs < fuel
      → All IsHeader hs
      → s.input ≡ header_bytes hs rest
      → header_loop to_lowercase fuel older s ≡ (ok (inserted hs older), record s { input = rest })
  header_loop-header_bytes zero hs older rest s k h i = absurd (omega arith)
  header_loop-header_bytes (suc fuel) [] older rest s k h i =
      header_loop-end fuel older s _ (read_line-line [] rest s tt i)
  header_loop-header_bytes (suc fuel) ((name, value) ∷ hs) older rest s k ((n, v, l), h) i =
      let full : 0 < length (header_line (name, value)) =
        omega (arith, length-append name (b':' ∷ b' ' ∷ value)) in
      header_loop-line fuel older (header_line (name, value)) s _ full (
        read_line-line (header_line (name, value)) (header_bytes hs rest) s
          (header_line-IsLine name value n l) i)
      ∙ rw (add_header-header_line name value older (n, v, l)) (
          header_loop-header_bytes fuel hs ((to_lowercase name, value) ∷ older) rest
            (record s { input = header_bytes hs rest }) (omega arith) h refl)

  header_bytes-length :
      (hs : List (Text × Text)) (rest : Bytes) → length hs < length (header_bytes hs rest)
  header_bytes-length [] rest = omega (arith, length-append (as_bytes []) (b'\r' ∷ b'\n' ∷ rest))
  header_bytes-length (h ∷ hs) rest = omega (
    arith,
    length-append (as_bytes (header_line h)) (b'\r' ∷ b'\n' ∷ header_bytes hs rest),
    header_bytes-length hs rest,
  )

  header_bytes-rest :
      (hs : List (Text × Text)) (rest : Bytes) → length rest ≤ length (header_bytes hs rest)
  header_bytes-rest [] rest = omega (arith, length-append (as_bytes []) (b'\r' ∷ b'\n' ∷ rest))
  header_bytes-rest (h ∷ hs) rest = omega (
    arith,
    length-append (as_bytes (header_line h)) (b'\r' ∷ b'\n' ∷ header_bytes hs rest),
    header_bytes-rest hs rest,
  )

  -- A request, in front of what follows it.
  abbrev pub request_bytes : HttpMethod → Text → List (Text × Text) → Bytes → Bytes
  request_bytes m path hs rest = line (request_line m path) (header_bytes hs rest)

  pub request_bytes-length :
      (m : HttpMethod) (path : Text) (hs : List (Text × Text)) (rest : Bytes)
      → length rest < length (request_bytes m path hs rest)
  request_bytes-length m path hs rest = omega (
    arith,
    length-append (as_bytes (request_line m path)) (b'\r' ∷ b'\n' ∷ header_bytes hs rest),
    header_bytes-rest hs rest,
  )

  request_line-IsLine :
      (m : HttpMethod) (path : Text) → All IsLineChar path → All IsLineChar (request_line m path)
  request_line-IsLine m path h =
      All-append IsLineChar (method_text m) (b' ' ∷ (path ++ codes " HTTP/1.1"))
        (method_text-IsLine m)
        (ground arith, All-append IsLineChar path (codes " HTTP/1.1") h version-IsLine)

  -- A request that is printed is read back, with any bytes behind it: its method, its path and its
  -- headers, the names in lower case and the latest of a name in front. The path is not empty and
  -- without blanks, a name is without blanks and colons, a value without blanks at its ends, and no
  -- line has a carriage return.
  pub parse_http_request-request_bytes :
      (m : HttpMethod) (path : Text) (hs : List (Text × Text)) (rest : Bytes) (s : Stream)
      → IsPath path
      → All IsLineChar path
      → All IsHeader hs
      → s.input ≡ request_bytes m path hs rest
      → parse_http_request to_lowercase s ≡ (
        ok (record { method = m; path = path; headers = inserted hs [] }),
        record s { input = rest },
      )
  unfolding parse_http_request read_headers
  parse_http_request-request_bytes m path hs rest s p c h i =
      let first =
        read_line-line (request_line m path) (header_bytes hs rest) s (request_line-IsLine m path c)
          i in
      let parsed = parse_request_line-request_line m path p in
      let headers =
        header_loop-header_bytes (length (header_bytes hs rest) + 1) hs [] rest
          (record s { input = header_bytes hs rest }) (omega (arith, header_bytes-length hs rest)) h
          refl in
      rw (first, parsed, headers)
