-- ===== src/Http/Request/Lines.antt =====
-- The lines of a request, printed and read.
use exarrow_rs.Http.Chunks.Line.{HasNoCr, line_bytes-append, IsInk}
use exarrow_rs.Http.Request.{
  add_word, words_from, split_whitespace, HttpMethod, get, put, head, method_of, parse_request_line,
}
use exarrow_rs.Prelude.Text.{same_text}
use exarrow_rs.Http.{Stream, line_bytes, read_line}
use exarrow_rs.Prelude.Bytes.{Bytes}
use exarrow_rs.Prelude.Text.{Text, as_bytes, utf8, codes}
use exarrow_rs.Prelude.Utf8.{IsChar, from_utf8-as_bytes}
use exarrow_rs.Prelude.{
  ℕ, ◌<◌, [], ◌∷◌, ◌++◌, ◌≢◌, some, ok, ◌≡◌, refl, ap, ◌∙◌, arith, length, All, All-append,
}

-- A character of a line: no carriage return.
abbrev pub IsLineChar : ℕ → Type 0
IsLineChar c = IsChar c × (c ≢ b'\r')

utf8-HasNoCr : (c : ℕ) → c ≢ b'\r' → HasNoCr (utf8 c)
unfolding utf8
utf8-HasNoCr c h = ground arith

as_bytes-HasNoCr : (s : Text) → All IsLineChar s → HasNoCr (as_bytes s)
unfolding as_bytes
as_bytes-HasNoCr [] h = tt
as_bytes-HasNoCr (c ∷ s) ((u, h), hs) =
    All-append (λ b. b ≢ b'\r') (utf8 c) (as_bytes s) (utf8-HasNoCr c h) (as_bytes-HasNoCr s hs)

pub line-IsChar : (s : Text) → All IsLineChar s → All IsChar s
line-IsChar [] h = tt
line-IsChar (c ∷ s) ((u, h), hs) = (u, line-IsChar s hs)

-- The bytes of a line, in front of what follows it.
abbrev pub line : Text → Bytes → Bytes
line s rest = as_bytes s ++ (b'\r' ∷ b'\n' ∷ rest)

pub read_line-line :
    (text : Text) (rest : Bytes) (s : Stream)
    → All IsLineChar text
    → s.input ≡ line text rest
    → read_line s ≡ (ok text, record s { input = rest })
unfolding read_line
read_line-line text rest s h i =
    let found : line_bytes s.input ≡ some (as_bytes text, rest) =
      rw i (line_bytes-append (as_bytes text) rest (as_bytes-HasNoCr text h)) in
    let decoded = from_utf8-as_bytes text (line-IsChar text h) in ground arith

words_from-word :
    (w s : Text) → All IsInk w → words_from (w ++ (b' ' ∷ s)) ≡ (w, split_whitespace s)
unfolding words_from split_whitespace
words_from-word [] s h = refl
words_from-word (c ∷ w) s (h, hs) = rw (h, words_from-word w s hs)

split_whitespace-word :
    (c : ℕ) (w s : Text)
    → All IsInk (c ∷ w)
    → split_whitespace ((c ∷ w) ++ (b' ' ∷ s)) ≡ (c ∷ w) ∷ split_whitespace s
unfolding split_whitespace
split_whitespace-word c w s h = ap (λ p. add_word p.0 p.1) (words_from-word (c ∷ w) s h)

abbrev pub method_text : HttpMethod → Text
method_text get = codes "GET"
method_text put = codes "PUT"
method_text head = codes "HEAD"

-- The first line of a request.
abbrev pub request_line : HttpMethod → Text → Text
request_line m path = method_text m ++ (b' ' ∷ (path ++ codes " HTTP/1.1"))

split_whitespace-method :
    (m : HttpMethod) (s : Text)
    → split_whitespace (method_text m ++ (b' ' ∷ s)) ≡ method_text m ∷ split_whitespace s
split_whitespace-method get s = split_whitespace-word b'G' (codes "ET") s (refl, (refl, (refl, tt)))
split_whitespace-method put s = split_whitespace-word b'P' (codes "UT") s (refl, (refl, (refl, tt)))
split_whitespace-method head s =
    split_whitespace-word b'H' (codes "EAD") s (refl, (refl, (refl, (refl, tt))))

method_of-method_text : (m : HttpMethod) → method_of (method_text m) ≡ some m
unfolding method_of same_text
method_of-method_text get = refl
method_of-method_text put = refl
method_of-method_text head = refl

version_words : split_whitespace (codes "HTTP/1.1") ≡ codes "HTTP/1.1" ∷ []
unfolding split_whitespace words_from
version_words = refl

pub method_text-IsLine : (m : HttpMethod) → All IsLineChar (method_text m)
method_text-IsLine get = ground arith
method_text-IsLine put = ground arith
method_text-IsLine head = ground arith

pub version-IsLine : All IsLineChar (codes " HTTP/1.1")
version-IsLine = ground arith

-- A path: not empty, and without blanks.
abbrev pub IsPath : Text → Type 0
IsPath path = (0 < length path) × All IsInk path

pub parse_request_line-request_line :
    (m : HttpMethod) (path : Text)
    → IsPath path
    → parse_request_line (request_line m path) ≡ ok (m, path)
unfolding parse_request_line
parse_request_line-request_line m [] h = absurd (omega (arith, h.0))
parse_request_line-request_line m (c ∷ p) (full, h) =
    let words : split_whitespace (request_line m (c ∷ p))
        ≡ method_text m ∷ (c ∷ p) ∷ codes "HTTP/1.1" ∷ [] =
      split_whitespace-method m ((c ∷ p) ++ codes " HTTP/1.1")
      ∙ ap (λ ws. method_text m ∷ ws)
          (split_whitespace-word c p (codes "HTTP/1.1") h
            ∙ ap (λ ws. (c ∷ p) ∷ ws) version_words) in
    rw (parse_request_line, words, method_of-method_text m)
