-- ===== src/Http/Chunks/Line.antt =====
-- The line in front of a chunk: the size that is printed is read back.
use exarrow_rs.Connection.Version.{split_once}
use exarrow_rs.Http.Chunks.{trim, trim_end, parse_chunk_size}
use exarrow_rs.Http.{Stream, line_bytes, read_line}
use exarrow_rs.Prelude.Bytes.{Bytes}
use exarrow_rs.Prelude.Hex.{show_hex, show_hex-IsHexDigit, IsHexDigit, parse_hex-show_hex}
use exarrow_rs.Prelude.Text.{Text, as_bytes, utf8}
use exarrow_rs.Prelude.Utf8.{IsChar, from_utf8, from_utf8-as_bytes}
use exarrow_rs.Prelude.{
  false, ℕ, ◌^◌, ◌<◌, [], ◌∷◌, ◌++◌, ◌≢◌, some, ok, ◌≡◌, refl, sym, ap, ◌∙◌, arith, All, inl,
}
use exarrow_rs.Query.Statement.{trim_start, is_whitespace}

abbrev pub HasNoCr : Bytes → Type 0
HasNoCr = All (λ b. b ≢ b'\r')

pub line_bytes-append :
    (bs rest : Bytes) → HasNoCr bs → line_bytes (bs ++ (b'\r' ∷ b'\n' ∷ rest)) ≡ some (bs, rest)
unfolding line_bytes
line_bytes-append [] rest h = refl
line_bytes-append (b ∷ []) rest (h, hs) = ground (arith, line_bytes-append [] rest tt)
line_bytes-append (b ∷ c ∷ bs) rest (h, hs) = ground (arith, line_bytes-append (c ∷ bs) rest hs)

hex-as_bytes : (s : Text) → All IsHexDigit s → as_bytes s ≡ s
unfolding as_bytes utf8
hex-as_bytes [] h = refl
hex-as_bytes (c ∷ s) (h, hs) = ground (arith, hex-as_bytes s hs)

hex-HasNoCr : (s : Text) → All IsHexDigit s → HasNoCr s
hex-HasNoCr [] h = tt
hex-HasNoCr (c ∷ s) (h, hs) = (ground arith, hex-HasNoCr s hs)

hex-IsChar : (s : Text) → All IsHexDigit s → All IsChar s
hex-IsChar [] h = tt
hex-IsChar (c ∷ s) (h, hs) = (inl (ground arith), hex-IsChar s hs)

hex-split_once : (s : Text) → All IsHexDigit s → (split_once b';' s).0 ≡ s
unfolding split_once
hex-split_once [] h = refl
hex-split_once (c ∷ s) (h, hs) = ground (arith, hex-split_once s hs)

abbrev pub IsInk : ℕ → Type 0
IsInk c = is_whitespace c ≡ false

trim_start-clean : (s : Text) → All IsInk s → trim_start s ≡ s
unfolding trim_start
trim_start-clean [] h = refl
trim_start-clean (c ∷ s) (h, hs) = rw h

trim_end-clean : (s : Text) → All IsInk s → trim_end s ≡ s
unfolding trim_end
trim_end-clean [] h = refl
trim_end-clean (c ∷ []) (h, hs) = rw h
trim_end-clean (c ∷ d ∷ s) (h, hs) = rw (trim_end-clean (d ∷ s) hs)

pub trim-clean : (s : Text) → All IsInk s → trim s ≡ s
unfolding trim
trim-clean s h = rw (trim_start-clean s h, trim_end-clean s h)

hex-IsInk : (s : Text) → All IsHexDigit s → All IsInk s
hex-IsInk [] h = tt
hex-IsInk (c ∷ s) (h, hs) = (ground arith, hex-IsInk s hs)

-- A size is read back from the line that is printed for it.
pub parse_chunk_size-show_hex : (n : ℕ) → n < 2 ^ 64 → parse_chunk_size (show_hex n) ≡ ok n
unfolding parse_chunk_size
parse_chunk_size-show_hex n h =
    let digits = show_hex-IsHexDigit n in
    rw (
      hex-split_once (show_hex n) digits,
      trim-clean (show_hex n) (hex-IsInk (show_hex n) digits),
      parse_hex-show_hex (2 ^ 64) n h,
    )

pub read_line-show_hex :
    (n : ℕ) (rest : Bytes) (s : Stream)
    → s.input ≡ as_bytes (show_hex n) ++ (b'\r' ∷ b'\n' ∷ rest)
    → read_line s ≡ (ok (show_hex n), record s { input = rest })
unfolding read_line
read_line-show_hex n rest s e =
    let digits = show_hex-IsHexDigit n in
    let line : line_bytes s.input ≡ some (show_hex n, rest) =
      rw (e, hex-as_bytes (show_hex n) digits)
        (line_bytes-append (show_hex n) rest (hex-HasNoCr (show_hex n) digits)) in
    let text : from_utf8 (show_hex n) ≡ some (show_hex n) =
      ap from_utf8 (sym (hex-as_bytes (show_hex n) digits))
      ∙ from_utf8-as_bytes (show_hex n) (hex-IsChar (show_hex n) digits) in
    ground arith
