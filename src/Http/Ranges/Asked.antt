-- ===== src/Http/Ranges/Asked.antt =====
-- The requests for a file, and what is due for each.
use exarrow_rs.Connection.Version.{split_once}
use exarrow_rs.Http.Chunks.Line.{IsInk, trim-clean}
use exarrow_rs.Http.Ranges.Served.{due}
use exarrow_rs.Http.Ranges.{parse_byte_range}
use exarrow_rs.Http.Request.Printed.{IsHeader}
use exarrow_rs.Http.Request.Lines.{IsLineChar}
use exarrow_rs.Http.Request.{HttpMethod, get, head}
use exarrow_rs.Prelude.Bytes.{Bytes}
use exarrow_rs.Prelude.Decimal.{show_nat, show_nat-IsDigit, IsDigit, parse_unsigned-show_nat}
use exarrow_rs.Prelude.Text.{Text, as_bytes, codes}
use exarrow_rs.Prelude.{
  ℕ, ◌^◌, ◌<◌, false, List, [], ◌∷◌, ◌++◌, some, ◌≡◌, refl, arith, length, All, All-append, ◌==◌,
}

-- `bytes=<start>-<end>`.
abbrev pub range_text : ℕ → ℕ → Text
range_text start end = codes "bytes=" ++ (show_nat start ++ (b'-' ∷ show_nat end))

digits-IsInk : (s : Text) → All IsDigit s → All IsInk s
digits-IsInk [] h = tt
digits-IsInk (c ∷ s) (h, hs) = (ground arith, digits-IsInk s hs)

digits-IsLine : (s : Text) → All IsDigit s → All IsLineChar s
digits-IsLine [] h = tt
digits-IsLine (c ∷ s) (h, hs) = (ground arith, digits-IsLine s hs)

split_once-dash : (ds s : Text) → All IsDigit ds → split_once b'-' (ds ++ (b'-' ∷ s)) ≡ (ds, some s)
unfolding split_once
split_once-dash [] s h = refl
split_once-dash (c ∷ ds) s (h, hs) =
    let other : (c == b'-') ≡ false = ground arith in rw (other, split_once-dash ds s hs)

-- A range that is printed is read back.
pub parse_byte_range-range_text :
    (start end : ℕ)
    → start < 2 ^ 64
    → end < 2 ^ 64
    → parse_byte_range (range_text start end) ≡ some (start, end)
unfolding parse_byte_range
parse_byte_range-range_text start end h k =
    let parts = split_once-dash (show_nat start) (show_nat end) (show_nat-IsDigit start) in
    let first =
      trim-clean (show_nat start) (digits-IsInk (show_nat start) (show_nat-IsDigit start)) in
    let second = trim-clean (show_nat end) (digits-IsInk (show_nat end) (show_nat-IsDigit end)) in
    rw (
      parse_byte_range,
      parts,
      first,
      parse_unsigned-show_nat (2 ^ 64) start h,
      second,
      parse_unsigned-show_nat (2 ^ 64) end k,
    )

pub data Ask : Type 0 where
  file_size : Ask
  whole_file : Ask
  range : ℕ → ℕ → Ask

abbrev pub IsAsk : Ask → Type 0
IsAsk file_size = Unit
IsAsk whole_file = Unit
IsAsk (range start end) = (start < 2 ^ 64) × (end < 2 ^ 64)

abbrev pub method_for : Ask → HttpMethod
method_for file_size = head
method_for whole_file = get
method_for (range start end) = get

abbrev pub headers_for : Ask → List (Text × Text)
headers_for file_size = []
headers_for whole_file = []
headers_for (range start end) = (codes "Range", range_text start end) ∷ []

abbrev pub ok_head : Bytes → Bytes
ok_head source =
    as_bytes (
      codes "HTTP/1.1 200 OK\r\nContent-Length: " ++ (show_nat (length source) ++ codes "\r\n\r\n"))

-- The answer to one request.
abbrev pub answer : Bytes → Ask → Bytes
answer source file_size = ok_head source
answer source whole_file = ok_head source ++ source
answer source (range start end) = due source (some (start, end))

abbrev pub answers : Bytes → List Ask → Bytes
answers source [] = []
answers source (a ∷ asks) = answer source a ++ answers source asks

bytes_prefix-IsInk : All IsInk (codes "bytes=")
bytes_prefix-IsInk = ground arith

bytes_prefix-IsLine : All IsLineChar (codes "bytes=")
bytes_prefix-IsLine = ground arith

range_text-IsInk : (start end : ℕ) → All IsInk (range_text start end)
range_text-IsInk start end =
    All-append IsInk (codes "bytes=") (show_nat start ++ (b'-' ∷ show_nat end)) bytes_prefix-IsInk (
      All-append IsInk (show_nat start) (b'-' ∷ show_nat end)
        (digits-IsInk _ (show_nat-IsDigit start)) (refl, digits-IsInk _ (show_nat-IsDigit end)))

range_text-IsLine : (start end : ℕ) → All IsLineChar (range_text start end)
range_text-IsLine start end =
    All-append IsLineChar (codes "bytes=") (show_nat start ++ (b'-' ∷ show_nat end))
      bytes_prefix-IsLine
      (All-append IsLineChar (show_nat start) (b'-' ∷ show_nat end)
        (digits-IsLine _ (show_nat-IsDigit start))
        (ground arith, digits-IsLine _ (show_nat-IsDigit end)))

pub headers_for-IsHeader : (a : Ask) → All IsHeader (headers_for a)
headers_for-IsHeader file_size = tt
headers_for-IsHeader whole_file = tt
headers_for-IsHeader (range start end) = (
  (
    ground arith,
    trim-clean (range_text start end) (range_text-IsInk start end),
    range_text-IsLine start end,
  ),
  tt,
)
