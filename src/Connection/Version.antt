-- ===== src/Connection/Version.antt =====
-- src/connection/version.rs.
pub mod Printed
use exarrow_rs.Prelude.Decimal.{is_digit, parse_unsigned}
use exarrow_rs.Prelude.Text.{Text}
use exarrow_rs.Prelude.{
  ℕ, ◌^◌, Bool, true, false, ◌&&◌, ◌||◌, List, [], ◌∷◌, ◌++◌, Option, none, some, and_then, ltb,
  leb, ◌==◌, if◌then◌else◌,
}

abbrev pub Version : Type 0
Version = ℕ × ℕ × ℕ

-- `split(sep)`: the first part and the rest behind the separator, if there is one.
unfoldable pub split_once : ℕ → Text → Text × Option Text
split_once sep [] = ([], none)
split_once sep (c ∷ s) =
    let (head, rest) = split_once sep s in if c == sep then ([], some s) else (c ∷ head, rest)

unfoldable pub take_digits : Text → Text
take_digits [] = []
take_digits (c ∷ s) = let rest = take_digits s in if is_digit c then c ∷ rest else []

abbrev parse_u32 : Text → Option ℕ
parse_u32 = parse_unsigned (2 ^ 32)

-- `digits.is_empty()` is refused before the parse.
unfoldable pub parse_digit_run : Text → Option ℕ
parse_digit_run [] = none
parse_digit_run (c ∷ cs) = parse_u32 (c ∷ cs)

-- The third part: its leading digits.
unfoldable pub parse_patch : Option Text → Option ℕ
unfolding take_digits parse_digit_run
parse_patch none = some 0
parse_patch (some s) = parse_digit_run (take_digits (split_once b'.' s).0)

unfoldable pub parse_release_version : Text → Option Version
unfolding split_once parse_patch parse_unsigned
parse_release_version s =
    let (first, after_first) = split_once b'.' s in
    and_then (parse_u32 first) λ major. and_then after_first λ s'.
      let (second, after_second) = split_once b'.' s' in
      and_then (parse_u32 second)
        λ minor. and_then (parse_patch after_second) λ patch. some (major, minor, patch)

-- Rust's order of tuples: lexicographic.
unfoldable pub version_ge : Version → Version → Bool
version_ge (a, b, c) (x, y, z) = ltb x a || (a == x && (ltb y b || (b == y && leb z c)))

unfoldable pub supports_at_least : Version → ℕ → ℕ → Bool
supports_at_least (a, b, c) major minor = ltb major a || (a == major && leb minor b)

unfoldable pub supports_native_parquet_import : Version → Bool
unfolding version_ge
supports_native_parquet_import v = version_ge v (2025, 1, 11)
