-- ===== src/Prelude/Hex.antt =====
-- Hexadecimal text: `{:X}` of an integer and `from_str_radix` with radix 16 of an unsigned one.
use exarrow_rs.Prelude.Lists.{All}
use exarrow_rs.Prelude.Results.{and_then}
use exarrow_rs.Prelude.Tests.{ltb, ◌==◌, if◌then◌else◌, within, Bool-cases}
use exarrow_rs.Prelude.Text.{Text}
use mathlib.Core.Bool.{true, false, ◌||◌}
use mathlib.Core.List.{[], ◌∷◌}
use mathlib.Core.Logic.{◌≢◌, inl, inr}
use mathlib.Core.Option.{Option, none, some}
use mathlib.Core.Path.{◌≡◌, refl, ◌∙◌, ap}
use native.Mathlib.Omega.{arith}
use Prim.Native.Nat.{ℕ, zero, suc, ◌+◌, ◌-◌, ◌*◌, ◌/◌, ◌%◌, ◌<◌, ◌≤◌}

-- An upper-case digit.
abbrev digit_of : ℕ → ℕ
digit_of n = if ltb n 10 then b'0' + n else b'A' + (n - 10)

-- The digits of `n` in front of `out`; the fuel `n` is enough, since each round divides by sixteen.
show_hex_loop : ℕ → ℕ → Text → Text
show_hex_loop zero n out = digit_of (n % 16) ∷ out
show_hex_loop (suc fuel) n out =
    let shorter = show_hex_loop fuel (n / 16) (digit_of (n % 16) ∷ out) in
    if ltb n 16 then digit_of n ∷ out else shorter

unfoldable pub show_hex : ℕ → Text
unfolding show_hex_loop
show_hex n = show_hex_loop n n []

-- `char::to_digit(16)`.
unfoldable pub hex_value : ℕ → Option ℕ
hex_value c =
    if within b'0' b'9' c
    then some (c - b'0')
    else if within b'a' b'f' c
    then some (c - b'a' + 10)
    else if within b'A' b'F' c
    then some (c - b'A' + 10)
    else none

-- Every step is checked against the limit.
unfoldable pub parse_hex_digits : ℕ → ℕ → Text → Option ℕ
unfolding hex_value
parse_hex_digits limit acc [] = some acc
parse_hex_digits limit acc (c ∷ s) = and_then (hex_value c) λ d.
    let more = parse_hex_digits limit (acc * 16 + d) s in
    if ltb (acc * 16 + d) limit then more else none

-- One leading `+` is accepted; no digit at all is an error.
unfoldable pub parse_hex : ℕ → Text → Option ℕ
unfolding parse_hex_digits
parse_hex limit [] = none
parse_hex limit (c ∷ []) = if c == b'+' then none else parse_hex_digits limit 0 (c ∷ [])
parse_hex limit (c ∷ d ∷ s) =
    if c == b'+' then parse_hex_digits limit 0 (d ∷ s) else parse_hex_digits limit 0 (c ∷ d ∷ s)

-- An upper-case hexadecimal digit.
abbrev pub IsHexDigit : ℕ → Type 0
IsHexDigit c = (within b'0' b'9' c || within b'A' b'F' c) ≡ true

digit_of-IsHexDigit : (n : ℕ) → n < 16 → IsHexDigit (digit_of n)
digit_of-IsHexDigit n h = ground arith

hex_value-digit_of : (n : ℕ) → n < 16 → hex_value (digit_of n) ≡ some n
unfolding hex_value
hex_value-digit_of n h = ground arith

show_hex_loop-IsHexDigit :
    (fuel n : ℕ) (out : Text) → All IsHexDigit out → All IsHexDigit (show_hex_loop fuel n out)
unfolding show_hex_loop
show_hex_loop-IsHexDigit zero n out h = (digit_of-IsHexDigit (n % 16) (omega arith), h)
show_hex_loop-IsHexDigit (suc fuel) n out h = elim (Bool-cases (ltb n 16)) [
  | inl e ↦ rw e (digit_of-IsHexDigit n (ground arith), h)
  | inr e ↦ rw e (
      show_hex_loop-IsHexDigit fuel (n / 16) (digit_of (n % 16) ∷ out)
        (digit_of-IsHexDigit (n % 16) (omega arith), h))
]

pub show_hex-IsHexDigit : (n : ℕ) → All IsHexDigit (show_hex n)
unfolding show_hex
show_hex-IsHexDigit n = show_hex_loop-IsHexDigit n n [] tt

parse_hex_digits-digit_of :
    (limit acc d n : ℕ) (s : Text)
    → d < 16
    → acc * 16 + d ≡ n
    → n < limit
    → parse_hex_digits limit acc (digit_of d ∷ s) ≡ parse_hex_digits limit n s
unfolding parse_hex_digits
parse_hex_digits-digit_of limit acc d n s h e k =
    let small : ltb (acc * 16 + d) limit ≡ true = ground arith in
    rw (hex_value-digit_of d h, small) (ap (λ m. parse_hex_digits limit m s) e)

-- Reading on from the number in front of `out` is reading its digits.
show_hex_loop-parse :
    (limit fuel n : ℕ) (out : Text)
    → n ≤ fuel
    → n < limit
    → parse_hex_digits limit 0 (show_hex_loop fuel n out) ≡ parse_hex_digits limit n out
unfolding show_hex_loop
show_hex_loop-parse limit zero n out h k =
    parse_hex_digits-digit_of limit 0 (n % 16) n out (omega arith) (omega arith) k
show_hex_loop-parse limit (suc fuel) n out h k = elim (Bool-cases (ltb n 16)) [
  | inl e ↦ rw e (parse_hex_digits-digit_of limit 0 n n out (ground arith) (omega arith) k)
  | inr e ↦ rw e (
      show_hex_loop-parse limit fuel (n / 16) (digit_of (n % 16) ∷ out) (ground arith) (omega arith)
      ∙ parse_hex_digits-digit_of limit (n / 16) (n % 16) n out (omega arith) (omega arith) k)
]

show_hex_loop-ne-nil : (fuel n : ℕ) (out : Text) → show_hex_loop fuel n out ≢ []
unfolding show_hex_loop
show_hex_loop-ne-nil zero n out = cc
show_hex_loop-ne-nil (suc fuel) n out =
    ground (arith, show_hex_loop-ne-nil fuel (n / 16) (digit_of (n % 16) ∷ out))

parse_hex-digits :
    (limit : ℕ) (s : Text)
    → All IsHexDigit s
    → s ≢ []
    → parse_hex limit s ≡ parse_hex_digits limit 0 s
unfolding parse_hex
parse_hex-digits limit [] h ne = absurd (ne refl)
parse_hex-digits limit (c ∷ []) (h, hs) ne =
    let digit : (c == b'+') ≡ false = ground arith in rw digit
parse_hex-digits limit (c ∷ d ∷ s) (h, hs) ne =
    let digit : (c == b'+') ≡ false = ground arith in rw digit

-- A number below the limit is read back from its hexadecimal text.
pub parse_hex-show_hex : (limit n : ℕ) → n < limit → parse_hex limit (show_hex n) ≡ some n
parse_hex-show_hex limit n h =
    parse_hex-digits limit (show_hex n) (show_hex-IsHexDigit n)
      (unfold show_hex in show_hex_loop-ne-nil n n [])
    ∙ unfold show_hex in
      show_hex_loop-parse limit n n [] (omega arith) h ∙ unfold parse_hex_digits in refl
