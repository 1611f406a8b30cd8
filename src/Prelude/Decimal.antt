-- ===== src/Prelude/Decimal.antt =====
-- Decimal text: `to_string` of an integer and `str::parse` of an unsigned one.
use exarrow_rs.Prelude.Int.{ℤ, pos, negsuc}
use exarrow_rs.Prelude.Lists.{All}
use exarrow_rs.Prelude.Tests.{ltb, ◌==◌, if◌then◌else◌, within}
use exarrow_rs.Prelude.Text.{Text}
use mathlib.Core.Bool.{Bool, true, false, ◌&&◌}
use mathlib.Core.List.{[], ◌∷◌}
use mathlib.Core.Logic.{◌≢◌}
use mathlib.Core.Option.{Option, none, some}
use mathlib.Core.Path.{◌≡◌, refl, ◌∙◌, ap}
use native.Mathlib.Omega.{arith}
use Prim.Native.Nat.{ℕ, zero, suc, ◌+◌, ◌-◌, ◌*◌, ◌/◌, ◌%◌, ◌<◌, ◌≤◌}

-- The digits of `n` in front of `out`; the fuel `n` is enough, since each round divides by ten.
show_loop : ℕ → ℕ → Text → Text
show_loop zero n out = (b'0' + n % 10) ∷ out
show_loop (suc fuel) n out =
    let shorter = show_loop fuel (n / 10) ((b'0' + n % 10) ∷ out) in
    if ltb n 10 then (b'0' + n) ∷ out else shorter

unfoldable pub show_nat : ℕ → Text
unfolding show_loop
show_nat n = show_loop n n []

unfoldable pub show_int : ℤ → Text
unfolding show_nat
show_int (pos n) = show_nat n
show_int (negsuc n) = b'-' ∷ show_nat (n + 1)

abbrev pub is_digit : ℕ → Bool
is_digit c = within b'0' b'9' c

abbrev pub IsDigit : ℕ → Type 0
IsDigit c = is_digit c ≡ true

show_loop-IsDigit : (fuel n : ℕ) (out : Text) → All IsDigit out → All IsDigit (show_loop fuel n out)
unfolding show_loop
show_loop-IsDigit zero n out h = (ground arith, h)
show_loop-IsDigit (suc fuel) n out h =
    ground (arith, show_loop-IsDigit fuel (n / 10) ((b'0' + n % 10) ∷ out))

pub show_nat-IsDigit : (n : ℕ) → All IsDigit (show_nat n)
unfolding show_nat
show_nat-IsDigit n = show_loop-IsDigit n n [] tt

-- The number that digits spell behind `acc`.
unfoldable pub value_from : ℕ → Text → ℕ
value_from acc [] = acc
value_from acc (c ∷ s) = value_from (acc * 10 + (c - b'0')) s

show_loop-value :
    (fuel n : ℕ) (out : Text) → n ≤ fuel → value_from 0 (show_loop fuel n out) ≡ value_from n out
unfolding show_loop value_from
show_loop-value zero n out h = ground arith
show_loop-value (suc fuel) n out h =
    ground (arith, show_loop-value fuel (n / 10) ((b'0' + n % 10) ∷ out))

-- Decimal text spells its number.
pub value-show_nat : (n : ℕ) → value_from 0 (show_nat n) ≡ n
unfolding show_nat
value-show_nat n = show_loop-value n n [] (omega arith) ∙ unfold value_from in refl

-- `str::parse` of an unsigned integer below `limit`, on the digits: every step is checked.
unfoldable pub parse_digits : ℕ → ℕ → Text → Option ℕ
parse_digits limit acc [] = some acc
parse_digits limit acc (c ∷ s) =
    let more = parse_digits limit (acc * 10 + (c - b'0')) s in
    if is_digit c && ltb (acc * 10 + (c - b'0')) limit then more else none

-- One leading `+` is accepted; no digit at all is an error.
unfoldable pub parse_unsigned : ℕ → Text → Option ℕ
unfolding parse_digits
parse_unsigned limit [] = none
parse_unsigned limit (c ∷ []) = if c == b'+' then none else parse_digits limit 0 (c ∷ [])
parse_unsigned limit (c ∷ d ∷ s) =
    if c == b'+' then parse_digits limit 0 (d ∷ s) else parse_digits limit 0 (c ∷ d ∷ s)

le-value_from : (s : Text) (acc : ℕ) → acc ≤ value_from acc s
unfolding value_from
le-value_from [] acc = omega arith
le-value_from (c ∷ s) acc = omega (arith, le-value_from s (acc * 10 + (c - b'0')))

pub parse_digits-value :
    (limit : ℕ) (s : Text) (acc : ℕ)
    → All IsDigit s
    → value_from acc s < limit
    → parse_digits limit acc s ≡ some (value_from acc s)
unfolding parse_digits value_from
parse_digits-value limit [] acc h fits = refl
parse_digits-value limit (c ∷ s) acc (h, hs) fits =
    let next = acc * 10 + (c - b'0') in
    let small : ltb next limit ≡ true = ground (arith, le-value_from s next) in
    rw (h, small) (parse_digits-value limit s next hs fits)

show_loop-ne-nil : (fuel n : ℕ) (out : Text) → show_loop fuel n out ≢ []
unfolding show_loop
show_loop-ne-nil zero n out = cc
show_loop-ne-nil (suc fuel) n out =
    ground (arith, show_loop-ne-nil fuel (n / 10) ((b'0' + n % 10) ∷ out))

parse_unsigned-digits :
    (limit : ℕ) (s : Text)
    → All IsDigit s
    → s ≢ []
    → parse_unsigned limit s ≡ parse_digits limit 0 s
unfolding parse_unsigned
parse_unsigned-digits limit [] h ne = absurd (ne refl)
parse_unsigned-digits limit (c ∷ []) (h, hs) ne =
    let digit : (c == b'+') ≡ false = ground arith in rw digit
parse_unsigned-digits limit (c ∷ d ∷ s) (h, hs) ne =
    let digit : (c == b'+') ≡ false = ground arith in rw digit

-- A number below the limit is read back from its decimal text.
pub parse_unsigned-show_nat : (limit n : ℕ) → n < limit → parse_unsigned limit (show_nat n) ≡ some n
parse_unsigned-show_nat limit n h =
    let fits : value_from 0 (show_nat n) < limit = rw value-show_nat h in
    parse_unsigned-digits limit (show_nat n) (show_nat-IsDigit n)
      (unfold show_nat in show_loop-ne-nil n n [])
    ∙ parse_digits-value limit (show_nat n) 0 (show_nat-IsDigit n) fits
    ∙ ap some (value-show_nat n)
