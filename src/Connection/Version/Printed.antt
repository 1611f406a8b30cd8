-- ===== src/Connection/Version/Printed.antt =====
-- A printed version is read back, and the order of versions.
use exarrow_rs.Connection.Version.{
  Version, split_once, take_digits, parse_digit_run, parse_patch, parse_release_version, version_ge,
}
use exarrow_rs.Prelude.Decimal.{
  IsDigit, show_nat, show_nat-IsDigit, parse_unsigned, parse_unsigned-show_nat,
}
use exarrow_rs.Prelude.Text.{Text}
use exarrow_rs.Prelude.{
  ℕ, ◌^◌, ◌<◌, true, false, ◌||◌, [], ◌∷◌, ◌++◌, some, ◌≡◌, refl, arith, ◌==◌, ◌∙◌, ap, All,
}

split_once_digits : (ds s : Text) → All IsDigit ds → split_once b'.' (ds ++ b'.' ∷ s) ≡ (ds, some s)
unfolding split_once
split_once_digits [] s h = refl
split_once_digits (c ∷ ds) s (h, hs) =
    let other : (c == b'.') ≡ false = ground arith in rw (other, split_once_digits ds s hs)

take_digits_part :
    (ds suffix : Text)
    → All IsDigit ds
    → take_digits (split_once b'.' suffix).0 ≡ []
    → take_digits (split_once b'.' (ds ++ suffix)).0 ≡ ds
unfolding split_once take_digits
take_digits_part [] suffix h e = e
take_digits_part (c ∷ ds) suffix (h, hs) e =
    let other : (c == b'.') ≡ false = ground arith in
    rw other (rw h (ap (◌∷◌ c) (take_digits_part ds suffix hs e)))

parse_digit_run-parse_unsigned : (s : Text) → parse_digit_run s ≡ parse_unsigned (2 ^ 32) s
unfolding parse_digit_run
parse_digit_run-parse_unsigned [] = unfold parse_unsigned in refl
parse_digit_run-parse_unsigned (c ∷ s) = refl

parse_patch-printed :
    (patch : ℕ) (suffix : Text)
    → patch < 2 ^ 32
    → take_digits (split_once b'.' suffix).0 ≡ []
    → parse_patch (some (show_nat patch ++ suffix)) ≡ some patch
parse_patch-printed patch suffix fits e =
    unfold parse_patch in
    ap parse_digit_run (take_digits_part (show_nat patch) suffix (show_nat-IsDigit patch) e)
    ∙ parse_digit_run-parse_unsigned (show_nat patch)
    ∙ parse_unsigned-show_nat (2 ^ 32) patch fits

-- A version printed as MAJOR.MINOR.PATCH with any suffix that does not go on with a digit is read
-- back: `-rc1`, `+build.5`, `_dev`, or a fourth component.
pub parse_release_version-printed :
    (major minor patch : ℕ) (suffix : Text)
    → major < 2 ^ 32
    → minor < 2 ^ 32
    → patch < 2 ^ 32
    → take_digits (split_once b'.' suffix).0 ≡ []
    → parse_release_version
        (show_nat major ++ b'.' ∷ (show_nat minor ++ b'.' ∷ (show_nat patch ++ suffix)))
      ≡ some (major, minor, patch)
parse_release_version-printed major minor patch suffix h k l e =
    let minor_on = show_nat minor ++ b'.' ∷ (show_nat patch ++ suffix) in
    let first = split_once_digits (show_nat major) minor_on (show_nat-IsDigit major) in
    let second =
      split_once_digits (show_nat minor) (show_nat patch ++ suffix) (show_nat-IsDigit minor) in
    unfold parse_release_version in
    rw (
      first,
      parse_unsigned-show_nat (2 ^ 32) major h,
      second,
      parse_unsigned-show_nat (2 ^ 32) minor k,
      parse_patch-printed patch suffix l e,
    )

-- The order of versions is total.
pub version_ge_total : (v w : Version) → (version_ge v w || version_ge w v) ≡ true
unfolding version_ge
version_ge_total (a, b, c) (x, y, z) = ground arith

-- The order of versions, by which features are offered, is transitive.
pub version_ge_trans :
    (u v w : Version) → version_ge u v ≡ true → version_ge v w ≡ true → version_ge u w ≡ true
unfolding version_ge
version_ge_trans (a, b, c) (x, y, z) (p, q, r) h k = ground arith
