-- ===== src/Types/Infer/Widen.antt =====
-- Type widening: the order of the inputs does not matter, a declarable type comes out, and what it
-- holds.
use exarrow_rs.Prelude.Int.{pos}
use exarrow_rs.Prelude.{
  ◌-◌, ◌≤◌, ◌<◌, max, ◌⊎◌, ◌≡◌, refl, arith, inl, inr, Bool-cases, true, false,
}
use exarrow_rs.Types.Mapping.{
  ExasolType, char, varchar, decimal, double, timestamp, interval_day_to_second, boolean, date,
  interval_year_to_month, geometry, hashtype,
}
use exarrow_rs.Types.Mapping.Valid.{IsDeclarable}
use exarrow_rs.Types.Infer.{same_type, widen_different, widen_type}

widen_different_comm : (a b : ExasolType) → widen_different a b ≡ widen_different b a
unfolding widen_different
widen_different_comm a b = ground arith

same_type-eq : (a b : ExasolType) → same_type a b ≡ true → a ≡ b
unfolding same_type
same_type-eq a b h = ground arith

same_type_comm : (a b : ExasolType) → same_type a b ≡ same_type b a
unfolding same_type
same_type_comm a b = ground arith

same_type_refl : (a : ExasolType) → same_type a a ≡ true
unfolding same_type
same_type_refl a = ground arith

-- The order of the two types does not matter.
pub widen_type_comm : (a b : ExasolType) → widen_type a b ≡ widen_type b a
unfolding widen_type
widen_type_comm a b = elim (Bool-cases (same_type a b)) [
  | inl e ↦ rw (same_type-eq a b e) refl
  | inr e ↦
      let e' : same_type b a ≡ false = cc (e, same_type_comm a b) in
      rw (e, e') (widen_different_comm a b)
]

widen_different-IsDeclarable :
    (a b : ExasolType) → IsDeclarable a → IsDeclarable b → IsDeclarable (widen_different a b)
unfolding widen_different IsDeclarable
widen_different-IsDeclarable a b h k = ground arith

-- Two declarable types widen to a declarable type.
pub widen_type-IsDeclarable :
    (a b : ExasolType) → IsDeclarable a → IsDeclarable b → IsDeclarable (widen_type a b)
unfolding widen_type
widen_type-IsDeclarable a b h k = elim (Bool-cases (same_type a b)) [
  | inl e ↦ rw e h
  | inr e ↦ rw e (widen_different-IsDeclarable a b h k)
]

-- A column of the first type can hold what a column of the second type holds: a DECIMAL as many
-- digits before the point and behind it; a text as many characters, and the longest VARCHAR the text
-- of any value; DOUBLE every DECIMAL; a TIMESTAMP with a time zone one without, but not the other way
-- round; an interval as many digits of days; and every type its own values.
unfoldable pub Holds : ExasolType → ExasolType → Type 0
Holds (decimal q (pos t)) (decimal p (pos s)) = (s ≤ t) × (p - s ≤ q - t)
Holds (char n) (char m) = m ≤ n
Holds (varchar n) (char m) = m ≤ n
Holds (varchar n) (varchar m) = m ≤ n
Holds (varchar n) a = 2000000 ≤ n
Holds double double = Unit
Holds double (decimal p s) = Unit
Holds (timestamp x) (timestamp y) = (x ≡ true) ⊎ (y ≡ false)
Holds (interval_day_to_second n) (interval_day_to_second m) = m ≤ n
Holds boolean boolean = Unit
Holds date date = Unit
Holds interval_year_to_month interval_year_to_month = Unit
Holds (geometry a) (geometry b) = a ≡ b
Holds (hashtype n) (hashtype m) = n ≡ m
Holds a b = ⊥

-- Two DECIMALs of which one has the most digits before the point and the other so large a scale that
-- the larger of both precisions and of both scales leave fewer digits before the point.
unfoldable pub LosesDigits : ExasolType → ExasolType → Type 0
LosesDigits (decimal p (pos s)) (decimal q (pos t)) = max p q - max s t < max (p - s) (q - t)
LosesDigits a b = ⊥

-- The DECIMAL with the larger of both precisions and of both scales.
unfoldable pub larger_parts : ExasolType → ExasolType → ExasolType
larger_parts (decimal p (pos s)) (decimal q (pos t)) = decimal (max p q) (pos (max s t))
larger_parts a b = a
