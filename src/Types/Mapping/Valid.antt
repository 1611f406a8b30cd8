-- ===== src/Types/Mapping/Valid.antt =====
-- The column types that Exasol can declare, and the mapping from Arrow.
use exarrow_rs.Prelude.Int.{pos, negsuc}
use exarrow_rs.Prelude.{◌≤◌, Bool, ok, ◌≡◌, arith, ◌>>=◌}
use exarrow_rs.Types.Mapping.{
  ExasolType, interval_year_to_month, char, varchar, decimal, interval_day_to_second, geometry,
  hashtype, DataType, arrow_to_exasol, exasol_to_arrow,
}

-- DECIMAL has a precision from 1 to 36 and a scale from 0 to the precision; CHAR has at most 2000
-- characters and VARCHAR at most 2000000.
unfoldable pub IsDeclarable : ExasolType → Type 0
IsDeclarable (char n) = n ≤ 2000
IsDeclarable (varchar n) = n ≤ 2000000
IsDeclarable (decimal p (pos s)) = (1 ≤ p) × (p ≤ 36) × (s ≤ p)
IsDeclarable (decimal p (negsuc s)) = ⊥
IsDeclarable _ = Unit

-- A type that is mapped from Arrow can be declared.
pub arrow_to_exasol-IsDeclarable :
    (is_key : DataType → Bool) (t : DataType) (x : ExasolType)
    → arrow_to_exasol is_key t ≡ ok x
    → IsDeclarable x
unfolding arrow_to_exasol IsDeclarable
arrow_to_exasol-IsDeclarable is_key t x h = ground arith

-- What a column of type `x` becomes when its Arrow type is mapped back.
unfoldable pub through_arrow : ExasolType → ExasolType
through_arrow (char n) = varchar 2000000
through_arrow (varchar n) = varchar 2000000
through_arrow (geometry srid) = varchar 2000000
through_arrow (hashtype n) = varchar 2000000
through_arrow interval_year_to_month = interval_day_to_second 3
through_arrow (interval_day_to_second p) = interval_day_to_second 3
through_arrow x = x

-- A declarable type is mapped to Arrow and back: BOOLEAN, DECIMAL, DOUBLE, DATE and TIMESTAMP are kept,
-- text and binary become the longest VARCHAR, an interval becomes INTERVAL DAY TO SECOND(3).
pub arrow_to_exasol-exasol_to_arrow :
    (is_key : DataType → Bool) (x : ExasolType)
    → IsDeclarable x
    → (exasol_to_arrow x >>= arrow_to_exasol is_key) ≡ ok (through_arrow x)
unfolding arrow_to_exasol exasol_to_arrow through_arrow IsDeclarable
arrow_to_exasol-exasol_to_arrow is_key x h = ground arith
