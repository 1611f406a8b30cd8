-- ===== src/Types/Mapping.antt =====
-- src/types/mapping.rs: Exasol column types, their DDL text and their mapping to and from Arrow.
-- `u8` and `usize` are numbers, `i8` and `i32` integers. Of Arrow's `DataType` the model has the
-- variants that the source names; `other` stands for the rest. Of `UnsupportedType` the text is left out.
pub mod Valid
use exarrow_rs.Prelude.Decimal.{show_nat, show_int}
use exarrow_rs.Prelude.Int.{ℤ, pos, negsuc}
use exarrow_rs.Prelude.Text.{Text, codes}
use exarrow_rs.Prelude.{
  ℕ, ◌+◌, ◌-◌, ◌%◌, ◌^◌, ◌/◌, Bool, true, false, ◌&&◌, List, ◌++◌, Option, none, some, Result, ok,
  err, leb, within, if◌then◌else◌,
}

pub data ColumnNameMode : Type 0 where
  quoted sanitize : ColumnNameMode

abbrev pub interval_leading_precision : ℕ
interval_leading_precision = 9

abbrev pub max_decimal_precision : ℕ
max_decimal_precision = 36

pub data ExasolType : Type 0 where
  boolean double date interval_year_to_month : ExasolType
  char varchar : ℕ → ExasolType
  -- precision, scale
  decimal : ℕ → ℤ → ExasolType
  timestamp : Bool → ExasolType
  interval_day_to_second : ℕ → ExasolType
  geometry : Option ℤ → ExasolType
  hashtype : ℕ → ExasolType

-- The quotient of an i64 by 2 rounds to zero, and `as usize` wraps a negative one.
unfoldable pub hashtype_from_reported_size : Option ℤ → ExasolType
hashtype_from_reported_size none = hashtype 16
hashtype_from_reported_size (some (pos n)) = hashtype (n / 2)
hashtype_from_reported_size (some (negsuc n)) = hashtype ((2 ^ 64 - (n + 1) / 2) % 2 ^ 64)

unfoldable pub type_name : ExasolType → Text
type_name boolean = codes "BOOLEAN"
type_name (char n) = codes "CHAR"
type_name (varchar n) = codes "VARCHAR"
type_name (decimal p s) = codes "DECIMAL"
type_name double = codes "DOUBLE"
type_name date = codes "DATE"
type_name (timestamp true) = codes "TIMESTAMP WITH LOCAL TIME ZONE"
type_name (timestamp false) = codes "TIMESTAMP"
type_name interval_year_to_month = codes "INTERVAL YEAR TO MONTH"
type_name (interval_day_to_second p) = codes "INTERVAL DAY TO SECOND"
type_name (geometry srid) = codes "GEOMETRY"
type_name (hashtype n) = codes "HASHTYPE"

unfoldable pub to_ddl_type : ExasolType → Text
to_ddl_type boolean = codes "BOOLEAN"
to_ddl_type (char n) = codes "CHAR(" ++ show_nat n ++ codes ")"
to_ddl_type (varchar n) = codes "VARCHAR(" ++ show_nat n ++ codes ")"
to_ddl_type (decimal p s) = codes "DECIMAL(" ++ show_nat p ++ codes "," ++ show_int s ++ codes ")"
to_ddl_type double = codes "DOUBLE"
to_ddl_type date = codes "DATE"
to_ddl_type (timestamp true) = codes "TIMESTAMP WITH LOCAL TIME ZONE"
to_ddl_type (timestamp false) = codes "TIMESTAMP"
to_ddl_type interval_year_to_month =
    codes "INTERVAL YEAR(" ++ show_nat interval_leading_precision ++ codes ") TO MONTH"
to_ddl_type (interval_day_to_second p) =
    codes "INTERVAL DAY("
    ++ show_nat interval_leading_precision
    ++ codes ") TO SECOND("
    ++ show_nat p
    ++ codes ")"
to_ddl_type (geometry (some srid)) = codes "GEOMETRY(" ++ show_int srid ++ codes ")"
to_ddl_type (geometry none) = codes "GEOMETRY"
to_ddl_type (hashtype n) = codes "HASHTYPE(" ++ show_nat n ++ codes " BYTE)"

pub data TimeUnit : Type 0 where
  second millisecond microsecond nanosecond : TimeUnit

pub data IntervalUnit : Type 0 where
  year_month day_time month_day_nano : IntervalUnit

pub data DataType : Type 0 where
  boolean utf8 large_utf8 utf8_view binary large_binary binary_view : DataType
  int8 int16 int32 int64 uint8 uint16 uint32 uint64 float32 float64 date32 date64 : DataType
  fixed_size_binary : ℤ → DataType
  dictionary : DataType → DataType → DataType
  decimal128 decimal256 : ℕ → ℤ → DataType
  timestamp : TimeUnit → Option Text → DataType
  interval : IntervalUnit → DataType
  other : Text → DataType

pub data ConversionError : Type 0 where
  unsupported_type : DataType → ConversionError

-- Every type is mapped, so the `Result` of the source is always `Ok`.
unfoldable pub exasol_to_arrow : ExasolType → Result ConversionError DataType
exasol_to_arrow boolean = ok DataType.boolean
exasol_to_arrow (char n) = ok DataType.utf8
exasol_to_arrow (varchar n) = ok DataType.utf8
exasol_to_arrow (decimal p s) = ok (DataType.decimal128 p s)
exasol_to_arrow double = ok DataType.float64
exasol_to_arrow date = ok DataType.date32
exasol_to_arrow (timestamp true) = ok (DataType.timestamp microsecond (some (codes "UTC")))
exasol_to_arrow (timestamp false) = ok (DataType.timestamp microsecond none)
exasol_to_arrow interval_year_to_month = ok (DataType.interval month_day_nano)
exasol_to_arrow (interval_day_to_second p) = ok (DataType.interval month_day_nano)
exasol_to_arrow (geometry srid) = ok DataType.binary
exasol_to_arrow (hashtype n) = ok DataType.binary

-- `(0..=hi).contains(scale)` on i8.
abbrev pub scale_within : ℕ → ℤ → Bool
scale_within hi (pos n) = leb n hi
scale_within hi (negsuc n) = false

abbrev decimal_or_error : DataType → ℕ → ℤ → Result ConversionError ExasolType
decimal_or_error t p s =
    if within 1 max_decimal_precision p && scale_within p s
    then ok (decimal p s)
    else err (unsupported_type t)

abbrev longest_varchar : ExasolType
longest_varchar = varchar 2000000

abbrev is_text : DataType → Bool
is_text DataType.utf8 = true
is_text DataType.large_utf8 = true
is_text _ = false

abbrev is_some_zone : Option Text → Bool
is_some_zone none = false
is_some_zone (some z) = true

-- `is_dictionary_key_type` is Arrow's.
module _ (is_dictionary_key_type : DataType → Bool) where
  unfoldable pub arrow_to_exasol : DataType → Result ConversionError ExasolType
  arrow_to_exasol DataType.boolean = ok boolean
  arrow_to_exasol DataType.utf8 = ok longest_varchar
  arrow_to_exasol DataType.large_utf8 = ok longest_varchar
  arrow_to_exasol DataType.utf8_view = ok longest_varchar
  arrow_to_exasol DataType.binary = ok longest_varchar
  arrow_to_exasol DataType.large_binary = ok longest_varchar
  arrow_to_exasol DataType.binary_view = ok longest_varchar
  arrow_to_exasol (DataType.fixed_size_binary n) = ok longest_varchar
  arrow_to_exasol (DataType.dictionary k v) =
      if is_dictionary_key_type k && is_text v
      then ok longest_varchar
      else err (unsupported_type (DataType.dictionary k v))
  arrow_to_exasol DataType.int8 = ok (decimal 18 (pos 0))
  arrow_to_exasol DataType.int16 = ok (decimal 18 (pos 0))
  arrow_to_exasol DataType.int32 = ok (decimal 18 (pos 0))
  arrow_to_exasol DataType.int64 = ok (decimal 36 (pos 0))
  arrow_to_exasol DataType.uint8 = ok (decimal 18 (pos 0))
  arrow_to_exasol DataType.uint16 = ok (decimal 18 (pos 0))
  arrow_to_exasol DataType.uint32 = ok (decimal 18 (pos 0))
  arrow_to_exasol DataType.uint64 = ok (decimal 36 (pos 0))
  arrow_to_exasol DataType.float32 = ok double
  arrow_to_exasol DataType.float64 = ok double
  arrow_to_exasol (DataType.decimal128 p s) = decimal_or_error (DataType.decimal128 p s) p s
  arrow_to_exasol (DataType.decimal256 p s) = decimal_or_error (DataType.decimal256 p s) p s
  arrow_to_exasol DataType.date32 = ok date
  arrow_to_exasol DataType.date64 = ok date
  arrow_to_exasol (DataType.timestamp u tz) = ok (timestamp (is_some_zone tz))
  arrow_to_exasol (DataType.interval year_month) = ok interval_year_to_month
  arrow_to_exasol (DataType.interval day_time) = ok (interval_day_to_second 3)
  arrow_to_exasol (DataType.interval month_day_nano) = ok (interval_day_to_second 3)
  arrow_to_exasol (DataType.other name) = err (unsupported_type (DataType.other name))
