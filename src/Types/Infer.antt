-- ===== src/Types/Infer.antt =====
-- src/types/infer.rs: column names for DDL, type widening and CREATE TABLE text.
-- `source_files` of a schema are only carried along, for messages.
pub mod Names
pub mod Widen
use exarrow_rs.Prelude.Int.{ℤ, pos, negsuc}
use exarrow_rs.Prelude.Text.{Text, codes}
use exarrow_rs.Prelude.{
  ℕ, ◌-◌, max, min, Bool, true, false, not, ◌&&◌, ◌||◌, List, [], ◌∷◌, ◌++◌, map, Option, none,
  some, ◌==◌, within, if◌then◌else◌,
}
use exarrow_rs.Types.Mapping.{
  ExasolType, boolean, double, date, interval_year_to_month, char, varchar, decimal, timestamp,
  interval_day_to_second, geometry, hashtype, ColumnNameMode, quoted, sanitize, to_ddl_type,
}

pub record InferredColumn : Type 0 where
  pub original_name : Text
  pub ddl_name : Text
  pub exasol_type : ExasolType
  pub nullable : Bool

pub record InferredTableSchema : Type 0 where
  pub columns : List InferredColumn
  pub source_files : List Text

-- `join(",\n")`.
unfoldable pub join_lines : List Text → Text
join_lines [] = []
join_lines (s ∷ []) = s
join_lines (s ∷ t ∷ ss) = s ++ codes ",\n" ++ join_lines (t ∷ ss)

abbrev column_def : InferredColumn → Text
column_def col = codes "    " ++ col.ddl_name ++ codes " " ++ to_ddl_type col.exasol_type

abbrev table_ref : Text → Option Text → Text
table_ref table_name none = table_name
table_ref table_name (some schema) = schema ++ codes "." ++ table_name

unfoldable pub to_ddl : InferredTableSchema → Text → Option Text → Text
unfolding join_lines
to_ddl schema table_name schema_name =
    codes "CREATE TABLE "
    ++ table_ref table_name schema_name
    ++ codes " (\n"
    ++ join_lines (map column_def schema.columns)
    ++ codes "\n);"

abbrev pub is_digit : ℕ → Bool
is_digit c = within b'0' b'9' c

-- `is_ascii_alphanumeric() || c == '_'`.
abbrev pub is_word : ℕ → Bool
is_word c = is_digit c || within b'A' b'Z' c || within b'a' b'z' c || c == b'_'

abbrev pub to_ascii_uppercase : ℕ → ℕ
to_ascii_uppercase c = if within b'a' b'z' c then c - 32 else c

abbrev pub sanitize_char : ℕ → ℕ
sanitize_char c = if is_word c then to_ascii_uppercase c else b'_'

unfoldable pub prefix_digit : Text → Text
prefix_digit [] = b'_' ∷ []
prefix_digit (c ∷ s) = if is_digit c then b'_' ∷ c ∷ s else c ∷ s

unfoldable pub sanitize_column_name : Text → Text
unfolding prefix_digit
sanitize_column_name name = prefix_digit (map sanitize_char name)

-- `name.replace('"', "\"\"")`.
unfoldable pub double_dquotes : Text → Text
double_dquotes [] = []
double_dquotes (c ∷ s) = if c == b'"' then b'"' ∷ b'"' ∷ double_dquotes s else c ∷ double_dquotes s

unfoldable pub quote_column_name : Text → Text
unfolding double_dquotes
quote_column_name name = b'"' ∷ (double_dquotes name ++ (b'"' ∷ []))

unfoldable pub quote_identifier : Text → Text
unfolding quote_column_name
quote_identifier name = quote_column_name name

unfoldable pub format_column_name : Text → ColumnNameMode → Text
unfolding quote_column_name sanitize_column_name
format_column_name name quoted = quote_column_name name
format_column_name name sanitize = sanitize_column_name name

abbrev pub max_int : ℤ → ℤ → ℤ
max_int (pos m) (pos n) = pos (max m n)
max_int (pos m) (negsuc n) = pos m
max_int (negsuc m) (pos n) = pos n
max_int (negsuc m) (negsuc n) = negsuc (min m n)

abbrev pub same_int : ℤ → ℤ → Bool
same_int (pos m) (pos n) = m == n
same_int (negsuc m) (negsuc n) = m == n
same_int _ _ = false

abbrev pub same_srid : Option ℤ → Option ℤ → Bool
same_srid none none = true
same_srid (some a) (some b) = same_int a b
same_srid _ _ = false

abbrev pub same_bool : Bool → Bool → Bool
same_bool true b = b
same_bool false b = not b

-- The derived `PartialEq`.
unfoldable pub same_type : ExasolType → ExasolType → Bool
same_type boolean boolean = true
same_type double double = true
same_type date date = true
same_type interval_year_to_month interval_year_to_month = true
same_type (char m) (char n) = m == n
same_type (varchar m) (varchar n) = m == n
same_type (decimal p s) (decimal q t) = p == q && same_int s t
same_type (timestamp x) (timestamp y) = same_bool x y
same_type (interval_day_to_second p) (interval_day_to_second q) = p == q
same_type (geometry x) (geometry y) = same_srid x y
same_type (hashtype m) (hashtype n) = m == n
same_type _ _ = false

-- The `match` of `widen_type`.
unfoldable pub widen_different : ExasolType → ExasolType → ExasolType
widen_different (decimal p s) (decimal q t) = decimal (min (max p q) 36) (max_int s t)
widen_different (varchar m) (varchar n) = varchar (min (max m n) 2000000)
widen_different (char m) (char n) = char (min (max m n) 2000)
widen_different (char m) (varchar n) = varchar (min (max m n) 2000000)
widen_different (varchar n) (char m) = varchar (min (max m n) 2000000)
widen_different (decimal p s) double = double
widen_different double (decimal p s) = double
widen_different (timestamp x) (timestamp y) = timestamp (x || y)
widen_different (interval_day_to_second p) (interval_day_to_second q) =
    interval_day_to_second (max p q)
widen_different _ _ = varchar 2000000

unfoldable pub widen_type : ExasolType → ExasolType → ExasolType
unfolding same_type widen_different
widen_type a b = if same_type a b then a else widen_different a b
