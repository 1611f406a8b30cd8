-- ===== src/Query/Parameter.antt =====
-- src/query/statement.rs: bound parameter values and their SQL literals.
-- Floats, `char::to_uppercase` and `hex::encode` are not code of this repository: the section's
-- `env` stands for them.
use mathlib.Core.List.{flat_map}
use exarrow_rs.Prelude.Bytes.{Bytes}
use exarrow_rs.Prelude.Decimal.{show_int}
use exarrow_rs.Prelude.Int.{ℤ}
use exarrow_rs.Prelude.Text.{Text, codes}
use exarrow_rs.Prelude.{
  ℕ, Bool, true, false, ◌&&◌, ◌||◌, List, [], ◌∷◌, ◌++◌, Result, ok, err, ◌==◌, if◌then◌else◌,
}

pub record Platform : Type 1 where
  pub Float : Type 0
  pub is_nan : Float → Bool
  pub is_infinite : Float → Bool
  pub float_to_string : Float → Text
  pub char_to_uppercase : ℕ → Text
  pub hex_encode : Bytes → Text

-- The reasons that the messages of `QueryError::ParameterBindingError` name.
pub data BindingReason : Type 0 where
  not_enough_bound not_bound not_finite : BindingReason
  -- the statement's number of parameters
  out_of_bounds : ℕ → BindingReason
  -- a row's length and the statement's number of parameters
  row_length : ℕ → ℕ → BindingReason

pub data QueryError : Type 0 where
  parameter_binding_error : ℕ → BindingReason → QueryError
  sql_injection_detected : QueryError

pub data Parameter (F : Type 0) : Type 0 where
  null : Parameter F
  boolean : Bool → Parameter F
  integer : ℤ → Parameter F
  float : F → Parameter F
  string : Text → Parameter F
  binary : Bytes → Parameter F

unfoldable pub starts_with : Text → Text → Bool
starts_with s [] = true
starts_with [] (p ∷ ps) = false
starts_with (c ∷ s) (p ∷ ps) = c == p && starts_with s ps

-- `str::contains` of a non-empty text.
unfoldable pub contains : Text → Text → Bool
unfolding starts_with
contains [] p = starts_with [] p
contains (c ∷ s) p = starts_with (c ∷ s) p || contains s p

-- `s.replace('\'', "''")`.
unfoldable pub double_quotes : Text → Text
double_quotes [] = []
double_quotes (c ∷ s) = if c == b'\'' then b'\'' ∷ b'\'' ∷ double_quotes s else c ∷ double_quotes s

-- `format!("'{}'", s)`.
abbrev pub in_quotes : Text → Text
in_quotes s = b'\'' ∷ (s ++ (b'\'' ∷ []))

abbrev pub injection_patterns : List Text
injection_patterns =
    codes "'; DROP"
    ∷ codes "'; DELETE"
    ∷ codes "'; UPDATE"
    ∷ codes "'; INSERT"
    ∷ codes "' OR '1'='1"
    ∷ codes "' OR 1=1"
    ∷ codes "' OR TRUE"
    ∷ codes "UNION SELECT"
    ∷ codes "EXEC("
    ∷ codes "EXECUTE("
    ∷ []

unfoldable pub contains_any : Text → List Text → Bool
unfolding contains
contains_any s [] = false
contains_any s (p ∷ ps) = contains s p || contains_any s ps

module _ (env : Platform) where
  -- `str::to_uppercase`.
  unfoldable pub to_uppercase : Text → Text
  unfolding flat_map
  to_uppercase s = flat_map env.char_to_uppercase s

  unfoldable pub contains_sql_injection_pattern : Text → Bool
  unfolding to_uppercase contains_any
  contains_sql_injection_pattern s = contains_any (to_uppercase s) injection_patterns

  unfoldable pub to_sql_literal : Parameter env.Float → Result QueryError Text
  unfolding contains_sql_injection_pattern double_quotes show_int
  to_sql_literal null = ok (codes "NULL")
  to_sql_literal (boolean b) = ok (if b then codes "TRUE" else codes "FALSE")
  to_sql_literal (integer i) = ok (show_int i)
  to_sql_literal (float f) =
      if env.is_nan f || env.is_infinite f
      then err (parameter_binding_error 0 not_finite)
      else ok (env.float_to_string f)
  to_sql_literal (string s) =
      if contains_sql_injection_pattern s
      then err sql_injection_detected
      else ok (in_quotes (double_quotes s))
  to_sql_literal (binary b) = ok (in_quotes (env.hex_encode b))
