-- ===== src/Query/Prepared.antt =====
-- src/query/prepared.rs: prepared statements, and the transposition of a batch of rows.
-- `serde_json::Value` is the section's `json`; an index past the end is `Failure.panic`.
pub mod Batch
use exarrow_rs.Prelude.Bytes.{Bytes}
use exarrow_rs.Prelude.Int.{ℤ}
use exarrow_rs.Prelude.Text.{Text}
use exarrow_rs.Prelude.{
  ℕ, zero, suc, ◌+◌, Bool, true, false, List, [], ◌∷◌, map, Option, none, some, Result, ok, err,
  ◌>>=◌, ◌>>◌, ok_or, and_then, length, get_elem?, set, replicate, leb, ◌==◌, if◌then◌else◌,
}
use exarrow_rs.Query.Parameter.{
  Platform, Parameter, null, boolean, integer, float, string, binary, QueryError,
  parameter_binding_error, not_bound, out_of_bounds, row_length,
}
use exarrow_rs.Query.Statement.{Failure, query, panic}

-- The constructors of `serde_json::Value` that the source uses.
pub record Json (F : Type 0) : Type 1 where
  pub Value : Type 0
  pub json_null : Value
  pub json_bool : Bool → Value
  pub json_i64 : ℤ → Value
  pub json_f64 : F → Value
  pub json_string : Text → Value

-- `parameter_types` and `result_columns` of the handle are only passed on.
pub record PreparedStatement (F : Type 0) : Type 0 where
  pub handle : ℤ
  pub num_params : ℕ
  pub parameters : List (Option (Parameter F))
  pub is_closed : Bool

module _ {F : Type 0} where
  unfoldable pub new : ℤ → ℕ → PreparedStatement F
  new handle num_params = record {
    handle = handle;
    num_params = num_params;
    parameters = replicate num_params none;
    is_closed = false;
  }

  unfoldable pub mark_closed : PreparedStatement F → PreparedStatement F
  mark_closed st = record st { is_closed = true }

  unfoldable pub bind :
      PreparedStatement F → ℕ → Parameter F → Result QueryError (PreparedStatement F)
  bind st index value =
      if leb (length st.parameters) index
      then err (parameter_binding_error index (out_of_bounds (length st.parameters)))
      else ok (record st { parameters = set st.parameters index (some value) })

  unfoldable pub clear_parameters : PreparedStatement F → PreparedStatement F
  clear_parameters st = record st { parameters = map (λ p. none) st.parameters }

  -- The loop that checks each row's length, from row `i` on.
  unfoldable pub check_rows : ℕ → ℕ → List (List (Parameter F)) → Result QueryError (Unit {0})
  check_rows expected i [] = ok tt
  check_rows expected i (row ∷ rows) =
      let rest = check_rows expected (i + 1) rows in
      if length row == expected
      then rest
      else err (parameter_binding_error i (row_length (length row) expected))

  -- The loop that checks that each parameter is bound, from number `i` on.
  unfoldable pub check_bound : ℕ → List (Option (Parameter F)) → Result QueryError (Unit {0})
  check_bound i [] = ok tt
  check_bound i (none ∷ ps) = err (parameter_binding_error i not_bound)
  check_bound i (some p ∷ ps) = check_bound (i + 1) ps

abbrev pub lift {ℓ} : {A : Type ℓ} → Result QueryError A → Result Failure A
lift (ok a) = ok a
lift (err e) = err (query e)

module _ (env : Platform) (json : Json env.Float) where
  unfoldable pub parameter_to_json : Parameter env.Float → json.Value
  parameter_to_json null = json.json_null
  parameter_to_json (boolean b) = json.json_bool b
  parameter_to_json (integer i) = json.json_i64 i
  parameter_to_json (float f) = json.json_f64 f
  parameter_to_json (string s) = json.json_string s
  parameter_to_json (binary b) = json.json_string (env.hex_encode b)

  -- `rows.iter().map(|row| parameter_to_json(&row[c])).collect()`.
  unfoldable pub column : List (List (Parameter env.Float)) → ℕ → Result Failure (List json.Value)
  column [] c = ok []
  column (row ∷ rows) c = do
    p ← ok_or (get_elem? row c) panic
    values ← column rows c
    ok (parameter_to_json p ∷ values)

  -- The columns `c`, `c + 1`, …, `n` of them.
  unfoldable pub columns_from :
      List (List (Parameter env.Float)) → ℕ → ℕ → Result Failure (List (List json.Value))
  columns_from rows c zero = ok []
  columns_from rows c (suc n) = do
    first ← column rows c
    rest ← columns_from rows (c + 1) n
    ok (first ∷ rest)

  unfoldable pub build_batch_parameters_data :
      PreparedStatement env.Float
      → List (List (Parameter env.Float))
      → Result Failure (Option (List (List json.Value)))
  unfolding check_rows columns_from column
  build_batch_parameters_data st [] = ok none
  build_batch_parameters_data st (row ∷ rows) = do
    lift (check_rows st.num_params 0 (row ∷ rows))
    columns ← columns_from (row ∷ rows) 0 st.num_params
    ok (some columns)

  -- `vec![parameter_to_json(p.as_ref().unwrap())]` for each parameter.
  unfoldable pub single_columns :
      List (Option (Parameter env.Float)) → Result Failure (List (List json.Value))
  single_columns [] = ok []
  single_columns (p ∷ ps) = do
    value ← ok_or p panic
    rest ← single_columns ps
    ok ((parameter_to_json value ∷ []) ∷ rest)

  unfoldable pub build_parameters_data :
      PreparedStatement env.Float → Result Failure (Option (List (List json.Value)))
  unfolding check_bound single_columns
  build_parameters_data st = elim (st.parameters) [
    | [] ↦ ok none
    | p ∷ ps ↦ do
      lift (check_bound 0 (p ∷ ps))
      columns ← single_columns (p ∷ ps)
      ok (some columns)
  ]
