-- ===== src/Query/Statement.antt =====
-- src/query/statement.rs: `StatementType` and `Statement`.
-- `replace_range` panics off a character boundary, and an index past the end panics: a panic is a
-- value of `Failure` here, so that a theorem can exclude it.
pub mod Build
pub mod Safe
pub mod Binding
use exarrow_rs.Prelude.Text.{Text, codes, len_utf8}
use exarrow_rs.Prelude.{
  ℕ, zero, suc, ◌+◌, ◌-◌, Bool, true, false, ◌||◌, List, [], ◌∷◌, ◌++◌, Option, none, some, Result,
  ok, err, ◌>>=◌, ok_or, and_then, length, get_elem?, set, replicate, ltb, leb, ◌==◌, within,
  if◌then◌else◌,
}
use exarrow_rs.Query.Parameter.{
  Platform, Parameter, QueryError, parameter_binding_error, not_enough_bound, not_bound,
  starts_with, to_uppercase, to_sql_literal,
}
use exarrow_rs.Query.Scan.{scan_placeholders}

pub data StatementType : Type 0 where
  select insert update delete ddl transaction other : StatementType

-- `char::is_whitespace`: the characters of Unicode's White_Space property.
abbrev pub is_whitespace : ℕ → Bool
is_whitespace c =
    within 0x9 0xd c
    || c == 0x20
    || c == 0x85
    || c == 0xa0
    || c == 0x1680
    || within 0x2000 0x200a c
    || within 0x2028 0x2029 c
    || c == 0x202f
    || c == 0x205f
    || c == 0x3000

unfoldable pub trim_start : Text → Text
trim_start [] = []
trim_start (c ∷ s) = let rest = trim_start s in if is_whitespace c then rest else c ∷ s

-- The `if` ladder of `from_sql`, on the trimmed upper-case text.
unfoldable pub type_of_trimmed : Text → StatementType
unfolding starts_with
type_of_trimmed t =
    if starts_with t (codes "SELECT") || starts_with t (codes "WITH")
    then select
    else if starts_with t (codes "INSERT")
    then insert
    else if starts_with t (codes "UPDATE")
    then update
    else if starts_with t (codes "DELETE")
    then delete
    else if starts_with t (codes "CREATE")
        || starts_with t (codes "ALTER")
        || starts_with t (codes "DROP")
        || starts_with t (codes "TRUNCATE")
    then ddl
    else if starts_with t (codes "BEGIN")
        || starts_with t (codes "COMMIT")
        || starts_with t (codes "ROLLBACK")
    then transaction
    else other

unfoldable pub from_sql : Platform → Text → StatementType
unfolding type_of_trimmed trim_start to_uppercase
from_sql env sql = type_of_trimmed (to_uppercase env (trim_start sql))

abbrev pub returns_result_set : StatementType → Bool
returns_result_set select = true
returns_result_set _ = false

abbrev pub returns_row_count : StatementType → Bool
returns_row_count insert = true
returns_row_count update = true
returns_row_count delete = true
returns_row_count _ = false

pub record Statement (F : Type 0) : Type 0 where
  pub sql : Text
  pub parameters : List (Option (Parameter F))
  pub timeout_ms : Option ℕ
  pub statement_type : StatementType

unfoldable pub new : (env : Platform) → Text → Statement env.Float
unfolding from_sql
new env sql = record {
  sql = sql;
  parameters = [];
  timeout_ms = none;
  statement_type = from_sql env sql;
}

module _ {F : Type 0} where
  unfoldable pub set_timeout : Statement F → ℕ → Statement F
  set_timeout st ms = record st { timeout_ms = some ms }

  -- `resize(index + 1, None)` where the index is past the end, then the write.
  unfoldable pub bind : Statement F → ℕ → Parameter F → Statement F
  bind st index value =
      let ps = st.parameters in
      let sized =
        if leb (length ps) index then ps ++ replicate (index + 1 - length ps) none else ps in
      record st { parameters = set sized index (some value) }

  -- The loop of `bind_all`, from `index` on.
  unfoldable pub bind_from : ℕ → Statement F → List (Parameter F) → Statement F
  bind_from index st [] = st
  bind_from index st (p ∷ ps) = bind_from (index + 1) (bind st index p) ps

  unfoldable pub bind_all : Statement F → List (Parameter F) → Statement F
  unfolding bind_from bind
  bind_all st params = bind_from 0 st params

  unfoldable pub clear_parameters : Statement F → Statement F
  clear_parameters st = record st { parameters = [] }

-- `split_at` at a byte offset; `none` where that is no character boundary of the text.
unfoldable pub split_at : Text → ℕ → Option (Text × Text)
split_at s zero = some ([], s)
split_at [] (suc i) = none
split_at (c ∷ s) (suc i) =
    let rest = split_at s (suc i - len_utf8 c) in
    if leb (len_utf8 c) (suc i) then and_then rest (λ p. some (c ∷ p.0, p.1)) else none

-- `String::replace_range(from..to, with)`; `none` is a panic.
unfoldable pub replace_range : Text → ℕ → ℕ → Text → Option Text
unfolding split_at
replace_range s from to with =
    if leb from to
    then and_then (split_at s from)
        (λ p. and_then (split_at s to) (λ q. some (p.0 ++ (with ++ q.1))))
    else none

pub data Failure : Type 0 where
  query : QueryError → Failure
  panic : Failure

-- The loop over `positions.iter().enumerate().rev()`: the later placeholders come first.
unfoldable pub substitute : (ℕ → Result Failure Text) → ℕ → List ℕ → Text → Result Failure Text
substitute literal index [] sql = ok sql
substitute literal index (at ∷ later) sql = do
  replaced ← substitute literal (index + 1) later sql
  text ← literal index
  ok_or (replace_range replaced at (at + 1) text) panic

module _ (env : Platform) where
  -- The literal of parameter `index`.
  unfoldable pub literal_at : List (Option (Parameter env.Float)) → ℕ → Result Failure Text
  literal_at params index = elim (get_elem? params index) [
    | none ↦ err panic
    | some none ↦ err (query (parameter_binding_error index not_bound))
    | some (some p) ↦ elim (to_sql_literal env p) [
      | ok literal ↦ ok literal
      | err e ↦ err (query e)
    ]
  ]

  unfoldable pub build_sql : Statement env.Float → Result Failure Text
  unfolding substitute
  build_sql st =
      let positions = scan_placeholders st.sql in
      if ltb (length st.parameters) (length positions)
      then err (query (parameter_binding_error (length st.parameters) not_enough_bound))
      else substitute (literal_at st.parameters) 0 positions st.sql
