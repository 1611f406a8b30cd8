-- ===== src/Tests/Platforms.antt =====
-- Concrete platforms, JSON values and servers for the tests.
use mathlib.Core.List.{flat_map}
use exarrow_rs.Prelude.Decimal.{show_nat}
use exarrow_rs.Prelude.Int.{ℤ}
use exarrow_rs.Prelude.Text.{Text, codes}
use exarrow_rs.Prelude.{
  ℕ, ◌+◌, ◌-◌, ◌/◌, ◌%◌, Bool, false, List, [], ◌∷◌, ltb, ◌==◌, within, if◌then◌else◌, Result, ok,
  err,
}
use exarrow_rs.Query.Parameter.{Platform}
use exarrow_rs.Query.Prepared.{Json}
use exarrow_rs.Query.Results.{Server}

abbrev hex_digit : ℕ → ℕ
hex_digit n = if ltb n 10 then b'0' + n else b'a' + (n - 10)

-- Floats are whole numbers, and letters outside ASCII have no upper case.
abbrev pub whole_floats : Platform
whole_floats = record {
  Float = ℕ;
  is_nan = λ f. false;
  is_infinite = λ f. false;
  float_to_string = show_nat;
  char_to_uppercase = λ c. (if within b'a' b'z' c then c - 32 else c) ∷ [];
  hex_encode = flat_map (λ b. hex_digit (b / 16) ∷ hex_digit (b % 16) ∷ []);
}

pub data JsonValue : Type 0 where
  null : JsonValue
  boolean : Bool → JsonValue
  integer : ℤ → JsonValue
  float : ℕ → JsonValue
  text : Text → JsonValue

abbrev pub tree_json : Json ℕ
tree_json = record {
  Value = JsonValue;
  json_null = null;
  json_bool = boolean;
  json_i64 = integer;
  json_f64 = float;
  json_string = text;
}

-- The state is the list of pages left; a payload is a row count, and so is a batch.
abbrev next_page : List ℕ → Result Text ℕ × List ℕ
next_page [] = (err (codes "no page"), [])
next_page (p ∷ ps) = (ok p, ps)

abbrev pub listed_pages : Server
listed_pages = record {
  State = List ℕ;
  Payload = ℕ;
  Batch = ℕ;
  fetch_results = λ t h. next_page t;
  close_result_set = λ t h. [];
  is_empty = λ p. p == 0;
  to_batch = λ p. ok p;
  num_rows = λ b. b;
}
