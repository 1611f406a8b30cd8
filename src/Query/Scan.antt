-- ===== src/Query/Scan.antt =====
-- src/query/statement.rs: the lexer that finds the `?` placeholders of a SQL text.
pub mod Chars
pub mod Pieces
pub mod Tokens
use exarrow_rs.Prelude.Bytes.{Bytes}
use exarrow_rs.Prelude.Text.{Text, len_utf8, as_bytes}
use exarrow_rs.Prelude.{
  ℕ, ◌+◌, Bool, true, false, List, [], ◌∷◌, Option, none, some, get_elem?, ◌==◌, if◌then◌else◌,
}

pub data ScanState : Type 0 where
  normal single_quoted double_quoted line_comment block_comment : ScanState

pub record ScanStep : Type 0 where
  pub state : ScanState
  pub is_placeholder : Bool
  pub consumed_pair : Bool

abbrev pub go : ScanState → ScanStep
go s = record { state = s; is_placeholder = false; consumed_pair = false }

abbrev pub go_past_pair : ScanState → ScanStep
go_past_pair s = record { state = s; is_placeholder = false; consumed_pair = true }

abbrev pub placeholder : ScanStep
placeholder = record { state = normal; is_placeholder = true; consumed_pair = false }

-- `next == Some(b)`.
abbrev pub next_is : Option ℕ → ℕ → Bool
next_is none b = false
next_is (some x) b = x == b

unfoldable pub step_outside_literal : ℕ → Option ℕ → ScanStep
step_outside_literal c next =
    if c == b'?'
    then placeholder
    else if c == b'\''
    then go single_quoted
    else if c == b'"'
    then go double_quoted
    else if c == b'-'
    then (if next_is next b'-' then go_past_pair line_comment else go normal)
    else if c == b'/'
    then (if next_is next b'*' then go_past_pair block_comment else go normal)
    else go normal

unfoldable pub step_inside_quotes : ScanState → ℕ → ℕ → Option ℕ → ScanStep
step_inside_quotes state quote c next =
    if c == quote then (if next_is next quote then go_past_pair state else go normal) else go state

unfoldable pub step_inside_line_comment : ℕ → ScanStep
step_inside_line_comment c = if c == b'\n' then go normal else go line_comment

unfoldable pub step_inside_block_comment : ℕ → Option ℕ → ScanStep
step_inside_block_comment c next =
    if c == b'*'
    then (if next_is next b'/' then go_past_pair normal else go block_comment)
    else go block_comment

unfoldable pub scan_step : ScanState → ℕ → Option ℕ → ScanStep
unfolding step_outside_literal step_inside_quotes step_inside_line_comment step_inside_block_comment
scan_step normal c next = step_outside_literal c next
scan_step single_quoted c next = step_inside_quotes single_quoted b'\'' c next
scan_step double_quoted c next = step_inside_quotes double_quoted b'"' c next
scan_step line_comment c next = step_inside_line_comment c
scan_step block_comment c next = step_inside_block_comment c next

-- `str::char_indices`, from the byte offset `i` on.
unfoldable pub char_indices : ℕ → Text → List (ℕ × ℕ)
char_indices i [] = []
char_indices i (c ∷ s) = (i, c) ∷ char_indices (i + len_utf8 c) s

-- `positions.push(i)` before the positions of the later rounds.
abbrev pub emit : ScanStep → ℕ → List ℕ → List ℕ
emit step i later = if step.is_placeholder then i ∷ later else later

-- The `while let` loop. A consumed pair drops the next item of the iterator, if there is one.
unfoldable pub scan_loop : Bytes → ScanState → List (ℕ × ℕ) → List ℕ
scan_loop bytes state [] = []
scan_loop bytes state ((i, c) ∷ []) = emit (scan_step state c (get_elem? bytes (i + 1))) i []
scan_loop bytes state ((i, c) ∷ (j, d) ∷ iter) =
    let step = scan_step state c (get_elem? bytes (i + 1)) in
    let past_pair = scan_loop bytes step.state iter in
    let past_one = scan_loop bytes step.state ((j, d) ∷ iter) in
    emit step i (if step.consumed_pair then past_pair else past_one)

unfoldable pub scan_placeholders : Text → List ℕ
unfolding scan_loop char_indices
scan_placeholders sql = scan_loop (as_bytes sql) normal (char_indices 0 sql)
