-- ===== src/Query/Scan/Tokens.antt =====
-- What the scanner ought to see, described with no reference to it: a SQL text printed from
-- tokens. String literals, quoted identifiers and comments hide every `?` that they hold.
use mathlib.Core.List.{head?, map-append}
use native.Mathlib.Nat.{add-zero, add_assoc}
use exarrow_rs.Prelude.Text.{Text, len_utf8, byte_len}
use exarrow_rs.Prelude.{
  ℕ, ◌+◌, Bool, true, false, not, ◌&&◌, ◌||◌, List, [], ◌∷◌, ◌++◌, append_assoc, map, Option, some,
  ◌≡◌, refl, ap, ◌∙◌, inl, inr, arith, ◌==◌, if◌then◌else◌, Bool-cases, ==_refl, ◌⊎◌,
}
use exarrow_rs.Query.Scan.Pieces.{Pieces, pieces, offsets, scan_placeholders-offsets}
use exarrow_rs.Query.Scan.{
  ScanState, normal, single_quoted, double_quoted, line_comment, block_comment, go, go_past_pair,
  next_is, scan_step, scan_placeholders,
}

pub data Token : Type 0 where
  symbol : ℕ → Token
  hole : Token
  -- the quote character and the text between the quotes, before its quotes are doubled
  literal : ℕ → Text → Token
  line : Text → Token
  block : Text → Token

-- Every occurrence of `q` twice.
unfoldable pub doubled : ℕ → Text → Text
doubled q [] = []
doubled q (c ∷ s) = if c == q then q ∷ q ∷ doubled q s else c ∷ doubled q s

unfoldable pub print : Token → Text
unfolding doubled
print (symbol c) = c ∷ []
print hole = b'?' ∷ []
print (literal q body) = q ∷ (doubled q body ++ (q ∷ []))
print (line body) = b'-' ∷ b'-' ∷ (body ++ (b'\n' ∷ []))
print (block body) = b'/' ∷ b'*' ∷ (body ++ (b'*' ∷ b'/' ∷ []))

unfoldable pub print_all : List Token → Text
print_all [] = []
print_all (t ∷ ts) = print t ++ print_all ts

abbrev lacks : ℕ → Text → Bool
lacks b [] = true
lacks b (c ∷ s) = not (c == b) && lacks b s

-- No `*/` in the text.
abbrev lacks_close : Text → Bool
lacks_close [] = true
lacks_close (c ∷ s) = not (c == b'*' && next_is (head? s) b'/') && lacks_close s

-- The token reads as itself before a text that starts with `next`.
unfoldable pub is_fine : Token → Option ℕ → Bool
is_fine (symbol c) next =
    not (c == b'?')
    && not (c == b'\'')
    && not (c == b'"')
    && not (c == b'-' && next_is next b'-')
    && not (c == b'/' && next_is next b'*')
is_fine hole next = true
is_fine (literal q body) next = (q == b'\'' || q == b'"') && not (next_is next q)
is_fine (line body) next = lacks b'\n' body
is_fine (block body) next = lacks_close body

abbrev pub AllFine : List Token → Type 0
AllFine [] = Unit
AllFine (t ∷ ts) = (is_fine t (head? (print_all ts)) ≡ true) × AllFine ts

-- The marked characters of a token: only a hole is a placeholder.
abbrev plain : Text → Pieces
plain s = map (λ c. (c, false)) s

unfoldable pub marks : Token → Pieces
marks hole = (b'?', true) ∷ []
marks t = plain (print t)

unfoldable pub marks_all : List Token → Pieces
marks_all [] = []
marks_all (t ∷ ts) = marks t ++ marks_all ts

pieces_one :
    (state state' : ScanState) (c : ℕ) (s : Text)
    → scan_step state c (head? s) ≡ go state'
    → pieces state (c ∷ s) ≡ (c, false) ∷ pieces state' s
unfolding pieces
pieces_one state state' c [] h = rw h
pieces_one state state' c (d ∷ s) h = rw h

pieces_two :
    (state state' : ScanState) (c d : ℕ) (s : Text)
    → scan_step state c (some d) ≡ go_past_pair state'
    → pieces state (c ∷ d ∷ s) ≡ (c, false) ∷ (d, false) ∷ pieces state' s
unfolding pieces
pieces_two state state' c d s h = rw h

pieces_hole : (s : Text) → pieces normal (b'?' ∷ s) ≡ (b'?', true) ∷ pieces normal s
unfolding pieces scan_step
pieces_hole [] = refl
pieces_hole (d ∷ s) = refl

abbrev IsQuote : ℕ → Type 0
IsQuote q = (q ≡ b'\'') ⊎ (q ≡ b'"')

abbrev inside : ℕ → ScanState
inside q = if q == b'\'' then single_quoted else double_quoted

step_in_quotes :
    (q c : ℕ) (next : Option ℕ)
    → IsQuote q
    → scan_step (inside q) c next ≡ (
        if c == q
        then (if next_is next q then go_past_pair (inside q) else go normal)
        else go (inside q))
unfolding scan_step
step_in_quotes q c next h = ground arith

step_at_quote : (q : ℕ) (next : Option ℕ) → IsQuote q → scan_step normal q next ≡ go (inside q)
unfolding scan_step
step_at_quote q next h = ground arith

pieces_in_quotes :
    (q : ℕ) (body s : Text)
    → IsQuote q
    → next_is (head? s) q ≡ false
    → pieces (inside q) (doubled q body ++ (q ∷ s))
      ≡ plain (doubled q body) ++ ((q, false) ∷ pieces normal s)
unfolding doubled
pieces_in_quotes q [] s h e =
    pieces_one (inside q) normal q s (step_in_quotes q q (head? s) h ∙ rw (==_refl q, e))
pieces_in_quotes q (c ∷ body) s h e =
    let ih = pieces_in_quotes q body s h e in
    let after = doubled q body ++ (q ∷ s) in
    elim (Bool-cases (c == q)) [
      | inl same ↦
          let pair =
            pieces_two (inside q) (inside q) q q after
              (step_in_quotes q q (some q) h ∙ rw (==_refl q)) in
          rw same (pair ∙ rw ih)
      | inr other ↦
          let one =
            pieces_one (inside q) (inside q) c after
              (step_in_quotes q c (head? after) h ∙ rw other) in
          rw other (one ∙ rw ih)
    ]

step_in_line :
    (c : ℕ) (next : Option ℕ)
    → (c == b'\n') ≡ false
    → scan_step line_comment c next ≡ go line_comment
unfolding scan_step
step_in_line c next h = ground arith

step_in_block :
    (c : ℕ) (next : Option ℕ)
    → (c == b'*' && next_is next b'/') ≡ false
    → scan_step block_comment c next ≡ go block_comment
unfolding scan_step
step_in_block c next h = ground arith

pieces_in_line :
    (body s : Text)
    → lacks b'\n' body ≡ true
    → pieces line_comment (body ++ (b'\n' ∷ s)) ≡ plain body ++ ((b'\n', false) ∷ pieces normal s)
pieces_in_line [] s h = pieces_one line_comment normal b'\n' s (unfold scan_step in refl)
pieces_in_line (c ∷ body) s h =
    let ih = pieces_in_line body s (ground arith) in
    pieces_one line_comment line_comment c _ (step_in_line c _ (ground arith)) ∙ rw ih

pieces_in_block :
    (body s : Text)
    → lacks_close body ≡ true
    → pieces block_comment (body ++ (b'*' ∷ b'/' ∷ s))
      ≡ plain body ++ ((b'*', false) ∷ (b'/', false) ∷ pieces normal s)
pieces_in_block [] s h = pieces_two block_comment normal b'*' b'/' s (unfold scan_step in refl)
pieces_in_block (c ∷ []) s h =
    let close = pieces_two block_comment normal b'*' b'/' s (unfold scan_step in refl) in
    pieces_one block_comment block_comment c _ (step_in_block c _ (ground arith)) ∙ rw close
pieces_in_block (c ∷ d ∷ body) s h =
    let ih = pieces_in_block (d ∷ body) s (ground arith) in
    pieces_one block_comment block_comment c _ (step_in_block c _ (ground arith)) ∙ rw ih

pieces_token :
    (t : Token) (s : Text)
    → is_fine t (head? s) ≡ true
    → pieces normal (print t ++ s) ≡ marks t ++ pieces normal s
unfolding print marks
pieces_token (symbol c) s h =
    pieces_one normal normal c s (unfold scan_step is_fine in ground arith)
pieces_token hole s h = pieces_hole s
pieces_token (literal q body) s h =
    let quote : IsQuote q = unfold is_fine in ground arith in
    let apart : next_is (head? s) q ≡ false = unfold is_fine in ground arith in
    simp append_assoc (
      pieces_one normal (inside q) q _ (step_at_quote q _ quote)
      ∙ rw (pieces_in_quotes q body s quote apart)
          (unfold marks print in simp (map-append, append_assoc)))
pieces_token (line body) s h =
    let clean : lacks b'\n' body ≡ true = unfold is_fine in h in
    simp append_assoc (
      pieces_two normal line_comment b'-' b'-' _ (unfold scan_step in refl)
      ∙ rw (pieces_in_line body s clean) (simp (map-append, append_assoc)))
pieces_token (block body) s h =
    let clean : lacks_close body ≡ true = unfold is_fine in h in
    simp append_assoc (
      pieces_two normal block_comment b'/' b'*' _ (unfold scan_step in refl)
      ∙ rw (pieces_in_block body s clean) (simp (map-append, append_assoc)))

-- The scanner marks exactly the holes of a text printed from tokens.
pub pieces-print_all : (ts : List Token) → AllFine ts → pieces normal (print_all ts) ≡ marks_all ts
unfolding print_all marks_all
pieces-print_all [] h = unfold pieces in refl
pieces-print_all (t ∷ ts) (h, hs) = pieces_token t (print_all ts) h ∙ rw (pieces-print_all ts hs)

-- The byte offsets of the holes of a token list that is printed from offset `i` on.
unfoldable pub hole_offsets : ℕ → List Token → List ℕ
hole_offsets i [] = []
hole_offsets i (t ∷ ts) =
    let later = hole_offsets (i + byte_len (print t)) ts in elim t [ hole ↦ i ∷ later | _ ↦ later ]

offsets-plain :
    (s : Text) (i : ℕ) (ps : Pieces) → offsets i (plain s ++ ps) ≡ offsets (i + byte_len s) ps
unfolding offsets byte_len
offsets-plain [] i ps = rw add-zero
offsets-plain (c ∷ s) i ps = offsets-plain s (i + len_utf8 c) ps ∙ rw add_assoc

hole_len : len_utf8 b'?' ≡ byte_len (print hole)
unfolding byte_len len_utf8 print
hole_len = refl

offsets-marks_all : (ts : List Token) (i : ℕ) → offsets i (marks_all ts) ≡ hole_offsets i ts
unfolding marks_all marks hole_offsets offsets
offsets-marks_all [] i = refl
offsets-marks_all (hole ∷ ts) i =
    ap (◌∷◌ i) (offsets-marks_all ts _ ∙ ap (λ n. hole_offsets (i + n) ts) hole_len)
offsets-marks_all (symbol c ∷ ts) i =
    offsets-plain (print (symbol c)) i (marks_all ts) ∙ offsets-marks_all ts _
offsets-marks_all (literal q b ∷ ts) i =
    offsets-plain (print (literal q b)) i (marks_all ts) ∙ offsets-marks_all ts _
offsets-marks_all (line b ∷ ts) i =
    offsets-plain (print (line b)) i (marks_all ts) ∙ offsets-marks_all ts _
offsets-marks_all (block b ∷ ts) i =
    offsets-plain (print (block b)) i (marks_all ts) ∙ offsets-marks_all ts _

-- `scan_placeholders` returns the byte offset of every hole, in order, and of no other `?`: those
-- in string literals, quoted identifiers and comments are skipped.
pub scan_placeholders-print_all :
    (ts : List Token) → AllFine ts → scan_placeholders (print_all ts) ≡ hole_offsets 0 ts
scan_placeholders-print_all ts h =
    scan_placeholders-offsets (print_all ts)
    ∙ ap (offsets 0) (pieces-print_all ts h)
    ∙ offsets-marks_all ts 0
