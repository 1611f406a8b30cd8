-- ===== src/Query/Statement/Build.antt =====
-- `build_sql` against a rendering from left to right.
use exarrow_rs.Prelude.Text.{Text, len_utf8, byte_len, byte_len-append, len_utf8-pos}
use exarrow_rs.Prelude.{
  ℕ, zero, suc, ◌+◌, ◌-◌, true, false, List, [], ◌∷◌, ◌++◌, append_assoc, Option, none, some, ◌≡◌,
  refl, ap, ◌∙◌, inl, inr, arith, Result, ok, err, ◌>>=◌, ok_or, and_then, length, ltb, leb,
  if◌then◌else◌, Bool-cases,
}
use exarrow_rs.Query.Parameter.{Platform, parameter_binding_error, not_enough_bound}
use exarrow_rs.Query.Scan.Pieces.{Pieces, pieces, offsets, scan_placeholders-offsets}
use exarrow_rs.Query.Scan.{ScanState, normal, scan_step}
use exarrow_rs.Query.Statement.{
  Statement, split_at, replace_range, Failure, query, panic, literal_at, substitute, build_sql,
}

-- The characters of a marked text.
unfoldable pub chars : Pieces → Text
chars [] = []
chars ((c, hole) ∷ ps) = c ∷ chars ps

unfoldable pub holes : Pieces → ℕ
holes [] = 0
holes ((c, false) ∷ ps) = holes ps
holes ((c, true) ∷ ps) = suc (holes ps)

-- The text with its holes replaced from left to right.
unfoldable pub fill : Pieces → List Text → Text
fill [] ls = []
fill ((c, false) ∷ ps) ls = c ∷ fill ps ls
fill ((c, true) ∷ ps) [] = c ∷ fill ps []
fill ((c, true) ∷ ps) (l ∷ ls) = l ++ fill ps ls

-- Every marked character is a `?`.
abbrev MarksQuestions : Pieces → Type 0
MarksQuestions [] = Unit
MarksQuestions ((c, false) ∷ ps) = MarksQuestions ps
MarksQuestions ((c, true) ∷ ps) = (c ≡ b'?') × MarksQuestions ps

-- The literals of `n` placeholders from number `index` on. An error of a later one comes first.
unfoldable pub literals : (ℕ → Result Failure Text) → ℕ → ℕ → Result Failure (List Text)
literals literal index zero = ok []
literals literal index (suc n) = do
  later ← literals literal (index + 1) n
  text ← literal index
  ok (text ∷ later)

byte_len-concat : (pre : Text) (c : ℕ) → byte_len (pre ++ c ∷ []) ≡ byte_len pre + len_utf8 c
byte_len-concat pre c = byte_len-append pre (c ∷ []) ∙ unfold byte_len in omega arith

split_at_step :
    (c : ℕ) (s : Text) (m : ℕ)
    → split_at (c ∷ s) (len_utf8 c + m) ≡ and_then (split_at s m) (λ p. some (c ∷ p.0, p.1))
split_at_step c s m =
    let positive : len_utf8 c + m ≡ suc (len_utf8 c + m - 1) = omega (arith, len_utf8-pos c) in
    let fits : leb (len_utf8 c) (suc (len_utf8 c + m - 1)) ≡ true =
      ground (arith, len_utf8-pos c) in
    let rest : suc (len_utf8 c + m - 1) - len_utf8 c ≡ m = omega (arith, len_utf8-pos c) in
    rw positive (unfold split_at in rw (fits, rest))

split_at-byte_len : (pre s : Text) → split_at (pre ++ s) (byte_len pre) ≡ some (pre, s)
unfolding byte_len
split_at-byte_len [] s = unfold split_at in refl
split_at-byte_len (c ∷ pre) s =
    split_at_step c (pre ++ s) (byte_len pre) ∙ rw (split_at-byte_len pre s)

split_at_hole :
    (pre post : Text)
    → split_at (pre ++ b'?' ∷ post) (byte_len pre + 1) ≡ some (pre ++ b'?' ∷ [], post)
split_at_hole pre post =
    let size : byte_len (pre ++ b'?' ∷ []) ≡ byte_len pre + 1 =
      byte_len-append pre (b'?' ∷ []) ∙ unfold byte_len len_utf8 in refl in
    let whole : pre ++ b'?' ∷ [] ++ post ≡ pre ++ b'?' ∷ post = append_assoc pre (b'?' ∷ []) post in
    rw (← size, ← whole) (split_at-byte_len (pre ++ b'?' ∷ []) post)

replace_range-hole :
    (pre post l : Text)
    → replace_range (pre ++ b'?' ∷ post) (byte_len pre) (byte_len pre + 1) l
      ≡ some (pre ++ (l ++ post))
unfolding replace_range
replace_range-hole pre post l =
    let up : leb (byte_len pre) (byte_len pre + 1) ≡ true = ground arith in
    rw (up, split_at-byte_len, split_at_hole)

-- The step of the loop at a hole, after the later placeholders gave `m` and the literal is `r`.
step_at_hole :
    (pre : Text) (ps : Pieces) (m : Result Failure (List Text)) (r : Result Failure Text)
    → ((m >>= λ ls. ok (pre ++ b'?' ∷ fill ps ls)) >>= λ replaced.
        r >>= λ text. ok_or (replace_range replaced (byte_len pre) (byte_len pre + 1) text) panic)
      ≡ ((m >>= λ later. r >>= λ text. ok (text ∷ later)) >>= λ ls.
          ok (pre ++ fill ((b'?', true) ∷ ps) ls))
unfolding fill
step_at_hole pre ps (err e) r = refl
step_at_hole pre ps (ok ls) (err e) = refl
step_at_hole pre ps (ok ls) (ok l) = rw replace_range-hole

substitute-fill :
    (literal : ℕ → Result Failure Text) (ps : Pieces) (pre : Text) (k : ℕ)
    → MarksQuestions ps
    → substitute literal k (offsets (byte_len pre) ps) (pre ++ chars ps)
      ≡ (literals literal k (holes ps) >>= λ ls. ok (pre ++ fill ps ls))
unfolding substitute offsets chars holes fill literals
substitute-fill literal [] pre k h = refl
substitute-fill literal ((c, false) ∷ ps) pre k h =
    let size : byte_len (pre ++ c ∷ []) ≡ byte_len pre + len_utf8 c = byte_len-concat pre c in
    rw (← size) (simp append_assoc at (substitute-fill literal ps (pre ++ c ∷ []) k h))
substitute-fill literal ((c, true) ∷ ps) pre k (h, hs) =
    let size : byte_len (pre ++ b'?' ∷ []) ≡ byte_len pre + len_utf8 b'?' =
      byte_len-concat pre b'?' in
    let later = simp append_assoc at (substitute-fill literal ps (pre ++ b'?' ∷ []) (k + 1) hs) in
    rw (h, ← size, later) (step_at_hole pre ps (literals literal (k + 1) (holes ps)) (literal k))

scan_step_placeholder :
    (state : ScanState) (c : ℕ) (next : Option ℕ)
    → (scan_step state c next).is_placeholder ≡ true
    → c ≡ b'?'
unfolding scan_step
scan_step_placeholder normal c next h = ground arith
scan_step_placeholder _ c next h = ground arith

MarksQuestions-cons :
    (state : ScanState) (c : ℕ) (next : Option ℕ) (ps : Pieces)
    → MarksQuestions ps
    → MarksQuestions ((c, (scan_step state c next).is_placeholder) ∷ ps)
MarksQuestions-cons state c next ps h = elim (Bool-cases (scan_step state c next).is_placeholder) [
  | inl hole ↦ rw hole (scan_step_placeholder state c next hole, h)
  | inr plain ↦ rw plain h
]

pieces-MarksQuestions : (s : Text) (state : ScanState) → MarksQuestions (pieces state s)
unfolding pieces
pieces-MarksQuestions [] state = tt
pieces-MarksQuestions (c ∷ []) state = MarksQuestions-cons state c none [] tt
pieces-MarksQuestions (c ∷ d ∷ s) state =
    let step = scan_step state c (some d) in
    let two = pieces-MarksQuestions s step.state in
    let one = pieces-MarksQuestions (d ∷ s) step.state in
    MarksQuestions-cons state c (some d) _
      (elim (Bool-cases step.consumed_pair) [ inl pair ↦ rw pair two | inr single ↦ rw single one ])

chars-pieces : (s : Text) (state : ScanState) → chars (pieces state s) ≡ s
unfolding pieces chars
chars-pieces [] state = refl
chars-pieces (c ∷ []) state = refl
chars-pieces (c ∷ d ∷ s) state =
    let step = scan_step state c (some d) in
    let two = chars-pieces s step.state in
    let one = chars-pieces (d ∷ s) step.state in
    elim (Bool-cases step.consumed_pair) [
      | inl pair ↦ rw (pair, two)
      | inr single ↦ rw (single, one)
    ]

length-offsets : (ps : Pieces) (i : ℕ) → length (offsets i ps) ≡ holes ps
unfolding offsets holes
length-offsets [] i = refl
length-offsets ((c, false) ∷ ps) i = length-offsets ps (i + len_utf8 c)
length-offsets ((c, true) ∷ ps) i = ap suc (length-offsets ps (i + len_utf8 c))

module _ (env : Platform) where
  -- For every statement: fewer parameters than placeholders is the error that says so, and else the
  -- SQL text has each placeholder replaced by its literal, from left to right. Where a parameter is
  -- unbound or has no literal, the error is that of the last such placeholder.
  pub build_sql-fill :
      (st : Statement env.Float)
      → build_sql env st ≡ (
          let ps = pieces normal st.sql in
          if ltb (length st.parameters) (holes ps)
          then err (query (parameter_binding_error (length st.parameters) not_enough_bound))
          else literals (literal_at env st.parameters) 0 (holes ps) >>= λ ls. ok (fill ps ls))
  unfolding build_sql byte_len
  build_sql-fill st =
      let ps = pieces normal st.sql in
      let whole : chars ps ≡ st.sql = chars-pieces st.sql normal in
      let filled =
        substitute-fill (literal_at env st.parameters) ps [] 0
          (pieces-MarksQuestions st.sql normal) in
      let filled' = rw whole at filled in
      rw (scan_placeholders-offsets, length-offsets)
        (ap
          (λ r.
            if ltb (length st.parameters) (holes ps)
            then err (query (parameter_binding_error (length st.parameters) not_enough_bound))
            else r)
          filled')
