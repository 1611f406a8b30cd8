-- ===== src/Query/Statement/Binding.antt =====
-- Binding strings: the built SQL text has the tokens of the template, with each hole a string
-- literal that holds exactly the bound text.
use mathlib.Core.List.{head?}
use exarrow_rs.Prelude.Text.{Text}
use exarrow_rs.Prelude.{
  ℕ, suc, ◌+◌, Bool, true, false, not, ◌&&◌, List, [], ◌∷◌, ◌++◌, append_assoc, map, Option, some,
  ◌≡◌, refl, sym, ap, ◌∙◌, arith, ok, length, get_elem?, ltb, ◌==◌, All, length-append, length-map,
}
use exarrow_rs.Query.Parameter.{
  Platform, Parameter, string, double_quotes, in_quotes, contains_sql_injection_pattern,
  to_sql_literal,
}
use exarrow_rs.Query.Scan.Pieces.{Pieces}
use exarrow_rs.Query.Scan.Tokens.{
  Token, symbol, hole, literal, line, block, doubled, print, print_all, is_fine, AllFine, marks,
  marks_all, pieces-print_all, hole_offsets, scan_placeholders-print_all,
}
use exarrow_rs.Query.Scan.{scan_placeholders}
use exarrow_rs.Query.Statement.Build.{holes, fill, literals, build_sql-fill}
use exarrow_rs.Query.Statement.{Statement, literal_at, build_sql}

-- The template's tokens with each hole a literal of the next text.
unfoldable pub bound : List Token → List Text → List Token
bound [] ss = []
bound (hole ∷ ts) [] = hole ∷ bound ts []
bound (hole ∷ ts) (s ∷ ss) = literal b'\'' s ∷ bound ts ss
bound (t ∷ ts) ss = t ∷ bound ts ss

abbrev is_string_literal : Token → Bool
is_string_literal (literal q body) = q == b'\''
is_string_literal _ = false

-- No hole stands directly beside another hole or a string literal: there the quotes of two literals
-- would join.
unfoldable pub are_apart : List Token → Bool
are_apart [] = true
are_apart (hole ∷ []) = true
are_apart (t ∷ []) = true
are_apart (hole ∷ hole ∷ ts) = false
are_apart (hole ∷ u ∷ ts) = not (is_string_literal u) && are_apart (u ∷ ts)
are_apart (t ∷ hole ∷ ts) = not (is_string_literal t) && are_apart (hole ∷ ts)
are_apart (t ∷ u ∷ ts) = are_apart (u ∷ ts)

double_quotes-doubled : (s : Text) → double_quotes s ≡ doubled b'\'' s
unfolding double_quotes doubled
double_quotes-doubled [] = refl
double_quotes-doubled (c ∷ s) = rw (double_quotes-doubled s)

unfoldable pub count_holes : List Token → ℕ
count_holes [] = 0
count_holes (hole ∷ ts) = suc (count_holes ts)
count_holes (t ∷ ts) = count_holes ts

holes_plain : (s : Text) (ps : Pieces) → holes (map (λ c. (c, false)) s ++ ps) ≡ holes ps
unfolding holes
holes_plain [] ps = refl
holes_plain (c ∷ s) ps = holes_plain s ps

fill_plain :
    (s : Text) (ps : Pieces) (ls : List Text)
    → fill (map (λ c. (c, false)) s ++ ps) ls ≡ s ++ fill ps ls
unfolding fill
fill_plain [] ps ls = refl
fill_plain (c ∷ s) ps ls = ap (◌∷◌ c) (fill_plain s ps ls)

holes-marks_all : (ts : List Token) → holes (marks_all ts) ≡ count_holes ts
unfolding marks_all marks count_holes holes
holes-marks_all [] = refl
holes-marks_all (hole ∷ ts) = ap suc (holes-marks_all ts)
holes-marks_all (t ∷ ts) = holes_plain (print t) (marks_all ts) ∙ holes-marks_all ts

fill-marks_all :
    (ts : List Token) (ss : List Text)
    → length ss ≡ count_holes ts
    → fill (marks_all ts) (map (λ s. in_quotes (double_quotes s)) ss) ≡ print_all (bound ts ss)
unfolding marks_all marks count_holes bound print_all print fill
fill-marks_all [] ss h = refl
fill-marks_all (hole ∷ ts) [] h = absurd (omega arith)
fill-marks_all (hole ∷ ts) (s ∷ ss) h =
    rw (double_quotes-doubled s, fill-marks_all ts ss (omega arith))
fill-marks_all (t ∷ ts) ss h =
    fill_plain (print t) (marks_all ts) _ ∙ ap (λ r. print t ++ r) (fill-marks_all ts ss h)

-- Before a quote as before a `?`, but for a string literal.
is_fine_before_quote :
    (t : Token)
    → is_fine t (some b'?') ≡ true
    → is_string_literal t ≡ false
    → is_fine t (some b'\'') ≡ true
unfolding is_fine
is_fine_before_quote (symbol c) h k = ground arith
is_fine_before_quote hole h k = refl
is_fine_before_quote (literal q b) h k = ground arith
is_fine_before_quote (line b) h k = h
is_fine_before_quote (block b) h k = h

apart_before_hole :
    (t : Token) (ts : List Token) → are_apart (t ∷ hole ∷ ts) ≡ true → is_string_literal t ≡ false
unfolding are_apart
apart_before_hole (literal q b) ts h = ground arith
apart_before_hole hole ts h = refl
apart_before_hole _ ts h = refl

apart_tail : (t : Token) (ts : List Token) → are_apart (t ∷ ts) ≡ true → are_apart ts ≡ true
unfolding are_apart
apart_tail t [] h = refl
apart_tail hole (hole ∷ ts) h = cc
apart_tail hole (symbol c ∷ ts) h = ground arith
apart_tail hole (u ∷ ts) h = ground arith
apart_tail (symbol c) (hole ∷ ts) h = ground arith
apart_tail (symbol c) (u ∷ ts) h = h
apart_tail (literal q b) (hole ∷ ts) h = ground arith
apart_tail (literal q b) (u ∷ ts) h = h
apart_tail t (hole ∷ ts) h = ground arith
apart_tail t (u ∷ ts) h = h

-- A token other than a hole stays fine when the holes behind it are filled.
fine_before_bound :
    (t : Token) (ts : List Token) (ss : List Text)
    → length ss ≡ count_holes ts
    → are_apart (t ∷ ts) ≡ true
    → is_fine t (head? (print_all ts)) ≡ true
    → is_fine t (head? (print_all (bound ts ss))) ≡ true
unfolding bound print_all print count_holes
fine_before_bound t [] ss n k h = h
fine_before_bound t (hole ∷ ts) [] n k h = absurd (omega arith)
fine_before_bound t (hole ∷ ts) (s ∷ ss) n k h = is_fine_before_quote t h (apart_before_hole t ts k)
fine_before_bound t (u ∷ ts) ss n k h = h

-- A literal in place of a hole is fine.
fine_bound_hole :
    (s : Text) (ts : List Token) (ss : List Text)
    → AllFine ts
    → are_apart (hole ∷ ts) ≡ true
    → is_fine (literal b'\'' s) (head? (print_all (bound ts ss))) ≡ true
unfolding bound print_all print are_apart is_fine
fine_bound_hole s [] ss h k = refl
fine_bound_hole s (hole ∷ ts) ss h k = cc
fine_bound_hole s (symbol c ∷ ts) ss (h, hs) k = ground arith
fine_bound_hole s (literal q b ∷ ts) ss h k = ground arith
fine_bound_hole s (u ∷ ts) ss h k = refl

AllFine-bound :
    (ts : List Token) (ss : List Text)
    → length ss ≡ count_holes ts
    → are_apart ts ≡ true
    → AllFine ts
    → AllFine (bound ts ss)
unfolding bound count_holes
AllFine-bound [] ss n k h = tt
AllFine-bound (hole ∷ ts) [] n k h = absurd (omega arith)
AllFine-bound (hole ∷ ts) (s ∷ ss) n k (h, hs) =
    (fine_bound_hole s ts ss hs k, AllFine-bound ts ss (omega arith) (apart_tail hole ts k) hs)
AllFine-bound (t ∷ ts) ss n k (h, hs) =
    (fine_before_bound t ts ss n k h, AllFine-bound ts ss n (apart_tail t ts k) hs)

get_elem?-length :
    {A : Type 0} (before rest : List A) (x : A)
    → get_elem? (before ++ x ∷ rest) (length before) ≡ some x
get_elem?-length [] rest x = refl
get_elem?-length (y ∷ before) rest x = get_elem?-length before rest x

count_holes-bound :
    (ts : List Token) (ss : List Text) → length ss ≡ count_holes ts → count_holes (bound ts ss) ≡ 0
unfolding bound count_holes
count_holes-bound [] ss n = refl
count_holes-bound (hole ∷ ts) [] n = absurd (omega arith)
count_holes-bound (hole ∷ ts) (s ∷ ss) n = count_holes-bound ts ss (omega arith)
count_holes-bound (t ∷ ts) ss n = count_holes-bound ts ss n

hole_offsets-nil : (ts : List Token) (i : ℕ) → count_holes ts ≡ 0 → hole_offsets i ts ≡ []
unfolding count_holes hole_offsets
hole_offsets-nil [] i h = refl
hole_offsets-nil (hole ∷ ts) i h = absurd (omega arith)
hole_offsets-nil (t ∷ ts) i h = hole_offsets-nil ts _ h

module _ (env : Platform) where
  abbrev pub bound_string : Text → Option (Parameter env.Float)
  bound_string s = some (string s)

  to_sql_literal-string :
      (s : Text)
      → contains_sql_injection_pattern env s ≡ false
      → to_sql_literal env (string s) ≡ ok (in_quotes (double_quotes s))
  to_sql_literal-string s h = unfold to_sql_literal in rw h

  literal_at-string :
      (before rest : List (Option (Parameter env.Float))) (s : Text)
      → contains_sql_injection_pattern env s ≡ false
      → literal_at env (before ++ some (string s) ∷ rest) (length before)
        ≡ ok (in_quotes (double_quotes s))
  unfolding literal_at
  literal_at-string before rest s h =
      rw (get_elem?-length before rest (some (string s)), literal_at, to_sql_literal-string s h)

  -- The literals of strings that the injection check lets pass.
  literals-string :
      (before : List (Option (Parameter env.Float))) (ss : List Text) (i : ℕ)
      → i ≡ length before
      → All (λ s. contains_sql_injection_pattern env s ≡ false) ss
      → literals (literal_at env (before ++ map bound_string ss)) i (length ss)
        ≡ ok (map (λ s. in_quotes (double_quotes s)) ss)
  unfolding literals
  literals-string before [] i e h = refl
  literals-string before (s ∷ ss) i e (h, hs) =
      let later : List (Option (Parameter env.Float)) = map bound_string ss in
      let ih =
        literals-string (before ++ bound_string s ∷ []) ss (i + 1)
          (omega (arith, length-append {0} before (bound_string s ∷ []))) hs in
      let ih' = rw append_assoc at ih in rw (ih', e, literal_at-string before later s h)

  -- A template with strings bound to all its holes, none of which stands directly beside another
  -- hole or a string literal: the built SQL text is that of the template's tokens with each hole a
  -- string literal of exactly the bound text. It reads as those tokens, and the scanner finds no
  -- placeholder in it: no bound text ends its literal, whatever quotes, comments or `?` it holds.
  pub build_sql-bound :
      (ts : List Token) (ss : List Text) (st : Statement env.Float)
      → AllFine ts
      → are_apart ts ≡ true
      → length ss ≡ count_holes ts
      → All (λ s. contains_sql_injection_pattern env s ≡ false) ss
      → st.sql ≡ print_all ts
      → st.parameters ≡ map bound_string ss
      → (build_sql env st ≡ ok (print_all (bound ts ss)))
        × AllFine (bound ts ss)
        × (scan_placeholders (print_all (bound ts ss)) ≡ [])
  build_sql-bound ts ss st fine apart n clean sql params =
      let fine' = AllFine-bound ts ss n apart fine in
      let none_left = hole_offsets-nil (bound ts ss) 0 (count_holes-bound ts ss n) in
      let size : holes (marks_all ts) ≡ length ss = holes-marks_all ts ∙ sym n in
      let count : length st.parameters ≡ length ss =
        ap length params ∙ length-map bound_string ss in
      let enough : ltb (length ss) (length ss) ≡ false = ground arith in
      let built : build_sql env st ≡ ok (print_all (bound ts ss)) =
        rw
          (
            build_sql-fill env st,
            sql,
            pieces-print_all ts fine,
            size,
            count,
            enough,
            params,
            literals-string [] ss 0 refl clean,
          )
          (ap ok (fill-marks_all ts ss n)) in
      (built, fine', scan_placeholders-print_all (bound ts ss) fine' ∙ none_left)
