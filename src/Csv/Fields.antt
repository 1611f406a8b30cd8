-- ===== src/Csv/Fields.antt =====
-- A formatted field is read as one field.
use exarrow_rs.Prelude.Text.{Text}
use exarrow_rs.Prelude.{
  ℕ, Bool, true, false, List, [], ◌∷◌, ◌++◌, append_assoc, append-nil, ◌≡◌, refl, ◌∙◌, arith, ◌==◌,
  Bool-cases, inl, inr,
}
use exarrow_rs.Csv.{contains_char, needs_quoting, double_delimiter, format_field, next_row}

module _ (separator delimiter : ℕ) where
  next_row_pushed :
      (row : List Text) (field : Text) (any : Bool) (c : ℕ) (t : Text)
      → (c == delimiter) ≡ false
      → next_row separator delimiter row field true any (c ∷ t)
        ≡ next_row separator delimiter row (field ++ (c ∷ [])) true true t
  unfolding next_row
  next_row_pushed row field any c [] h = rw h refl
  next_row_pushed row field any c (d ∷ s) h = rw h refl

  next_row_doubled :
      (row : List Text) (field : Text) (any : Bool) (t : Text)
      → next_row separator delimiter row field true any (delimiter ∷ delimiter ∷ t)
        ≡ next_row separator delimiter row (field ++ (delimiter ∷ [])) true true t
  unfolding next_row
  next_row_doubled row field any t = ground arith

  next_row_closed :
      (row : List Text) (field : Text) (any : Bool) (c : ℕ) (t : Text)
      → (c == delimiter) ≡ false
      → next_row separator delimiter row field true any (delimiter ∷ c ∷ t)
        ≡ next_row separator delimiter row field false true (c ∷ t)
  unfolding next_row
  next_row_closed row field any c t h = ground arith

  next_row_quoted :
      (row : List Text) (field v : Text) (any : Bool) (c : ℕ) (t : Text)
      → (c == delimiter) ≡ false
      → next_row separator delimiter row field true any
          (double_delimiter separator delimiter v ++ (delimiter ∷ c ∷ t))
        ≡ next_row separator delimiter row (field ++ v) false true (c ∷ t)
  unfolding double_delimiter
  next_row_quoted row field [] any c t h =
      next_row_closed row field any c t h ∙ rw (append-nil field) refl
  next_row_quoted row field (x ∷ v) any c t h =
      let joined : field ++ (x ∷ []) ++ v ≡ field ++ x ∷ v = append_assoc field (x ∷ []) v in
      elim (Bool-cases (x == delimiter)) [
        | inl e ↦
            let same : x ≡ delimiter = ground arith in
            let later = next_row_quoted row (field ++ (delimiter ∷ [])) v true c t h in
            rw (e, same)
              (next_row_doubled row field any _
                ∙ later
                ∙ rw (append_assoc field (delimiter ∷ []) v) refl)
        | inr e ↦
            let later = next_row_quoted row (field ++ (x ∷ [])) v true c t h in
            rw e (next_row_pushed row field any x _ e ∙ later ∙ rw joined refl)
      ]

  next_row_any :
      (row : List Text) (field : Text) (any : Bool) (c : ℕ) (t : Text)
      → next_row separator delimiter row field false any (c ∷ t)
        ≡ next_row separator delimiter row field false true (c ∷ t)
  unfolding next_row
  next_row_any row field any c t = refl

  -- The character has no meaning of its own.
  abbrev IsPlain : ℕ → Type 0
  IsPlain x =
      ((x == delimiter) ≡ false)
      × ((x == separator) ≡ false)
      × ((x == b'\n') ≡ false)
      × ((x == b'\r') ≡ false)

  needs_quoting-cons :
      (x : ℕ) (v : Text)
      → needs_quoting separator delimiter (x ∷ v) ≡ false
      → IsPlain x × (needs_quoting separator delimiter v ≡ false)
  unfolding needs_quoting contains_char
  needs_quoting-cons x v h = ground arith

  next_row_put :
      (row : List Text) (field : Text) (any : Bool) (x : ℕ) (t : Text)
      → IsPlain x
      → next_row separator delimiter row field false any (x ∷ t)
        ≡ next_row separator delimiter row (field ++ (x ∷ [])) false true t
  unfolding next_row
  next_row_put row field any x t (a, b, c, d) = rw (a, b, c, d) refl

  next_row_plain :
      (row : List Text) (field v : Text) (any : Bool) (c : ℕ) (t : Text)
      → needs_quoting separator delimiter v ≡ false
      → next_row separator delimiter row field false any (v ++ c ∷ t)
        ≡ next_row separator delimiter row (field ++ v) false true (c ∷ t)
  next_row_plain row field [] any c t h = rw (append-nil field) (next_row_any row field any c t)
  next_row_plain row field (x ∷ v) any c t h =
      let (special, others) = needs_quoting-cons x v h in
      let later = next_row_plain row (field ++ (x ∷ [])) v true c t others in
      let joined : field ++ (x ∷ []) ++ v ≡ field ++ x ∷ v = append_assoc field (x ∷ []) v in
      next_row_put row field any x _ special ∙ later ∙ rw joined refl

  next_row_open :
      (row : List Text) (field : Text) (any : Bool) (t : Text)
      → next_row separator delimiter row field false any (delimiter ∷ t)
        ≡ next_row separator delimiter row field true true t
  unfolding next_row
  next_row_open row field any t = ground arith

  -- A formatted field in front of a character that is no delimiter is read as the field.
  pub next_row-format_field :
      (row : List Text) (v : Text) (any : Bool) (c : ℕ) (t : Text)
      → (c == delimiter) ≡ false
      → next_row separator delimiter row [] false any (format_field separator delimiter v ++ c ∷ t)
        ≡ next_row separator delimiter row v false true (c ∷ t)
  unfolding format_field
  next_row-format_field row v any c t h = elim (Bool-cases (needs_quoting separator delimiter v)) [
    | inl e ↦
        rw (e, append_assoc (double_delimiter separator delimiter v) (delimiter ∷ []) (c ∷ t))
          (next_row_open row [] any _ ∙ next_row_quoted row [] v true c t h)
    | inr e ↦ rw e (next_row_plain row [] v any c t e)
  ]
