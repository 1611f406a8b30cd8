-- ===== src/Types/Infer/Names.antt =====
-- Column names in DDL: sanitized names are identifiers, quoted names are read back.
use exarrow_rs.Prelude.Text.{Text}
use exarrow_rs.Prelude.{
  ℕ, ◌||◌, ◌∷◌, [], ◌++◌, map, All, Bool, true, false, Option, none, some, ◌≡◌, refl, arith, ◌==◌,
  within, if◌then◌else◌, and_then, append_assoc, inl, inr, Bool-cases,
}
use exarrow_rs.Types.Infer.{
  is_digit, sanitize_char, prefix_digit, sanitize_column_name, double_dquotes, quote_column_name,
}

-- A character of an unquoted identifier in upper case.
abbrev pub is_upper_word : ℕ → Bool
is_upper_word c = is_digit c || within b'A' b'Z' c || c == b'_'

abbrev pub IsUpperWord : ℕ → Type 0
IsUpperWord c = is_upper_word c ≡ true

-- An identifier that needs no quotes: not empty, upper case, and no digit in front.
unfoldable pub IsIdentifier : Text → Type 0
IsIdentifier [] = ⊥
IsIdentifier (c ∷ s) = (is_digit c ≡ false) × All IsUpperWord (c ∷ s)

sanitize_char-IsUpperWord : (c : ℕ) → IsUpperWord (sanitize_char c)
sanitize_char-IsUpperWord c = ground arith

map-sanitize_char : (s : Text) → All IsUpperWord (map sanitize_char s)
map-sanitize_char [] = tt
map-sanitize_char (c ∷ s) = (sanitize_char-IsUpperWord c, map-sanitize_char s)

prefix_digit-IsIdentifier : (s : Text) → All IsUpperWord s → IsIdentifier (prefix_digit s)
unfolding prefix_digit IsIdentifier
prefix_digit-IsIdentifier [] h = (refl, (refl, tt))
prefix_digit-IsIdentifier (c ∷ s) (h, hs) = ground arith

pub sanitize_column_name-IsIdentifier : (name : Text) → IsIdentifier (sanitize_column_name name)
unfolding sanitize_column_name
sanitize_column_name-IsIdentifier name =
    prefix_digit-IsIdentifier (map sanitize_char name) (map-sanitize_char name)

sanitize_char-id : (c : ℕ) → IsUpperWord c → sanitize_char c ≡ c
sanitize_char-id c h = ground arith

map-sanitize_char-id : (s : Text) → All IsUpperWord s → map sanitize_char s ≡ s
map-sanitize_char-id [] h = refl
map-sanitize_char-id (c ∷ s) (h, hs) = rw (sanitize_char-id c h, map-sanitize_char-id s hs)

sanitize_column_name-id : (s : Text) → IsIdentifier s → sanitize_column_name s ≡ s
unfolding sanitize_column_name prefix_digit IsIdentifier
sanitize_column_name-id [] h = elim h [ ]
sanitize_column_name-id (c ∷ s) (h, (k, ks)) =
    rw (sanitize_char-id c k, map-sanitize_char-id s ks, h) refl

-- Sanitizing a sanitized name changes nothing.
pub sanitize_column_name_idempotent :
    (name : Text) → sanitize_column_name (sanitize_column_name name) ≡ sanitize_column_name name
sanitize_column_name_idempotent name =
    sanitize_column_name-id (sanitize_column_name name) (sanitize_column_name-IsIdentifier name)

abbrev opens_dquote : Text → Bool
opens_dquote [] = false
opens_dquote (c ∷ s) = c == b'"'

-- A quoted identifier as SQL reads it, behind its opening quote: a doubled quote stands for one, and
-- a single quote ends the name. The result is the name and the text behind it.
unfoldable pub read_name : Text → Option (Text × Text)
read_name [] = none
read_name (c ∷ []) = if c == b'"' then some ([], []) else none
read_name (c ∷ d ∷ s) =
    let longer = and_then (read_name s) (λ r. some (b'"' ∷ r.0, r.1)) in
    let next = and_then (read_name (d ∷ s)) (λ r. some (c ∷ r.0, r.1)) in
    if c == b'"' then (if d == b'"' then longer else some ([], d ∷ s)) else next

unfoldable pub read_quoted : Text → Option (Text × Text)
unfolding read_name
read_quoted [] = none
read_quoted (c ∷ s) = if c == b'"' then read_name s else none

read_name_end :
    (rest : Text) → opens_dquote rest ≡ false → read_name (b'"' ∷ rest) ≡ some ([], rest)
unfolding read_name
read_name_end [] h = refl
read_name_end (d ∷ s) h = rw h refl

read_name_other :
    (c : ℕ) (s name rest : Text)
    → (c == b'"') ≡ false
    → read_name s ≡ some (name, rest)
    → read_name (c ∷ s) ≡ some (c ∷ name, rest)
unfolding read_name
read_name_other c [] name rest h e = cc
read_name_other c (d ∷ s) name rest h e = rw (h, e) refl

read_name-double_dquotes :
    (name rest : Text)
    → opens_dquote rest ≡ false
    → read_name (double_dquotes name ++ b'"' ∷ rest) ≡ some (name, rest)
unfolding double_dquotes read_name
read_name-double_dquotes [] rest h = read_name_end rest h
read_name-double_dquotes (c ∷ name) rest h = elim (Bool-cases (c == b'"')) [
  | inl e ↦
      let same : c ≡ b'"' = ground arith in rw (same, read_name-double_dquotes name rest h) refl
  | inr e ↦ rw e (
      read_name_other c (double_dquotes name ++ b'"' ∷ rest) name rest e
        (read_name-double_dquotes name rest h))
]

-- A quoted name is read back as the name, with the text behind it untouched: no character of a column
-- name can end the identifier early.
pub read_quoted-quote_column_name :
    (name rest : Text)
    → opens_dquote rest ≡ false
    → read_quoted (quote_column_name name ++ rest) ≡ some (name, rest)
unfolding read_quoted quote_column_name
read_quoted-quote_column_name name rest h =
    rw (append_assoc (double_dquotes name) (b'"' ∷ []) rest) (read_name-double_dquotes name rest h)
