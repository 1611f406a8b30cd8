-- ===== src/Query/Scan/Chars.antt =====
-- The scanner on characters: the raw byte behind a character tells as much as the next character.
use mathlib.Core.List.{head?}
use exarrow_rs.Prelude.Bytes.{Bytes}
use exarrow_rs.Prelude.Text.{
  Text, utf8, len_utf8, as_bytes, byte_len, length-as_bytes, byte_len-append,
}
use native.Mathlib.Nat.{zero-add, suc-add}
use exarrow_rs.Prelude.{
  ℕ, ◌+◌, ◌<◌, ◌≤◌, List, [], ◌∷◌, ◌++◌, append_assoc, Option, none, some, ◌≡◌, refl, sym, ◌∙◌, inl,
  inr, arith, length, get_elem?, ltb, if◌then◌else◌, Bool-cases,
}
use exarrow_rs.Query.Scan.{
  ScanState, normal, single_quoted, double_quoted, line_comment, block_comment, next_is, emit,
  step_outside_literal, step_inside_quotes, step_inside_block_comment, scan_step, char_indices,
  scan_loop, scan_placeholders,
}

-- The scanner with the next character in place of the next byte.
unfoldable pub scan_text : ScanState → ℕ → Text → List ℕ
scan_text state i [] = []
scan_text state i (c ∷ []) = emit (scan_step state c none) i []
scan_text state i (c ∷ d ∷ s) =
    let step = scan_step state c (some d) in
    let past_pair = scan_text step.state (i + len_utf8 c + len_utf8 d) s in
    let past_one = scan_text step.state (i + len_utf8 c) (d ∷ s) in
    emit step i (if step.consumed_pair then past_pair else past_one)

get_elem?-append : (xs ys : Bytes) (i : ℕ) → get_elem? (xs ++ ys) (length xs + i) ≡ get_elem? ys i
get_elem?-append [] ys i = rw zero-add
get_elem?-append (x ∷ xs) ys i = rw suc-add (get_elem?-append xs ys i)

-- Two items that may follow a character and mean the same to the scanner.
abbrev SameNext : Option ℕ → Option ℕ → Type 0
SameNext x y = (b : ℕ) → b < 0x80 → next_is x b ≡ next_is y b

head?-SameNext : (s : Text) → SameNext (get_elem? (as_bytes s) 0) (head? s)
unfolding as_bytes utf8
head?-SameNext [] b h = refl
head?-SameNext (d ∷ s) b h = ground arith

scan_step-SameNext :
    (state : ScanState) (c : ℕ) (x y : Option ℕ)
    → SameNext x y
    → scan_step state c x ≡ scan_step state c y
unfolding scan_step
scan_step-SameNext normal c x y h =
    rw (step_outside_literal, h b'-' (omega arith), h b'*' (omega arith))
scan_step-SameNext single_quoted c x y h = rw (step_inside_quotes, h b'\'' (omega arith))
scan_step-SameNext double_quoted c x y h = rw (step_inside_quotes, h b'"' (omega arith))
scan_step-SameNext line_comment c x y h = refl
scan_step-SameNext block_comment c x y h = rw (step_inside_block_comment, h b'/' (omega arith))

-- Behind a character that is not ASCII the scanner looks at nothing.
scan_step_wide :
    (state : ScanState) (c : ℕ) (x y : Option ℕ)
    → 0x80 ≤ c
    → scan_step state c x ≡ scan_step state c y
unfolding scan_step
scan_step_wide normal c x y h = ground arith
scan_step_wide _ c x y h = ground arith

as_bytes-append : (s t : Text) → as_bytes (s ++ t) ≡ as_bytes s ++ as_bytes t
unfolding as_bytes
as_bytes-append [] t = refl
as_bytes-append (c ∷ s) t = rw (as_bytes-append s t, append_assoc)

get_elem?-next_byte :
    (c : ℕ) (pre s : Text)
    → c < 0x80
    → get_elem? (as_bytes (pre ++ c ∷ s)) (byte_len pre + 1) ≡ get_elem? (as_bytes s) 0
get_elem?-next_byte c pre s h =
    let ascii : as_bytes (c ∷ s) ≡ c ∷ as_bytes s = unfold as_bytes utf8 in ground arith in
    rw (as_bytes-append, ← length-as_bytes pre, get_elem?-append, ascii)

scan_step-next :
    (state : ScanState) (c : ℕ) (pre s : Text)
    → scan_step state c (get_elem? (as_bytes (pre ++ c ∷ s)) (byte_len pre + 1))
      ≡ scan_step state c (head? s)
scan_step-next state c pre s = elim (Bool-cases (ltb c 0x80)) [
  | inl small ↦
      rw (get_elem?-next_byte c pre s (ground arith))
        (scan_step-SameNext state c _ _ (head?-SameNext s))
  | inr wide ↦ scan_step_wide state c _ _ (ground arith)
]

scan_loop-scan_text :
    (t pre s : Text) (i : ℕ) (state : ScanState)
    → t ≡ pre ++ s
    → i ≡ byte_len pre
    → scan_loop (as_bytes t) state (char_indices i s) ≡ scan_text state i s
unfolding scan_loop scan_text char_indices
scan_loop-scan_text t pre [] i state e k = refl
scan_loop-scan_text t pre (c ∷ []) i state e k = rw (e, k, scan_step-next)
scan_loop-scan_text t pre (c ∷ d ∷ s) i state e k =
    let same : scan_step state c (get_elem? (as_bytes t) (i + 1)) ≡ scan_step state c (some d) =
      rw (e, k) (scan_step-next state c pre (d ∷ s)) in
    let one =
      scan_loop-scan_text t (pre ++ c ∷ []) (d ∷ s) (i + len_utf8 c)
        (scan_step state c (some d)).state (e ∙ sym (append_assoc pre (c ∷ []) (d ∷ s)))
        (unfold byte_len in omega (arith, byte_len-append pre (c ∷ []))) in
    let two =
      scan_loop-scan_text t (pre ++ c ∷ d ∷ []) s (i + len_utf8 c + len_utf8 d)
        (scan_step state c (some d)).state (e ∙ sym (append_assoc pre (c ∷ d ∷ []) s))
        (unfold byte_len in omega (arith, byte_len-append pre (c ∷ d ∷ []))) in
    rw (same, one, two)

-- The byte scanner and the character scanner find the same offsets.
pub scan_placeholders-scan_text : (s : Text) → scan_placeholders s ≡ scan_text normal 0 s
unfolding scan_placeholders
scan_placeholders-scan_text s = scan_loop-scan_text s [] s 0 normal refl (unfold byte_len in refl)
