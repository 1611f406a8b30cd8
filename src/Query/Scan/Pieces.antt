-- ===== src/Query/Scan/Pieces.antt =====
-- A SQL text as its characters, each marked: is it a placeholder? The scanner's offsets are those
-- of the marked characters.
use exarrow_rs.Prelude.Text.{Text, len_utf8}
use exarrow_rs.Prelude.{
  ℕ, ◌+◌, Bool, false, List, [], ◌∷◌, some, none, ◌≡◌, refl, inl, inr, if◌then◌else◌, Bool-cases,
  ◌∙◌,
}
use exarrow_rs.Query.Scan.Chars.{scan_text, scan_placeholders-scan_text}
use exarrow_rs.Query.Scan.{ScanState, normal, scan_step, scan_placeholders}

abbrev pub Pieces : Type 0
Pieces = List (ℕ × Bool)

unfoldable pub pieces : ScanState → Text → Pieces
pieces state [] = []
pieces state (c ∷ []) = (c, (scan_step state c none).is_placeholder) ∷ []
pieces state (c ∷ d ∷ s) =
    let step = scan_step state c (some d) in
    let past_pair = (d, false) ∷ pieces step.state s in
    let past_one = pieces step.state (d ∷ s) in
    (c, step.is_placeholder) ∷ (if step.consumed_pair then past_pair else past_one)

-- The byte offsets of the marked characters, from `i` on.
unfoldable pub offsets : ℕ → Pieces → List ℕ
offsets i [] = []
offsets i ((c, hole) ∷ ps) =
    let later = offsets (i + len_utf8 c) ps in if hole then i ∷ later else later

scan_text-offsets :
    (s : Text) (i : ℕ) (state : ScanState) → scan_text state i s ≡ offsets i (pieces state s)
unfolding scan_text offsets pieces
scan_text-offsets [] i state = refl
scan_text-offsets (c ∷ []) i state = refl
scan_text-offsets (c ∷ d ∷ s) i state =
    let step = scan_step state c (some d) in
    let one = scan_text-offsets (d ∷ s) (i + len_utf8 c) step.state in
    let two = scan_text-offsets s (i + len_utf8 c + len_utf8 d) step.state in
    elim (Bool-cases step.consumed_pair) [
      | inl pair ↦ rw (pair, two)
      | inr single ↦ rw (single, one)
    ]

pub scan_placeholders-offsets : (s : Text) → scan_placeholders s ≡ offsets 0 (pieces normal s)
scan_placeholders-offsets s = scan_placeholders-scan_text s ∙ scan_text-offsets s 0 normal
