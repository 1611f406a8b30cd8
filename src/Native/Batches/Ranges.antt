-- ===== src/Native/Batches/Ranges.antt =====
-- The ranges of a batch cover its rows, and each fits the limit.
use mathlib.Core.Path.{subst}
use exarrow_rs.Native.Batches.{JsonView, BatchError, ParameterColumn, RowRange}
use exarrow_rs.Native.Batches.Split.{split_loop}
use exarrow_rs.Native.Batches.Rows.{
  rows_from, row_at, rows_between, write_rows-none, write_rows-split, rows_between-one,
  rows_between-next,
}
use exarrow_rs.Prelude.Bytes.{Bytes}
use exarrow_rs.Prelude.Int.{ℤ}
use exarrow_rs.Prelude.{
  ℕ, zero, suc, ◌+◌, ◌-◌, ◌<◌, ◌≤◌, Bool, true, false, ◌&&◌, List, [], ◌∷◌, ◌++◌, append_assoc,
  append-nil, Result, ok, length, length-append, take, drop, take-length, drop-length, ltb, ◌≡◌,
  refl, sym, ap, ◌∙◌, arith, ◌⊎◌, inl, inr, Bool-cases,
}

middle : (p c e : Bytes) → take (length (p ++ c) - length p) (drop (length p) ((p ++ c) ++ e)) ≡ c
middle p c e =
    let size : length (p ++ c) - length p ≡ length c = omega (arith, length-append p c) in
    rw (size, append_assoc p c e, drop-length p (c ++ e)) (take-length c e)

module _ (json : JsonView) (write_param_value : ℕ → json.Value → ℤ → Result BatchError Bytes)
    (cols : List (List json.Value)) (columns : List ParameterColumn) where
  module _ (overhead limit : ℕ) where
    -- The ranges cover the rows from `r` to before `n`, whose bytes stand in `out` from `b` on: each
    -- has the encoding of its rows, and fits the limit unless it is a single row.
    abbrev pub Covers : Bytes → ℕ → List RowRange → ℕ → ℕ → Type 0
    Covers out n [] r b = (r ≡ n) × (b ≡ length out)
    Covers out n (g ∷ gs) r b =
        (g.rows_start ≡ r)
        × (g.bytes_start ≡ b)
        × (r < g.rows_end)
        × (rows_between json write_param_value cols columns r g.rows_end
            ≡ ok (take (g.bytes_end - b) (drop b out)))
        × ((g.rows_end ≡ suc r) ⊎ (overhead + (g.bytes_end - b) ≤ limit))
        × Covers out n gs g.rows_end g.bytes_end

    abbrev run : ℕ → ℕ → ℕ → ℕ → Bytes → Result BatchError (Bytes × List RowRange)
    run left row first_row first_byte bytes =
        split_loop json write_param_value cols columns overhead limit left row first_row first_byte
          bytes

    -- Whether the row that ends `bytes` starts a new range.
    abbrev over : ℕ → ℕ → ℕ → Bytes → Bool
    over row first_row first_byte bytes =
        ltb first_row row && ltb limit (overhead + (length bytes - first_byte))

    abbrev range_to : ℕ → ℕ → ℕ → Bytes → RowRange
    range_to row first_row first_byte bytes = record {
      rows_start = first_row;
      rows_end = row;
      bytes_start = first_byte;
      bytes_end = length bytes;
    }

    split_loop-joins :
        (left row first_row first_byte : ℕ) (bytes r : Bytes)
        → row_at json write_param_value cols columns row ≡ ok r
        → over row first_row first_byte (bytes ++ r) ≡ false
        → run (suc left) row first_row first_byte bytes
          ≡ run left (suc row) first_row first_byte (bytes ++ r)
    unfolding split_loop
    split_loop-joins left row first_row first_byte bytes r e test =
        let written =
          rows_between-one json write_param_value cols columns row (row + 1) r (omega arith) e in
        ground arith

    split_loop-cuts :
        (left row first_row first_byte : ℕ) (bytes r out : Bytes) (ranges : List RowRange)
        → row_at json write_param_value cols columns row ≡ ok r
        → over row first_row first_byte (bytes ++ r) ≡ true
        → run left (suc row) row (length bytes) (bytes ++ r) ≡ ok (out, ranges)
        → run (suc left) row first_row first_byte bytes
          ≡ ok (out, range_to row first_row first_byte bytes ∷ ranges)
    unfolding split_loop
    split_loop-cuts left row first_row first_byte bytes r out ranges e test rec =
        let written =
          rows_between-one json write_param_value cols columns row (row + 1) r (omega arith) e in
        ground arith

    -- The range of the rows that `cur` encodes, put in front of others.
    Covers-range_to :
        (row first_row n : ℕ) (pre cur ext : Bytes) (ranges : List RowRange)
        → first_row < row
        → rows_between json write_param_value cols columns first_row row ≡ ok cur
        → (row ≤ suc first_row) ⊎ (overhead + length cur ≤ limit)
        → Covers ((pre ++ cur) ++ ext) n ranges row (length (pre ++ cur))
        → Covers
            ((pre ++ cur) ++ ext)
            n
            (range_to row first_row (length pre) (pre ++ cur) ∷ ranges)
            first_row
            (length pre)
    Covers-range_to row first_row n pre cur ext ranges h e fits rest =
        let size : length (pre ++ cur) - length pre ≡ length cur =
          omega (arith, length-append pre cur) in
        let small : (row ≡ suc first_row)
            ⊎ (overhead + (length (pre ++ cur) - length pre) ≤ limit) =
          elim fits [ inl single ↦ inl (omega arith) | inr k ↦ inr (omega arith) ] in
        (refl, refl, h, e ∙ ap ok (sym (middle pre cur ext)), small, rest)

    split_loop-ends :
        (row first_row first_byte : ℕ) (bytes : Bytes)
        → run 0 row first_row first_byte bytes
          ≡ ok (bytes, range_to row first_row first_byte bytes ∷ [])
    unfolding split_loop
    split_loop-ends row first_row first_byte bytes = refl

    over-later :
        (row first_row first_byte : ℕ) (bytes : Bytes)
        → over row first_row first_byte bytes ≡ true
        → first_row < row
    over-later row first_row first_byte bytes h = ground arith

    over-fits :
        (row first_row first_byte : ℕ) (bytes : Bytes)
        → over row first_row first_byte bytes ≡ false
        → (suc row ≤ suc first_row) ⊎ (overhead + (length bytes - first_byte) ≤ limit)
    over-fits row first_row first_byte bytes h = elim (Bool-cases (ltb first_row row)) [
      | inl later ↦ inr (ground arith)
      | inr same ↦ inl (ground arith)
    ]

    pub Covers-same :
        (out out' : Bytes) (n n' : ℕ) (ranges : List RowRange) (r b : ℕ)
        → out ≡ out'
        → n ≡ n'
        → Covers out n ranges r b
        → Covers out' n' ranges r b
    Covers-same out out' n n' ranges r b e k given =
        subst (λ x. Covers x n' ranges r b) e (subst (λ i. Covers out i ranges r b) k given)

    pub split_loop-Covers :
        (left row first_row : ℕ) (pre cur ext : Bytes)
        → first_row ≤ row
        → first_row < row + left
        → rows_between json write_param_value cols columns first_row row ≡ ok cur
        → (row ≤ suc first_row) ⊎ (overhead + length cur ≤ limit)
        → rows_from json write_param_value cols columns left row ≡ ok ext
        → (ranges : List RowRange) × (run left row first_row (length pre) (pre ++ cur)
            ≡ ok ((pre ++ cur) ++ ext, ranges))
          × Covers ((pre ++ cur) ++ ext) (row + left) ranges first_row (length pre)
    split_loop-Covers zero row first_row pre cur ext h1 h2 h3 h4 h5 =
        let whole : pre ++ cur ≡ (pre ++ cur) ++ ext = sym (
          ap (λ t. (pre ++ cur) ++ t)
            (write_rows-none json write_param_value cols columns row ext h5)
          ∙ append-nil (pre ++ cur)) in
        (
          range_to row first_row (length pre) (pre ++ cur) ∷ [],
          split_loop-ends row first_row (length pre) (pre ++ cur)
              ∙ ap (λ out. ok (out, range_to row first_row (length pre) (pre ++ cur) ∷ [])) whole,
          Covers-range_to row first_row (row + 0) pre cur ext [] (omega arith) h3 h4
              (omega arith, ap length whole),
        )
    split_loop-Covers (suc left) row first_row pre cur ext h1 h2 h3 h4 h5 =
        let (r, rest, e, later, whole) =
          write_rows-split json write_param_value cols columns left row ext h5 in
        let count : suc row + left ≡ row + suc left = omega arith in
        let joined : ((pre ++ cur) ++ r) ++ rest ≡ (pre ++ cur) ++ ext =
          append_assoc (pre ++ cur) r rest ∙ ap (λ t. (pre ++ cur) ++ t) (sym whole) in
        let bytes = (pre ++ cur) ++ r in
        elim (Bool-cases (over row first_row (length pre) bytes)) [
          | inl cut ↦
              let (ranges, runs, covers) =
                split_loop-Covers left (suc row) row (pre ++ cur) r rest (omega arith) (omega arith)
                  (rows_between-one json write_param_value cols columns row (suc row) r refl e)
                  (inl (omega arith)) later in
              (
                range_to row first_row (length pre) (pre ++ cur) ∷ ranges,
                split_loop-cuts left row first_row (length pre) (pre ++ cur) r (bytes ++ rest)
                      ranges e cut runs
                    ∙ ap
                        (λ out. ok (out, range_to row first_row (length pre) (pre ++ cur) ∷ ranges))
                        joined,
                Covers-range_to row first_row (row + suc left) pre cur ext ranges
                    (over-later row first_row (length pre) bytes cut) h3 h4
                    (Covers-same (bytes ++ rest) ((pre ++ cur) ++ ext) (suc row + left)
                      (row + suc left) ranges row (length (pre ++ cur)) joined count covers),
              )
          | inr join ↦
              let same : bytes ≡ pre ++ (cur ++ r) = append_assoc pre cur r in
              let size : length bytes - length pre ≡ length (cur ++ r) =
                ap (λ t. length t - length pre) same
                ∙ omega (arith, length-append pre (cur ++ r)) in
              let fits : (suc row ≤ suc first_row) ⊎ (overhead + length (cur ++ r) ≤ limit) =
                subst (λ n. (suc row ≤ suc first_row) ⊎ (overhead + n ≤ limit)) size
                  (over-fits row first_row (length pre) bytes join) in
              let (ranges, runs, covers) =
                split_loop-Covers left (suc row) first_row pre (cur ++ r) rest (omega arith)
                  (omega arith)
                  (rows_between-next json write_param_value cols columns first_row row cur r h1 h3
                    e)
                  fits later in
              let out : (pre ++ (cur ++ r)) ++ rest ≡ (pre ++ cur) ++ ext =
                ap (λ t. t ++ rest) (sym same) ∙ joined in
              (
                ranges,
                split_loop-joins left row first_row (length pre) (pre ++ cur) r e join
                    ∙ ap (λ t. run left (suc row) first_row (length pre) t) same
                    ∙ runs
                    ∙ ap (λ t. ok (t, ranges)) out,
                Covers-same ((pre ++ (cur ++ r)) ++ rest) ((pre ++ cur) ++ ext) (suc row + left)
                    (row + suc left) ranges first_row (length pre) out count covers,
              )
        ]
