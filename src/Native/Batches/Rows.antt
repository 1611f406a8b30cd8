-- ===== src/Native/Batches/Rows.antt =====
-- The rows of a batch, encoded one after the other.
use exarrow_rs.Native.Batches.{
  JsonView, BatchError, ParameterColumn, write_row, write_rows, write_parameter_rows,
}
use exarrow_rs.Prelude.Bytes.{Bytes}
use exarrow_rs.Prelude.Int.{ℤ}
use exarrow_rs.Prelude.{
  >>=-eq-ok, List, Result, Result-cases, [], ap, append-nil, append_assoc, arith, err, inl, inr, ok,
  refl, suc, sym, zero, ℕ, ◌++◌, ◌+◌, ◌-◌, ◌>>=◌, ◌∙◌, ◌≡◌, ◌≢◌, ◌≤◌, ◌⊎◌,
}

module _ (json : JsonView) (write_param_value : ℕ → json.Value → ℤ → Result BatchError Bytes)
    (cols : List (List json.Value)) (columns : List ParameterColumn) where
  abbrev pub rows_from : ℕ → ℕ → Result BatchError Bytes
  rows_from n start = write_rows json write_param_value cols columns n start

  abbrev pub row_at : ℕ → Result BatchError Bytes
  row_at row_idx = write_row json write_param_value row_idx cols columns

  abbrev pub rows_between : ℕ → ℕ → Result BatchError Bytes
  rows_between start end = write_parameter_rows json write_param_value cols columns start end

  pub write_rows-split :
      (n s : ℕ) (out : Bytes)
      → rows_from (suc n) s ≡ ok out
      → (r : Bytes) × (rest : Bytes) × (row_at s ≡ ok r)
        × (rows_from n (suc s) ≡ ok rest)
        × (out ≡ r ++ rest)
  unfolding write_rows
  write_rows-split n s out h =
      let (r, e, later) =
        >>=-eq-ok (row_at s) (λ r. rows_from n (suc s) >>= λ rest. ok (r ++ rest)) h in
      let (rest, e', done) = >>=-eq-ok (rows_from n (suc s)) (λ rest. ok (r ++ rest)) later in
      (r, rest, e, e', cc)

  write_rows-step :
      (n s : ℕ) (r rest : Bytes)
      → row_at s ≡ ok r
      → rows_from n (suc s) ≡ ok rest
      → rows_from (suc n) s ≡ ok (r ++ rest)
  unfolding write_rows
  write_rows-step n s r rest e e' = rw (e, e') refl

  pub write_rows-none : (s : ℕ) (a : Bytes) → rows_from 0 s ≡ ok a → a ≡ []
  unfolding write_rows
  write_rows-none s a h = cc

  pub rows_between-none : rows_between 0 0 ≡ ok []
  unfolding write_rows
  rows_between-none = refl

  write_rows-one : (s : ℕ) (r : Bytes) → row_at s ≡ ok r → rows_from 1 s ≡ ok r
  unfolding write_rows
  write_rows-one s r e = rw e (ap ok (append-nil r))

  write_rows-snoc :
      (n s : ℕ) (a r : Bytes)
      → rows_from n s ≡ ok a
      → row_at (s + n) ≡ ok r
      → rows_from (suc n) s ≡ ok (a ++ r)
  write_rows-snoc zero s a r h k =
      let here : s ≡ s + 0 = omega arith in
      rw (write_rows-none s a h) (write_rows-one s r (ap (λ i. row_at i) here ∙ k))
  write_rows-snoc (suc n) s a r h k =
      let (first, rest, e, e', whole) = write_rows-split n s a h in
      let here : suc s + n ≡ s + suc n = omega arith in
      let more = write_rows-snoc n (suc s) rest r e' (ap (λ i. row_at i) here ∙ k) in
      write_rows-step (suc n) s first (rest ++ r) e more
      ∙ ap ok (sym (append_assoc first rest r) ∙ ap (λ t. t ++ r) (sym whole))

  pub rows_between-next :
      (first_row row : ℕ) (cur r : Bytes)
      → first_row ≤ row
      → rows_between first_row row ≡ ok cur
      → row_at row ≡ ok r
      → rows_between first_row (suc row) ≡ ok (cur ++ r)
  rows_between-next first_row row cur r h k e =
      let count : suc row - first_row ≡ suc (row - first_row) = omega arith in
      let here : first_row + (row - first_row) ≡ row = omega arith in
      ap (λ n. rows_from n first_row) count
      ∙ write_rows-snoc (row - first_row) first_row cur r k (ap (λ i. row_at i) here ∙ e)

  pub rows_between-one :
      (row end : ℕ) (r : Bytes) → end ≡ suc row → row_at row ≡ ok r → rows_between row end ≡ ok r
  rows_between-one row end r h e =
      let count : end - row ≡ 1 = omega arith in
      ap (λ n. rows_from n row) count ∙ write_rows-one row r e

  pub write_rows-err :
      (n s : ℕ) (x : BatchError)
      → rows_from (suc n) s ≡ err x
      → (row_at s ≡ err x) ⊎ ((r : Bytes) × (row_at s ≡ ok r) × (rows_from n (suc s) ≡ err x))
  unfolding write_rows
  write_rows-err n s x h = elim (Result-cases (row_at s)) [
    | inr (e, k) ↦ inl (k ∙ ap err cc)
    | inl (r, k) ↦ elim (Result-cases (rows_from n (suc s))) [
      | inr (e, later) ↦ inr (r, k, later ∙ ap err cc)
      | inl (rest, later) ↦ absurd cc
    ]
  ]

  pub write_rows-returns : (s : ℕ) (x : BatchError) → rows_from 0 s ≢ err x
  unfolding write_rows
  write_rows-returns s x h = cc

  pub rows_between-err :
      (row end : ℕ) (x : BatchError)
      → end ≡ suc row
      → row_at row ≡ err x
      → write_parameter_rows json write_param_value cols columns row end ≡ err x
  unfolding write_rows
  rows_between-err row end x h e =
      let count : end - row ≡ 1 = omega arith in ap (λ n. rows_from n row) count ∙ rw e refl
