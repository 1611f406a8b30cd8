-- ===== src/Query/Results/Pages.antt =====
-- One page: what `fetch_page_after` accepts, and the round of `paginate_remaining` that it makes.
use exarrow_rs.Prelude.Int.{ℤ}
use exarrow_rs.Prelude.Text.{Text}
use exarrow_rs.Prelude.{
  ℕ, suc, ◌+◌, ◌≤◌, ◌<◌, List, [], ◌∷◌, ◌++◌, Option, none, some, Result, ok, err, ◌≡◌, refl, arith,
  inl, inr, ◌⊎◌,
}
use exarrow_rs.Query.Results.{
  Server, PageError, execution_failed, known_total, row_count_of, accept_page, fetch_page_after,
  paginate_remaining,
}

module _ (srv : Server) where
  open srv use {State, Payload, Batch, fetch_results, is_empty, to_batch, num_rows}

  pub row_count_of-append :
      (xs ys : List Batch) → row_count_of srv (xs ++ ys) ≡ row_count_of srv xs + row_count_of srv ys
  unfolding row_count_of
  row_count_of-append [] ys = omega arith
  row_count_of-append (x ∷ xs) ys = omega (arith, row_count_of-append xs ys)

  pub row_count_of-snoc :
      (xs : List Batch) (b : Batch)
      → row_count_of srv (xs ++ (b ∷ [])) ≡ row_count_of srv xs + num_rows b
  unfolding row_count_of
  row_count_of-snoc xs b = omega (arith, row_count_of-append xs (b ∷ []))

  Result-cases :
      (r : Result Text Payload) → ((p : Payload) × (r ≡ ok p)) ⊎ ((x : Text) × (r ≡ err x))
  Result-cases (ok p) = inl (p, refl)
  Result-cases (err x) = inr (x, refl)

  pub Page-cases :
      (r : Result PageError (Option Batch))
      → (r ≡ ok none) ⊎ ((b : Batch) × (r ≡ ok (some b))) ⊎ ((e : PageError) × (r ≡ err e))
  Page-cases (ok none) = inl refl
  Page-cases (ok (some b)) = inr (inl (b, refl))
  Page-cases (err e) = inr (inr (e, refl))

  -- A page that is accepted keeps the rows within a known total.
  pub accept_page_within :
      (total received : ℕ) (p : Payload) (b : Batch)
      → 0 < total
      → accept_page srv total received p ≡ ok (some b)
      → received + num_rows b ≤ total
  unfolding accept_page
  accept_page_within total received p b h e = ground arith

  pub accept_page_end :
      (total received : ℕ) (p : Payload) → accept_page srv total received p ≡ ok none → total ≡ 0
  unfolding accept_page
  accept_page_end total received p e = ground arith

  -- A batch comes from a payload that was fetched and accepted.
  pub fetch_page_after_accept :
      (h : ℤ) (total_rows : Option ℤ) (received : ℕ) (t : State) (b : Batch)
      → (fetch_page_after srv h total_rows received t).0 ≡ ok (some b)
      → (p : Payload) × (accept_page srv (known_total total_rows) received p ≡ ok (some b))
  unfolding fetch_page_after
  fetch_page_after_accept h total_rows received t b e = elim (Result-cases (fetch_results t h).0) [
    | inl (p, q) ↦ (p, ground (arith, q))
    | inr (x, q) ↦ ground (arith, q)
  ]

  pub fetch_page_after_within :
      (h : ℤ) (total_rows : Option ℤ) (received : ℕ) (t : State) (b : Batch)
      → 0 < known_total total_rows
      → (fetch_page_after srv h total_rows received t).0 ≡ ok (some b)
      → received + num_rows b ≤ known_total total_rows
  fetch_page_after_within h total_rows received t b k e =
      let (p, q) = fetch_page_after_accept h total_rows received t b e in
      accept_page_within (known_total total_rows) received p b k q

  pub fetch_page_after_end :
      (h : ℤ) (total_rows : Option ℤ) (received : ℕ) (t : State)
      → 0 < known_total total_rows
      → (fetch_page_after srv h total_rows received t).0 ≡ ok none
      → known_total total_rows ≤ received
  unfolding fetch_page_after
  fetch_page_after_end h total_rows received t k e =
      ground (arith, accept_page_end (known_total total_rows) received)

  abbrev pub page : ℤ → Option ℤ → List Batch → State → Result PageError (Option Batch) × State
  page h total_rows collected t = fetch_page_after srv h total_rows (row_count_of srv collected) t

  module _ (fuel : ℕ) (h : ℤ) (total_rows : Option ℤ) (collected : List Batch) (t : State) where
    pub paginate_remaining_end :
        (page h total_rows collected t).0 ≡ ok none
        → paginate_remaining srv (suc fuel) h total_rows collected t
          ≡ (ok collected, (page h total_rows collected t).1)
    unfolding paginate_remaining
    paginate_remaining_end q = rw (q, paginate_remaining) refl

    pub paginate_remaining_more :
        (b : Batch)
        → (page h total_rows collected t).0 ≡ ok (some b)
        → paginate_remaining srv (suc fuel) h total_rows collected t
          ≡ paginate_remaining srv fuel h total_rows
              (collected ++ (b ∷ []))
              (page h total_rows collected t).1
    unfolding paginate_remaining
    paginate_remaining_more b q = rw (q, paginate_remaining) refl

    pub paginate_remaining_fail :
        (e : PageError)
        → (page h total_rows collected t).0 ≡ err e
        → paginate_remaining srv (suc fuel) h total_rows collected t
          ≡ (err (execution_failed e), (page h total_rows collected t).1)
    unfolding paginate_remaining
    paginate_remaining_fail e q = rw (q, paginate_remaining) refl
