-- ===== src/Query/Results/Complete.antt =====
-- What `fetch_all` gives: all rows that the result set announces, and a result with enough fuel.
use exarrow_rs.Prelude.Int.{ℤ}
use exarrow_rs.Prelude.{
  ℕ, zero, suc, ◌+◌, ◌≤◌, ◌<◌, false, List, [], ◌∷◌, ◌++◌, Option, none, some, ok, err, ◌≡◌, refl,
  ap, ◌≢◌, arith, inl, inr, Option-cases,
}
use exarrow_rs.Query.Results.{
  Server, out_of_fuel, known_total, row_count_of, accept_page, fetch_page_after, paginate_remaining,
  check_buffered_rows, Stream, stream, all_pages, fetch_all,
}
use exarrow_rs.Query.Results.Pages.{
  row_count_of-snoc, fetch_page_after_accept, fetch_page_after_within, fetch_page_after_end,
  Page-cases, page, paginate_remaining_end, paginate_remaining_more, paginate_remaining_fail,
}

module _ (srv : Server) where
  open srv use {State, Payload, Batch, fetch_results, is_empty, to_batch, num_rows}

  paginate_remaining_exact :
      (fuel : ℕ) (h : ℤ) (total_rows : Option ℤ) (collected : List Batch) (t : State)
      {bs : List Batch}
      → 0 < known_total total_rows
      → row_count_of srv collected ≤ known_total total_rows
      → (paginate_remaining srv fuel h total_rows collected t).0 ≡ ok bs
      → row_count_of srv bs ≡ known_total total_rows
  paginate_remaining_exact zero h total_rows collected t k l e = unfold paginate_remaining in cc
  paginate_remaining_exact (suc fuel) h total_rows collected t {bs} k l e =
      elim (Page-cases srv (page srv h total_rows collected t).0) [
        | inl q ↦
            let enough : known_total total_rows ≤ row_count_of srv collected =
              fetch_page_after_end srv h total_rows (row_count_of srv collected) t k q in
            let same : collected ≡ bs =
              cc (paginate_remaining_end srv fuel h total_rows collected t q) in
            rw (← same) (omega arith)
        | inr (inl (b, q)) ↦
            let fits : row_count_of srv (collected ++ (b ∷ [])) ≤ known_total total_rows = omega (
              arith,
              row_count_of-snoc srv collected b,
              fetch_page_after_within srv h total_rows (row_count_of srv collected) t b k q,
            ) in
            let more : (paginate_remaining srv fuel h total_rows (collected ++ (b ∷ []))
                  (page srv h total_rows collected t).1).0
                ≡ ok bs =
              cc (paginate_remaining_more srv fuel h total_rows collected t b q) in
            paginate_remaining_exact fuel h total_rows (collected ++ (b ∷ []))
              (page srv h total_rows collected t).1 k fits more
        | inr (inr (pe, q)) ↦ cc (paginate_remaining_fail srv fuel h total_rows collected t pe q)
      ]

  -- Every page srv that is not empty holds a row.
  abbrev pub HasRows : Type 0
  HasRows = (p : Payload) (b : Batch) → is_empty p ≡ false → to_batch p ≡ ok b → 0 < num_rows b

  accept_page_grows :
      HasRows
      → (total received : ℕ) (p : Payload) (b : Batch)
      → accept_page srv total received p ≡ ok (some b)
      → 0 < num_rows b
  unfolding accept_page
  accept_page_grows has total received p b e = ground (arith, has p b)

  fetch_page_after_grows :
      HasRows
      → (h : ℤ) (total_rows : Option ℤ) (received : ℕ) (t : State) (b : Batch)
      → (fetch_page_after srv h total_rows received t).0 ≡ ok (some b)
      → 0 < num_rows b
  fetch_page_after_grows has h total_rows received t b e =
      let (p, q) = fetch_page_after_accept srv h total_rows received t b e in
      accept_page_grows has (known_total total_rows) received p b q

  paginate_remaining_returns :
      HasRows
      → (fuel : ℕ) (h : ℤ) (total_rows : Option ℤ) (collected : List Batch) (t : State)
      → 0 < known_total total_rows
      → row_count_of srv collected ≤ known_total total_rows
      → known_total total_rows < fuel + row_count_of srv collected
      → (paginate_remaining srv fuel h total_rows collected t).0 ≢ err out_of_fuel
  paginate_remaining_returns has zero h total_rows collected t k l m e = omega arith
  paginate_remaining_returns has (suc fuel) h total_rows collected t k l m e =
      elim (Page-cases srv (page srv h total_rows collected t).0) [
        | inl q ↦ cc (paginate_remaining_end srv fuel h total_rows collected t q)
        | inr (inl (b, q)) ↦
            let snoc : row_count_of srv (collected ++ (b ∷ []))
                ≡ row_count_of srv collected + num_rows b =
              row_count_of-snoc srv collected b in
            let fits : row_count_of srv collected + num_rows b ≤ known_total total_rows =
              fetch_page_after_within srv h total_rows (row_count_of srv collected) t b k q in
            let grows : 0 < num_rows b =
              fetch_page_after_grows has h total_rows (row_count_of srv collected) t b q in
            paginate_remaining_returns has fuel h total_rows (collected ++ (b ∷ []))
              (page srv h total_rows collected t).1 k (omega arith) (omega arith)
              (cc (paginate_remaining_more srv fuel h total_rows collected t b q))
        | inr (inr (pe, q)) ↦ cc (paginate_remaining_fail srv fuel h total_rows collected t pe q)
      ]

  check_buffered_rows_exact :
      (total_rows : Option ℤ) (bs : List Batch)
      → 0 < known_total total_rows
      → check_buffered_rows srv total_rows bs ≡ ok tt
      → row_count_of srv bs ≡ known_total total_rows
  unfolding check_buffered_rows
  check_buffered_rows_exact total_rows bs k e = ground arith

  -- The rows that came with the result set are within a known total.
  abbrev pub IsWithin : Stream srv → Type 0
  IsWithin s =
      (0 < known_total s.total_rows) × (row_count_of srv s.batches ≤ known_total s.total_rows)

  all_pages_exact :
      (fuel : ℕ) (s : Stream srv) (t : State) {bs : List Batch}
      → IsWithin s
      → (all_pages srv fuel s t).0 ≡ ok bs
      → row_count_of srv bs ≡ known_total s.total_rows
  unfolding all_pages
  all_pages_exact fuel s t {bs} (k, l) e =
      let exact =
        λ (h : ℤ) (q : (paginate_remaining srv fuel h s.total_rows s.batches t).0 ≡ ok bs).
          paginate_remaining_exact fuel h s.total_rows s.batches t k l q in
      elim (Option-cases s.handle) [
        | inl q ↦ ground (arith, check_buffered_rows_exact s.total_rows s.batches k)
        | inr (h, q) ↦ ground (arith, check_buffered_rows_exact s.total_rows s.batches k, exact h)
      ]

  all_pages_returns :
      HasRows
      → (fuel : ℕ) (s : Stream srv) (t : State) → IsWithin s
      → known_total s.total_rows < fuel
      → (all_pages srv fuel s t).0 ≢ err out_of_fuel
  unfolding all_pages check_buffered_rows
  all_pages_returns has fuel s t (k, l) m e = elim (Option-cases s.handle) [
    | inl q ↦ ground arith
    | inr (h, q) ↦
        ground
          (arith, paginate_remaining_returns has fuel h s.total_rows s.batches t k l (omega arith))
  ]

  -- When the total is known, and not less than the rows that came with the result set, what
  -- `fetch_all` returns has exactly that many rows.
  pub fetch_all_exact :
      (fuel : ℕ) (s : Stream srv) (t : State) {bs : List Batch}
      → IsWithin s
      → (fetch_all srv fuel (stream s) t).0 ≡ ok bs
      → row_count_of srv bs ≡ known_total s.total_rows
  unfolding fetch_all
  fetch_all_exact fuel s t k e = all_pages_exact fuel s t k e

  -- When the total is known and not less than the rows that came with the result set, and a page srv
  -- that is not empty holds a row, `fetch_all` comes to an end: more fuel than the total is enough.
  pub fetch_all_returns :
      HasRows
      → (fuel : ℕ) (s : Stream srv) (t : State) → IsWithin s
      → known_total s.total_rows < fuel
      → (fetch_all srv fuel (stream s) t).0 ≢ err out_of_fuel
  unfolding fetch_all
  fetch_all_returns has fuel s t k m = all_pages_returns has fuel s t k m

  -- More rows than the total in the first batches, with a handle left open: `fetch_all` returns those
  -- batches, fetches nothing and reports no error.
  pub fetch_all_overshoot :
      (fuel : ℕ) (s : Stream srv) (h : ℤ) (t : State)
      → s.handle ≡ some h
      → s.complete ≡ false
      → 0 < known_total s.total_rows
      → known_total s.total_rows < row_count_of srv s.batches
      → fetch_all srv (suc fuel) (stream s) t ≡ (ok s.batches, srv.close_result_set t h)
  unfolding fetch_all all_pages fetch_page_after
  fetch_all_overshoot fuel s h t q c k l =
      let stops : page srv h s.total_rows s.batches t ≡ (ok none, t) = ground arith in
      let paged : paginate_remaining srv (suc fuel) h s.total_rows s.batches t ≡ (ok s.batches, t) =
        cc (
          paginate_remaining_end srv fuel h s.total_rows s.batches t (ap (λ r. r.0) stops),
          ap (λ r. r.1) stops,
        ) in
      let pages : all_pages srv (suc fuel) s t ≡ (ok s.batches, t) =
        rw (all_pages, q, c, paged) refl in
      simp (q, pages)
