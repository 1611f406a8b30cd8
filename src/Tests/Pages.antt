-- ===== src/Tests/Pages.antt =====
-- Result sets whose pages are listed.
use exarrow_rs.Prelude.Int.{pos}
use exarrow_rs.Prelude.{false, [], ◌∷◌, some, ok, err, ◌≡◌, ◌≢◌, refl, ap, arith}
use exarrow_rs.Query.Results.Complete.{
  HasRows, fetch_all_exact, fetch_all_returns, fetch_all_overshoot,
}
use exarrow_rs.Query.Results.Iterate.{drain, drain-into_iterator}
use exarrow_rs.Query.Results.{
  Stream, stream, ResultSetIterator, execution_failed, ended_early, delivered, out_of_fuel,
  known_total, row_count_of, accept_page, fetch_page_after, paginate_remaining, all_pages,
  fetch_all, into_iterator,
}
use exarrow_rs.Tests.Platforms.{listed_pages}

-- Two of five rows have come.
abbrev five_rows : Stream listed_pages
five_rows = record {
  handle = some (pos 7);
  total_rows = some (pos 5);
  batches = 2 ∷ [];
  complete = false;
}

fetch_all-five_rows :
    fetch_all listed_pages 6 (stream five_rows) (1 ∷ 2 ∷ 9 ∷ []) ≡ (ok (2 ∷ 1 ∷ 2 ∷ []), [])
unfolding fetch_all all_pages paginate_remaining fetch_page_after accept_page known_total
    row_count_of
fetch_all-five_rows = refl

fetch_all_too_many :
    fetch_all listed_pages 6 (stream five_rows) (1 ∷ 3 ∷ [])
    ≡ (err (execution_failed (delivered 6 5)), [])
unfolding fetch_all all_pages paginate_remaining fetch_page_after accept_page known_total
    row_count_of
fetch_all_too_many = refl

fetch_all_ended_early :
    fetch_all listed_pages 6 (stream five_rows) (1 ∷ 0 ∷ [])
    ≡ (err (execution_failed (ended_early 3 5)), [])
unfolding fetch_all all_pages paginate_remaining fetch_page_after accept_page known_total
    row_count_of
fetch_all_ended_early = refl

fetch_all_exact_example : row_count_of listed_pages (2 ∷ 1 ∷ 2 ∷ []) ≡ 5
unfolding known_total row_count_of
fetch_all_exact_example =
    fetch_all_exact listed_pages 6 five_rows (1 ∷ 2 ∷ 9 ∷ []) {bs = 2 ∷ 1 ∷ 2 ∷ []}
      (omega arith, omega arith) (ap (λ r. r.0) fetch_all-five_rows)

listed_pages-HasRows : HasRows listed_pages
listed_pages-HasRows p b e q = ground arith

fetch_all_returns_example :
    (fetch_all listed_pages 6 (stream five_rows) (1 ∷ 1 ∷ 1 ∷ [])).0 ≢ err out_of_fuel
unfolding known_total row_count_of
fetch_all_returns_example =
    fetch_all_returns listed_pages listed_pages-HasRows 6 five_rows (1 ∷ 1 ∷ 1 ∷ [])
      (omega arith, omega arith) (omega arith)

-- Seven rows came, of five.
abbrev seven_rows : Stream listed_pages
seven_rows = record five_rows { batches = 7 ∷ [] }

fetch_all_overshoot_example :
    fetch_all listed_pages 1 (stream seven_rows) (1 ∷ []) ≡ (ok (7 ∷ []), [])
unfolding known_total row_count_of
fetch_all_overshoot_example =
    fetch_all_overshoot listed_pages 0 seven_rows (pos 7) (1 ∷ []) refl refl (omega arith)
      (omega arith)

abbrev five_rows_iterator : ResultSetIterator listed_pages
five_rows_iterator = record {
  handle = some (pos 7);
  total_rows = some (pos 5);
  batches = 2 ∷ [];
  current_index = 0;
  complete = false;
}

drain-into_iterator_example :
    drain listed_pages 7 five_rows_iterator (1 ∷ 2 ∷ [])
    ≡ all_pages listed_pages 6 five_rows (1 ∷ 2 ∷ [])
unfolding into_iterator
drain-into_iterator_example =
    drain-into_iterator listed_pages 6 five_rows (pos 7) five_rows_iterator (1 ∷ 2 ∷ []) refl refl
      refl
