-- ===== src/Query/Results.antt =====
-- src/query/results.rs: the pages of a result set. The transport behind its lock is a state with
-- one operation, `fetch_results`; that operation, the batches, and the conversion of a payload to a
-- batch of the metadata's schema are the section's parameters. A row count is an i64, `total_rows`;
-- the rest counts in `usize`.
pub mod Pages
pub mod Complete
pub mod Iterate
use exarrow_rs.Prelude.Int.{ℤ, pos, negsuc}
use exarrow_rs.Prelude.Text.{Text}
use exarrow_rs.Prelude.{
  ℕ, zero, suc, ◌+◌, Bool, true, false, not, ◌&&◌, ◌||◌, List, [], ◌∷◌, ◌++◌, Option, none, some,
  Result, ok, err, ltb, leb, ◌==◌, if◌then◌else◌, length, get_elem?,
}

-- What `Arc<Mutex<dyn TransportProtocol>>` and the Arrow conversion give.
pub record Server : Type 1 where
  -- the transport's state, a fetched payload, a record batch
  pub State : Type 0
  pub Payload : Type 0
  pub Batch : Type 0
  pub fetch_results : State → ℤ → Result Text Payload × State
  pub close_result_set : State → ℤ → State
  pub is_empty : Payload → Bool
  pub to_batch : Payload → Result Text Batch
  pub num_rows : Batch → ℕ

pub data PageError : Type 0 where
  -- the message of the transport's or the conversion's error
  fetch : Text → PageError
  -- rows received, total
  ended_early : ℕ → ℕ → PageError
  delivered : ℕ → ℕ → PageError

-- `QueryError`: the page errors of `ExecutionFailed`, `NoResultSet`, `InvalidState`; and
-- `out_of_fuel`, which no run of the code gives.
pub data ResultError : Type 0 where
  execution_failed : PageError → ResultError
  no_result_set : ResultError
  out_of_fuel : ResultError

-- `metadata.total_rows.unwrap_or(0).max(0) as usize`.
unfoldable pub known_total : Option ℤ → ℕ
known_total none = 0
known_total (some (pos n)) = n
known_total (some (negsuc n)) = 0

abbrev is_none : Option ℤ → Bool
is_none none = true
is_none (some h) = false

-- `data.total_rows == num_rows_received`.
abbrev same_count : ℤ → ℕ → Bool
same_count (pos n) m = n == m
same_count (negsuc n) m = false

module _ (srv : Server) where
  open srv use {State, Payload, Batch, fetch_results, is_empty, to_batch, num_rows}

  unfoldable pub row_count_of : List Batch → ℕ
  row_count_of [] = 0
  row_count_of (b ∷ bs) = num_rows b + row_count_of bs

  -- The checks on a fetched page.
  unfoldable pub accept_page : ℕ → ℕ → Payload → Result PageError (Option Batch)
  accept_page total rows_received payload =
      if is_empty payload
      then (if total == 0 then ok none else err (ended_early rows_received total))
      else (elim (to_batch payload) [
        | err e ↦ err (fetch e)
        | ok batch ↦
            (if ltb 0 total && ltb total (rows_received + num_rows batch)
              then err (delivered (rows_received + num_rows batch) total)
              else ok (some batch))
      ])

  -- `fetch_page_after`: `ok none` is the end of the stream.
  unfoldable pub fetch_page_after :
      ℤ → Option ℤ → ℕ → State → Result PageError (Option Batch) × State
  unfolding accept_page known_total
  fetch_page_after handle total_rows rows_received t =
      let total = known_total total_rows in
      let fetched = fetch_results t handle in
      if ltb 0 total && leb total rows_received then (ok none, t) else (elim (fetched.0) [
        | err e ↦ (err (fetch e), fetched.1)
        | ok payload ↦ (accept_page total rows_received payload, fetched.1)
      ])

  -- The `while let` loop of `paginate_remaining`, with fuel.
  unfoldable pub paginate_remaining :
      ℕ → ℤ → Option ℤ → List Batch → State → Result ResultError (List Batch) × State
  paginate_remaining zero handle total_rows collected t = (err out_of_fuel, t)
  paginate_remaining (suc fuel) handle total_rows collected t =
      let page = fetch_page_after handle total_rows (row_count_of collected) t in
      elim (page.0) [
        | err e ↦ (err (execution_failed e), page.1)
        | ok none ↦ (ok collected, page.1)
        | ok (some batch) ↦
            paginate_remaining fuel handle total_rows (collected ++ (batch ∷ [])) page.1
      ]

  unfoldable pub check_buffered_rows : Option ℤ → List Batch → Result ResultError (Unit {0})
  unfolding known_total row_count_of
  check_buffered_rows total_rows batches =
      let total = known_total total_rows in
      let rows = row_count_of batches in
      if ltb 0 total && not (rows == total)
      then err (execution_failed (delivered rows total))
      else ok tt

  -- `ResultSetInner::Stream`; the transport's state is passed beside it.
  pub record Stream : Type 0 where
    pub handle : Option ℤ
    pub total_rows : Option ℤ
    pub batches : List Batch
    pub complete : Bool

  pub data Inner : Type 0 where
    stream : Stream → Inner
    row_count : ℤ → Inner

  -- `from_transport_result` on a result set: `received` rows came with it, `first` is its batch.
  unfoldable pub from_result_set : Option ℤ → ℤ → ℕ → Batch → Stream
  from_result_set handle total received first = record {
    handle = handle;
    total_rows = some total;
    batches = first ∷ [];
    complete = is_none handle || same_count total received;
  }

  -- The pages of `fetch_all`, before the handle is closed.
  unfoldable pub all_pages : ℕ → Stream → State → Result ResultError (List Batch) × State
  unfolding paginate_remaining check_buffered_rows
  all_pages fuel s t = elim (s.handle) [
    | none ↦ (
      elim (check_buffered_rows s.total_rows s.batches) [ ok u ↦ ok s.batches | err e ↦ err e ],
      t,
    )
    | some h ↦
        let paged = paginate_remaining fuel h s.total_rows s.batches t in
        if s.complete
        then (
          elim (check_buffered_rows s.total_rows s.batches) [ ok u ↦ ok s.batches | err e ↦ err e ],
          t,
        )
        else paged
  ]

  -- `fetch_all`: a handle is closed whatever the pages gave, and errors of the close are dropped.
  unfoldable pub fetch_all : ℕ → Inner → State → Result ResultError (List Batch) × State
  unfolding all_pages
  fetch_all fuel (row_count n) t = (err no_result_set, t)
  fetch_all fuel (stream s) t =
      let pages = all_pages fuel s t in
      (pages.0, elim (s.handle) [ none ↦ pages.1 | some h ↦ srv.close_result_set pages.1 h ])

  pub record ResultSetIterator : Type 0 where
    pub handle : Option ℤ
    pub total_rows : Option ℤ
    pub batches : List Batch
    pub current_index : ℕ
    pub complete : Bool

  unfoldable pub into_iterator : Inner → Result ResultError ResultSetIterator
  into_iterator (row_count n) = err no_result_set
  into_iterator (stream s) = ok (record {
    handle = s.handle;
    total_rows = s.total_rows;
    batches = s.batches;
    current_index = 0;
    complete = s.complete;
  })

  abbrev finish : ResultSetIterator → ResultSetIterator
  finish it = record it { complete = true }

  -- A row count mismatch ends the iterator; any other error leaves it as it was.
  unfoldable pub after_page :
      ResultSetIterator → Result PageError (Option Batch) → ResultSetIterator
  after_page it (ok none) = finish it
  after_page it (ok (some batch)) = it
  after_page it (err (fetch e)) = it
  after_page it (err (ended_early a b)) = finish it
  after_page it (err (delivered a b)) = finish it

  unfoldable pub fetch_next_batch :
      ResultSetIterator → State → Result PageError (Option Batch) × ResultSetIterator × State
  unfolding fetch_page_after after_page row_count_of
  fetch_next_batch it t = if it.complete then (ok none, it, t) else (elim (it.handle) [
    | none ↦ (ok none, finish it, t)
    | some h ↦
        let page = fetch_page_after h it.total_rows (row_count_of it.batches) t in
        (page.0, after_page it page.0, page.1)
  ])

  -- `next_batch` inside a runtime.
  unfoldable pub next_batch :
      ResultSetIterator → State → Option (Result PageError Batch) × ResultSetIterator × State
  unfolding fetch_next_batch
  next_batch it t = elim (get_elem? it.batches it.current_index) [
    | some batch ↦ (some (ok batch), record it { current_index = it.current_index + 1 }, t)
    | none ↦
        if it.complete
        then (none, it, t)
        else (let fetched = fetch_next_batch it t in
            elim (fetched.0) [
              | ok (some batch) ↦ (
                some (ok batch),
                record (fetched.1) {
                  batches = fetched.1.batches ++ (batch ∷ []);
                  current_index = fetched.1.current_index + 1;
                },
                fetched.2,
              )
              | ok none ↦ (none, fetched.1, fetched.2)
              | err e ↦ (some (err e), fetched.1, fetched.2)
            ])
  ]
