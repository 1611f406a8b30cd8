-- ===== src/Query/Results/Iterate.antt =====
-- The iterator of a result set gives what `fetch_all` collects, one batch at a time.
use native.Mathlib.Nat.{zero-add, suc-add}
use exarrow_rs.Prelude.Int.{ℤ}
use exarrow_rs.Prelude.{
  ℕ, zero, suc, ◌+◌, true, false, List, [], ◌∷◌, ◌++◌, Option, none, some, Result, ok, err, length,
  get_elem?, ◌≡◌, refl, sym, ap, ◌∙◌, inl, inr, append_assoc, append-nil, length-append,
}
use exarrow_rs.Query.Results.{
  Server, PageError, ResultError, execution_failed, out_of_fuel, paginate_remaining, Stream,
  all_pages, ResultSetIterator, after_page, fetch_next_batch, next_batch, into_iterator, stream,
}
use exarrow_rs.Query.Results.Pages.{
  Page-cases, page, paginate_remaining_end, paginate_remaining_more, paginate_remaining_fail,
}

module _ (srv : Server) where
  open srv use {State, Batch}

  abbrev pub Outcome : Type 0
  Outcome = Result ResultError (List Batch) × State

  -- The batches `xs` in front of those of an outcome.
  unfoldable pub in_front : List Batch → Outcome → Outcome
  in_front xs (ok ys, t) = (ok (xs ++ ys), t)
  in_front xs (err e, t) = (err e, t)

  in_front_twice :
      (xs ys : List Batch) (o : Outcome) → in_front xs (in_front ys o) ≡ in_front (xs ++ ys) o
  unfolding in_front
  in_front_twice xs ys (ok zs, t) = rw (append_assoc xs ys zs) refl
  in_front_twice xs ys (err e, t) = refl

  in_front_none : (xs : List Batch) (t : State) → in_front xs (ok [], t) ≡ (ok xs, t)
  unfolding in_front
  in_front_none xs t = rw (append-nil xs) refl

  in_front_err :
      (xs : List Batch) (e : ResultError) (t : State) → in_front xs (err e, t) ≡ (err e, t)
  unfolding in_front
  in_front_err xs e t = refl

  -- Calls `next_batch` until it gives nothing or an error.
  unfoldable pub drain : ℕ → ResultSetIterator srv → State → Outcome
  drain zero it t = (err out_of_fuel, t)
  drain (suc fuel) it t =
      let got = next_batch srv it t in
      elim (got.0) [
        | none ↦ (ok [], got.2)
        | some (ok batch) ↦ in_front (batch ∷ []) (drain fuel got.1 got.2)
        | some (err e) ↦ (err (execution_failed e), got.2)
      ]

  abbrev step : ℕ → Option (Result PageError Batch) × ResultSetIterator srv × State → Outcome
  step fuel got = elim (got.0) [
    | none ↦ (ok [], got.2)
    | some (ok batch) ↦ in_front (batch ∷ []) (drain fuel got.1 got.2)
    | some (err e) ↦ (err (execution_failed e), got.2)
  ]

  drain-step :
      (fuel : ℕ) (it : ResultSetIterator srv) (t : State)
      → drain (suc fuel) it t ≡ step fuel (next_batch srv it t)
  unfolding drain
  drain-step fuel it t = refl

  abbrev at_end : ℤ → Option ℤ → List Batch → ResultSetIterator srv
  at_end h total_rows collected = record {
    handle = some h;
    total_rows = total_rows;
    batches = collected;
    current_index = length collected;
    complete = false;
  }

  get_elem?-length : (xs : List Batch) → get_elem? xs (length xs) ≡ none
  get_elem?-length [] = refl
  get_elem?-length (x ∷ xs) = get_elem?-length xs

  get_elem?-append :
      (xs : List Batch) (y : Batch) (ys : List Batch)
      → get_elem? (xs ++ y ∷ ys) (length xs) ≡ some y
  get_elem?-append [] y ys = refl
  get_elem?-append (x ∷ xs) y ys = get_elem?-append xs y ys

  module _ (fuel : ℕ) (h : ℤ) (total_rows : Option ℤ) (collected : List Batch) (t : State) where
    next_batch_end :
        (page srv h total_rows collected t).0 ≡ ok none
        → next_batch srv (at_end h total_rows collected) t ≡ (
          none,
          record (at_end h total_rows collected) { complete = true },
          (page srv h total_rows collected t).1,
        )
    unfolding next_batch fetch_next_batch
    next_batch_end q = rw (get_elem?-length collected, q) (rw q refl)

    drain_end :
        (page srv h total_rows collected t).0 ≡ ok none
        → drain (suc fuel) (at_end h total_rows collected) t
          ≡ (ok [], (page srv h total_rows collected t).1)
    drain_end q =
        drain-step fuel (at_end h total_rows collected) t ∙ ap (step fuel) (next_batch_end q)

    next_batch_more :
        (b : Batch)
        → (page srv h total_rows collected t).0 ≡ ok (some b)
        → next_batch srv (at_end h total_rows collected) t ≡ (
          some (ok b),
          at_end h total_rows (collected ++ (b ∷ [])),
          (page srv h total_rows collected t).1,
        )
    unfolding next_batch fetch_next_batch
    next_batch_more b q =
        rw (get_elem?-length collected, q) (rw (q, length-append {0} collected (b ∷ [])) refl)

    drain_more :
        (b : Batch)
        → (page srv h total_rows collected t).0 ≡ ok (some b)
        → drain (suc fuel) (at_end h total_rows collected) t
          ≡ in_front (b ∷ []) (
              drain fuel
                (at_end h total_rows (collected ++ (b ∷ [])))
                (page srv h total_rows collected t).1)
    drain_more b q =
        drain-step fuel (at_end h total_rows collected) t ∙ ap (step fuel) (next_batch_more b q)

    next_batch_fail :
        (e : PageError)
        → (page srv h total_rows collected t).0 ≡ err e
        → next_batch srv (at_end h total_rows collected) t ≡ (
          some (err e),
          after_page srv (at_end h total_rows collected) (err e),
          (page srv h total_rows collected t).1,
        )
    unfolding next_batch fetch_next_batch
    next_batch_fail e q = rw (get_elem?-length collected, q) (rw q refl)

    drain_fail :
        (e : PageError)
        → (page srv h total_rows collected t).0 ≡ err e
        → drain (suc fuel) (at_end h total_rows collected) t
          ≡ (err (execution_failed e), (page srv h total_rows collected t).1)
    drain_fail e q =
        drain-step fuel (at_end h total_rows collected) t ∙ ap (step fuel) (next_batch_fail e q)

  drain_fetched :
      (fuel : ℕ) (h : ℤ) (total_rows : Option ℤ) (collected : List Batch) (t : State)
      → in_front collected (drain fuel (at_end h total_rows collected) t)
        ≡ paginate_remaining srv fuel h total_rows collected t
  drain_fetched zero h total_rows collected t =
      unfold drain in unfold in_front in unfold paginate_remaining in refl
  drain_fetched (suc fuel) h total_rows collected t =
      elim (Page-cases srv (page srv h total_rows collected t).0) [
        | inl q ↦
            rw
              (
                drain_end fuel h total_rows collected t q,
                paginate_remaining_end srv fuel h total_rows collected t q,
              )
              (in_front_none collected (page srv h total_rows collected t).1)
        | inr (inl (b, q)) ↦
            rw
              (
                drain_more fuel h total_rows collected t b q,
                paginate_remaining_more srv fuel h total_rows collected t b q,
                in_front_twice collected (b ∷ []),
              )
              (drain_fetched fuel h total_rows (collected ++ (b ∷ []))
                (page srv h total_rows collected t).1)
        | inr (inr (e, q)) ↦
            rw
              (
                drain_fail fuel h total_rows collected t e q,
                paginate_remaining_fail srv fuel h total_rows collected t e q,
              )
              (in_front_err collected (execution_failed e) (page srv h total_rows collected t).1)
      ]

  abbrev at : ℤ → Option ℤ → List Batch → List Batch → ResultSetIterator srv
  at h total_rows given ahead = record {
    handle = some h;
    total_rows = total_rows;
    batches = given ++ ahead;
    current_index = length given;
    complete = false;
  }

  next_batch_ready :
      (it : ResultSetIterator srv) (b : Batch) (t : State)
      → get_elem? it.batches it.current_index ≡ some b
      → next_batch srv it t ≡ (some (ok b), record it { current_index = it.current_index + 1 }, t)
  unfolding next_batch
  next_batch_ready it b t q = rw (next_batch, q) refl

  next_batch_buffered :
      (h : ℤ) (total_rows : Option ℤ) (given : List Batch) (b : Batch) (ahead : List Batch)
      (t : State)
      → next_batch srv (at h total_rows given (b ∷ ahead)) t
        ≡ (some (ok b), at h total_rows (given ++ (b ∷ [])) ahead, t)
  next_batch_buffered h total_rows given b ahead t =
      next_batch_ready (at h total_rows given (b ∷ ahead)) b t (get_elem?-append given b ahead)
      ∙ rw (append_assoc given (b ∷ []) ahead, length-append {0} given (b ∷ [])) refl

  drain_buffered :
      (fuel : ℕ) (h : ℤ) (total_rows : Option ℤ) (given ahead : List Batch) (t : State)
      → in_front given (drain (length ahead + fuel) (at h total_rows given ahead) t)
        ≡ paginate_remaining srv fuel h total_rows (given ++ ahead) t
  drain_buffered fuel h total_rows given [] t =
      rw (append-nil given, zero-add) (drain_fetched fuel h total_rows given t)
  drain_buffered fuel h total_rows given (b ∷ ahead) t =
      let one : drain (suc (length ahead + fuel)) (at h total_rows given (b ∷ ahead)) t
          ≡ in_front (b ∷ [])
              (drain (length ahead + fuel) (at h total_rows (given ++ (b ∷ [])) ahead) t) =
        drain-step (length ahead + fuel) (at h total_rows given (b ∷ ahead)) t
        ∙ ap (step (length ahead + fuel)) (next_batch_buffered h total_rows given b ahead t) in
      rw (suc-add, one, in_front_twice given (b ∷ []), ← append_assoc given (b ∷ []) ahead)
        (drain_buffered fuel h total_rows (given ++ (b ∷ [])) ahead t)

  in_front_empty : (o : Outcome) → in_front [] o ≡ o
  unfolding in_front
  in_front_empty (ok ys, t) = refl
  in_front_empty (err e, t) = refl

  -- Calls of `next_batch` until it gives nothing hand out, one by one, the batches that `fetch_all`
  -- collects, or end in the error that it returns; the transport takes the same steps. This is for a
  -- result set that is not complete and has a handle.
  pub drain-into_iterator :
      (fuel : ℕ) (s : Stream srv) (h : ℤ) (it : ResultSetIterator srv) (t : State)
      → s.handle ≡ some h
      → s.complete ≡ false
      → into_iterator srv (stream s) ≡ ok it
      → drain (length s.batches + fuel) it t ≡ all_pages srv fuel s t
  unfolding into_iterator all_pages
  drain-into_iterator fuel s h it t q c e =
      let start : at h s.total_rows [] s.batches ≡ it = cc in
      let paged : drain (length s.batches + fuel) it t
          ≡ paginate_remaining srv fuel h s.total_rows s.batches t =
        rw (← start) (
          sym (in_front_empty (drain (length s.batches + fuel) (at h s.total_rows [] s.batches) t))
          ∙ drain_buffered fuel h s.total_rows [] s.batches t) in
      let pages : all_pages srv fuel s t ≡ paginate_remaining srv fuel h s.total_rows s.batches t =
        rw (q, c) refl in
      paged ∙ sym pages
