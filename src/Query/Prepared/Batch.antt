-- ===== src/Query/Prepared/Batch.antt =====
-- The batch is the transposed rows.
use native.Mathlib.Nat.{add-zero, zero-add}
use native.Mathlib.Decide.{dec_lt}
use exarrow_rs.Prelude.{
  ℕ, zero, suc, ◌+◌, ◌<◌, ◌≤◌, List, [], ◌∷◌, ◌++◌, Option, none, some, ◌≡◌, ◌≢◌, refl, ap, ◌∙◌,
  arith, ok, err, length, get_elem?, All, and_then, true, false, ◌==◌,
}
use exarrow_rs.Query.Parameter.{Platform, Parameter, parameter_binding_error, row_length}
use exarrow_rs.Query.Prepared.{
  Json, PreparedStatement, check_rows, parameter_to_json, column, columns_from,
  build_batch_parameters_data,
}
use exarrow_rs.Query.Statement.{query}

-- The entry at row `r` and column `c` of a list of rows.
abbrev pub entry {ℓ} : {A : Type ℓ} → List (List A) → ℕ → ℕ → Option A
entry rows r c = and_then (get_elem? rows r) (λ row. get_elem? row c)

abbrev pub HasWidth {ℓ} : {A : Type ℓ} → ℕ → List A → Type 0
HasWidth n row = length row ≡ n

get_elem?-some :
    {A : Type 0} (xs : List A) (i : ℕ) → i < length xs → (a : A) × (get_elem? xs i ≡ some a)
get_elem?-some [] i h = elim h [ ]
get_elem?-some (x ∷ xs) zero h = (x, refl)
get_elem?-some (x ∷ xs) (suc i) h = get_elem?-some xs i (omega arith)

get_elem?-none : {A : Type 0} (xs : List A) (i : ℕ) → length xs ≤ i → get_elem? xs i ≡ none
get_elem?-none [] i h = refl
get_elem?-none (x ∷ xs) zero h = absurd (omega arith)
get_elem?-none (x ∷ xs) (suc i) h = get_elem?-none xs i (omega arith)

entry-none :
    {A : Type 0} (rows : List (List A)) (n r c : ℕ)
    → All (HasWidth n) rows
    → n ≤ c
    → entry rows r c ≡ none
entry-none [] n r c h le = refl
entry-none (row ∷ rows) n zero c (h, hs) le = get_elem?-none row c (omega arith)
entry-none (row ∷ rows) n (suc r) c (h, hs) le = entry-none rows n r c hs le

module _ (env : Platform) (json : Json env.Float) where
  -- `values` is column `c` of `rows`, converted.
  abbrev IsColumn : List (List (Parameter env.Float)) → ℕ → List json.Value → Type 0
  IsColumn rows c values =
      (r : ℕ)
      → get_elem? values r ≡ and_then (entry rows r c) (λ p. some (parameter_to_json env json p))

  record Column (rows : List (List (Parameter env.Float))) (c : ℕ) : Type 0 where
    values : List json.Value
    computed : column env json rows c ≡ ok values
    tall : length values ≡ length rows
    entries : IsColumn rows c values

  column_lem :
      (rows : List (List (Parameter env.Float))) (n c : ℕ)
      → All (HasWidth n) rows
      → c < n
      → Column rows c
  unfolding column
  column_lem [] n c h lt = record { values = []; computed = refl; tall = refl; entries = λ r. refl }
  column_lem (row ∷ rows) n c (h, hs) lt =
      let (p, found) = get_elem?-some row c (omega arith) in
      let rest = column_lem rows n c hs lt in
      record {
        values = parameter_to_json env json p ∷ rest.values;
        computed = rw (found, rest.computed);
        tall = ap suc rest.tall;
        entries = elim [ zero ↦ rw found | suc r ↦ rest.entries r ];
      }

  record Columns (rows : List (List (Parameter env.Float))) (c k : ℕ) : Type 0 where
    table : List (List json.Value)
    computed : columns_from env json rows c k ≡ ok table
    wide : length table ≡ k
    tall : All (HasWidth (length rows)) table
    entries :
        (j r : ℕ)
        → j < k
        → entry table j r
          ≡ and_then (entry rows r (c + j)) (λ p. some (parameter_to_json env json p))

  columns_from_lem :
      (rows : List (List (Parameter env.Float))) (n k c : ℕ)
      → All (HasWidth n) rows
      → c + k ≤ n
      → Columns rows c k
  unfolding columns_from
  columns_from_lem rows n zero c h fits = record {
    table = [];
    computed = refl;
    wide = refl;
    tall = tt;
    entries = λ j r lt. absurd (omega arith);
  }
  columns_from_lem rows n (suc k) c h fits =
      let first = column_lem rows n c h (omega arith) in
      let rest = columns_from_lem rows n k (c + 1) h (omega arith) in
      record {
        table = first.values ∷ rest.table;
        computed = rw (first.computed, rest.computed);
        wide = ap suc rest.wide;
        tall = (first.tall, rest.tall);
        entries = elim [
          | zero ↦ λ r lt. first.entries r ∙ rw add-zero
          | suc j ↦ λ r lt.
              rest.entries j r (omega arith)
              ∙ ap (λ i. and_then (entry rows r i) (λ p. some (parameter_to_json env json p)))
                  (omega arith)
        ];
      }

  check_rows-ok :
      (n i : ℕ) (rows : List (List (Parameter env.Float)))
      → All (HasWidth n) rows
      → check_rows n i rows ≡ ok tt
  unfolding check_rows
  check_rows-ok n i [] h = refl
  check_rows-ok n i (row ∷ rows) (h, hs) = ground (arith, check_rows-ok n (i + 1) rows hs)

  check_rows-err :
      (n i : ℕ) (good : List (List (Parameter env.Float))) (bad : List (Parameter env.Float))
      (later : List (List (Parameter env.Float)))
      → All (HasWidth n) good
      → length bad ≢ n
      → check_rows n i (good ++ bad ∷ later)
        ≡ err (parameter_binding_error (i + length good) (row_length (length bad) n))
  unfolding check_rows
  check_rows-err n i [] bad later h ne =
      let wrong : (length bad == n) ≡ false = ground arith in rw (wrong, add-zero)
  check_rows-err n i (row ∷ good) bad later (h, hs) ne =
      let right : (length row == n) ≡ true = ground arith in
      let ih = check_rows-err n (i + 1) good bad later hs ne in
      let shift : i + 1 + length good ≡ i + suc (length good) = omega arith in
      rw right (rw shift at ih)

  -- A batch whose rows all have the statement's number of parameters is sent as its transpose: one
  -- column for each parameter, one value for each row, and at column `c` and row `r` the JSON value
  -- of the parameter at row `r` and column `c`.
  pub build_batch_transposed :
      (st : PreparedStatement env.Float) (row : List (Parameter env.Float))
      (rows : List (List (Parameter env.Float)))
      → All (HasWidth st.num_params) (row ∷ rows)
      → (table : List (List json.Value)) × (build_batch_parameters_data env json st (row ∷ rows)
          ≡ ok (some table))
        × (length table ≡ st.num_params)
        × All (HasWidth (length (row ∷ rows))) table
        × ((c r : ℕ)
            → entry table c r
              ≡ and_then (entry (row ∷ rows) r c) (λ p. some (parameter_to_json env json p)))
  unfolding build_batch_parameters_data
  build_batch_transposed st row rows h =
      let cols = columns_from_lem (row ∷ rows) st.num_params st.num_params 0 h (omega arith) in
      (
        cols.table,
        rw (check_rows-ok st.num_params 0 (row ∷ rows) h, cols.computed),
        cols.wide,
        cols.tall,
        λ c r. elim (dec_lt c st.num_params) [
          | yes lt ↦ cols.entries c r lt ∙ rw zero-add
          | no ge ↦
              let le : st.num_params ≤ c = omega arith in
              rw (
                get_elem?-none cols.table c (omega (arith, cols.wide)),
                entry-none (row ∷ rows) st.num_params r c h le,
              )
        ],
      )

  -- A batch with a row of another length is refused, with the index of the first such row, its
  -- length and the statement's number of parameters; no column is built.
  pub build_batch_refused :
      (st : PreparedStatement env.Float) (good : List (List (Parameter env.Float)))
      (bad : List (Parameter env.Float)) (later : List (List (Parameter env.Float)))
      → All (HasWidth st.num_params) good
      → length bad ≢ st.num_params
      → build_batch_parameters_data env json st (good ++ bad ∷ later)
        ≡ err
            (query (parameter_binding_error (length good) (row_length (length bad) st.num_params)))
  unfolding build_batch_parameters_data
  build_batch_refused st [] bad later h ne = rw (check_rows-err st.num_params 0 [] bad later h ne)
  build_batch_refused st (row ∷ good) bad later h ne =
      rw (check_rows-err st.num_params 0 (row ∷ good) bad later h ne, zero-add)
