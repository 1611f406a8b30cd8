-- ===== src/Query/Statement/Safe.antt =====
-- A bound string stays inside its literal, and `build_sql` never panics.
use exarrow_rs.Prelude.{
  ℕ, zero, suc, ◌+◌, ◌<◌, ◌≤◌, List, [], ◌∷◌, Option, some, ◌≡◌, ◌≢◌, refl, inl, inr, arith, err,
  length, get_elem?, ltb, Bool-cases,
}
use exarrow_rs.Query.Parameter.{Platform, Parameter}
use exarrow_rs.Query.Scan.Pieces.{pieces}
use exarrow_rs.Query.Scan.{normal}
use exarrow_rs.Query.Statement.Build.{holes, literals, build_sql-fill}
use exarrow_rs.Query.Statement.{Statement, panic, literal_at, build_sql}

get_elem?-some :
    {A : Type 0} (xs : List A) (i : ℕ) → i < length xs → (a : A) × (get_elem? xs i ≡ some a)
get_elem?-some [] i h = elim h [ ]
get_elem?-some (x ∷ xs) zero h = (x, refl)
get_elem?-some (x ∷ xs) (suc i) h = get_elem?-some xs i (omega arith)

module _ (env : Platform) where
  literal_at-ne-panic :
      (params : List (Option (Parameter env.Float))) (i : ℕ)
      → i < length params
      → literal_at env params i ≢ err panic
  unfolding literal_at
  literal_at-ne-panic params i h = let (p, found) = get_elem?-some params i h in ground arith

  literals-ne-panic :
      (params : List (Option (Parameter env.Float))) (n i : ℕ)
      → i + n ≤ length params
      → literals (literal_at env params) i n ≢ err panic
  unfolding literals
  literals-ne-panic params zero i h = cc
  literals-ne-panic params (suc n) i h =
      ground (arith, literals-ne-panic params n (i + 1), literal_at-ne-panic params i)

  -- Building a SQL text never panics: every index is in range and every replaced range lies on
  -- character boundaries.
  pub build_sql-ne-panic : (st : Statement env.Float) → build_sql env st ≢ err panic
  build_sql-ne-panic st =
      let n = holes (pieces normal st.sql) in
      rw (build_sql-fill env st) (elim (Bool-cases (ltb (length st.parameters) n)) [
        | inl few ↦ rw few (cc)
        | inr enough ↦ rw enough (ground (arith, literals-ne-panic st.parameters n 0))
      ])
