-- ===== src/Adbc/Connection/Limits.antt =====
-- The limit that a statement runs under: the server's timeout is one for the session, and each
-- statement is to run under its own.
use exarrow_rs.Adbc.Connection.{
  Connection, CallError, count_query, invalid_state, build_failed, execution_failed,
  map_execution_error, map_millis, from_transport_result, secs_or_zero, applied_secs, run_within,
  run_reconciled, execute_statement,
}
use exarrow_rs.Adbc.Connection.Settings.{Settings}
use exarrow_rs.Adbc.Connection.Timeout.{IsSound, run_within-state}
use exarrow_rs.Connection.Session.{ConnectionError, validate_ready, increment_query_count}
use exarrow_rs.Connection.Transport.{TransportProtocol, QueryResult}
use exarrow_rs.Prelude.Text.{Text}
use exarrow_rs.Prelude.{
  ℕ, ◌-◌, ◌*◌, ◌^◌, min, Bool, true, false, not, ◌==◌, Option, Result, ok, err, refl, if◌then◌else◌,
  ◌≡◌, ◌⊎◌, inl, inr, arith, Bool-cases, Result-cases,
}
use exarrow_rs.Query.Parameter.{Platform}
use exarrow_rs.Query.Prepared.{Json}
use exarrow_rs.Query.Results.{Server, Inner}
use exarrow_rs.Query.Statement.{Statement, Failure, build_sql}

module _ (env : Platform) (json : Json env.Float) (srv : Server)
    (tr : TransportProtocol srv json.Value) where
  -- What the caller gets for the server's answer to a query that ran under `limit` seconds.
  abbrev pub answer : ℕ → Result Text (QueryResult srv) → Result CallError (Inner srv)
  answer limit (err e) = err (map_execution_error e (min (limit * 1000) (2 ^ 64 - 1)))
  answer limit (ok r) = elim (from_transport_result srv tr.first_batch r) [
    | ok result ↦ ok result
    | err e ↦ err (execution_failed e)
  ]

  -- The statement's own limit in seconds, 0 for none.
  abbrev pub own_limit : Statement env.Float → ℕ
  own_limit stmt = secs_or_zero (map_millis stmt.timeout_ms)

  run_within-answer :
      (needed : Bool) (limit : ℕ) (timeout_ms : Option ℕ) (sql : Text) (c : Connection srv.State)
      → (run_within env json srv tr needed limit timeout_ms sql c).0
        ≡ answer limit (tr.execute_query sql c.transport).0
  unfolding run_within
  run_within-answer needed limit timeout_ms sql c = ground arith

  module _ (set : Settings srv json.Value tr) where
    -- The connection with the query counted.
    abbrev pub counted : Connection srv.State → Connection srv.State
    counted c = (count_query {S = srv.State} c).1

    abbrev has_limit : Statement env.Float → Connection srv.State → Bool
    has_limit stmt c = set.limit c.transport == own_limit stmt

    -- The transport that the query of the statement is sent on: its limit is set where it differs.
    abbrev pub limited : Statement env.Float → Connection srv.State → srv.State
    limited stmt c =
        if has_limit stmt c
        then c.transport
        else (tr.set_query_timeout (own_limit stmt) c.transport).1

    -- The statement fails and does not reach the server as a query. The session is closed, and
    -- nothing changes; or the text is not built, and the query is counted; or the server does not
    -- take the limit, which is the only request.
    abbrev pub IsRefused : Statement env.Float → Connection srv.State → Type 0
    IsRefused stmt c =
        ((e : ConnectionError) × (validate_ready c.session ≡ err e)
          × (execute_statement env json srv tr stmt c ≡ (err (invalid_state e), c)))
        ⊎ ((e : Failure) × (validate_ready c.session ≡ ok tt)
            × (build_sql env stmt ≡ err e)
            × (execute_statement env json srv tr stmt c ≡ (err (build_failed e), counted c)))
        ⊎ ((e : Text) × (validate_ready c.session ≡ ok tt)
            × (has_limit stmt c ≡ false)
            × ((tr.set_query_timeout (own_limit stmt) c.transport).0 ≡ err e)
            × (execute_statement env json srv tr stmt c
                ≡ (err (execution_failed e), record (counted c) { transport = limited stmt c })))

    -- The session is ready, the text is built, the transport for the query has the statement's own
    -- limit, and the query is the one request on it: the caller gets the answer, and the connection
    -- has what the query left of the transport.
    abbrev pub RunsUnder : Statement env.Float → Connection srv.State → Type 0
    RunsUnder stmt c =
        (sql : Text) × (validate_ready c.session ≡ ok tt)
        × (build_sql env stmt ≡ ok sql)
        × (set.limit (limited stmt c) ≡ own_limit stmt)
        × ((execute_statement env json srv tr stmt c).0
            ≡ answer (own_limit stmt) (tr.execute_query sql (limited stmt c)).0)
        × ((execute_statement env json srv tr stmt c).1.transport
            ≡ (tr.execute_query sql (limited stmt c)).1)

    RunsUnder-within :
        (stmt : Statement env.Float) (c d : Connection srv.State) (sql : Text) (needed : Bool)
        → validate_ready c.session ≡ ok tt
        → build_sql env stmt ≡ ok sql
        → limited stmt c ≡ d.transport
        → set.limit d.transport ≡ own_limit stmt
        → execute_statement env json srv tr stmt c
          ≡ run_within env json srv tr needed (own_limit stmt) stmt.timeout_ms sql d
        → RunsUnder stmt c
    RunsUnder-within stmt c d sql needed ready built at l e = (
      sql,
      ready,
      built,
      rw at l,
      rw (e, at) (run_within-answer needed (own_limit stmt) stmt.timeout_ms sql d),
      rw (e, at, run_within-state) (ground arith),
    )

    -- The session is closed.
    execute_statement-closed :
        (stmt : Statement env.Float) (c : Connection srv.State) (e : ConnectionError)
        → validate_ready c.session ≡ err e
        → execute_statement env json srv tr stmt c ≡ (err (invalid_state e), c)
    unfolding execute_statement
    execute_statement-closed stmt c e refused = ground arith

    -- The text is not built.
    execute_statement-unbuilt :
        (stmt : Statement env.Float) (c : Connection srv.State) (e : Failure)
        → validate_ready c.session ≡ ok tt
        → build_sql env stmt ≡ err e
        → execute_statement env json srv tr stmt c ≡ (err (build_failed e), counted c)
    unfolding execute_statement
    execute_statement-unbuilt stmt c e ready failed = ground arith

    -- The text is built: the limit that was in force is kept, sent, or could not be sent.
    RunsUnder-reconciled :
        (stmt : Statement env.Float) (c : Connection srv.State) (sql : Text)
        → IsSound env json srv tr set false c
        → validate_ready c.session ≡ ok tt
        → build_sql env stmt ≡ ok sql
        → IsRefused stmt c ⊎ RunsUnder stmt c
    unfolding execute_statement run_reconciled increment_query_count applied_secs
    RunsUnder-reconciled stmt c sql h ready built = elim (Bool-cases (has_limit stmt c)) [
      | inr needed ↦
          let differs : not (own_limit stmt == applied_secs c) ≡ true = ground (arith, h.synced) in
          let at : limited stmt c ≡ (tr.set_query_timeout (own_limit stmt) c.transport).1 =
            rw needed refl in
          elim (Result-cases (tr.set_query_timeout (own_limit stmt) c.transport).0) [
            | inl (u, sent) ↦ inr (
                RunsUnder-within stmt c
                  (record (counted c) {
                    transport = (tr.set_query_timeout (own_limit stmt) c.transport).1;
                  })
                  sql true ready built at
                  (set.set_query_timeout_ok (own_limit stmt) c.transport sent) (ground arith))
            | inr (e, failed) ↦ inl (inr (inr (e, ready, needed, failed, rw at (ground arith))))
          ]
      | inl same ↦
          let agrees : not (own_limit stmt == applied_secs c) ≡ false = ground (arith, h.synced) in
          let at : limited stmt c ≡ c.transport = rw same refl in
          let l : set.limit c.transport ≡ own_limit stmt = ground arith in
          inr (RunsUnder-within stmt c (counted c) sql false ready built at l (ground arith))
    ]

    pub execute_statement-limit :
        (stmt : Statement env.Float) (c : Connection srv.State)
        → IsSound env json srv tr set false c
        → IsRefused stmt c ⊎ RunsUnder stmt c
    execute_statement-limit stmt c h = elim (Result-cases (validate_ready c.session)) [
      | inr (e, refused) ↦ inl (inl (e, refused, execute_statement-closed stmt c e refused))
      | inl (u, ready) ↦ elim (Result-cases (build_sql env stmt)) [
        | inr (e, failed) ↦
            inl (inr (inl (e, ready, failed, execute_statement-unbuilt stmt c e ready failed)))
        | inl (sql, built) ↦ RunsUnder-reconciled stmt c sql h ready built
      ]
    ]
