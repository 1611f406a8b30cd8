-- ===== src/Adbc/Connection/Ending.antt =====
-- An open transaction can be ended.
use exarrow_rs.Prelude.Call.{attempt, modify}
use exarrow_rs.Prelude.Call.Keeps.{Keeps, keeps_rules}
use exarrow_rs.Adbc.Connection.Calls.{Keeps-execute_update as Keeps-execute_update'}
use exarrow_rs.Adbc.Connection.Limits.{execute_statement-limit, own_limit, limited}
use exarrow_rs.Adbc.Connection.Settings.{Settings}
use exarrow_rs.Adbc.Connection.Timeout.{IsSound}
use exarrow_rs.Adbc.Connection.{
  Connection, CallError, request, record_timeout, count_query, run_within, run_reconciled,
  execute_statement, execute_statement_update, execute_update, create_statement, in_transaction,
}
use exarrow_rs.Adbc.Control.{commit}
use exarrow_rs.Connection.Session.Lifecycle.{IsConsistent}
use exarrow_rs.Connection.Session.{
  Session, SessionState, in_transaction as in_transaction_state, increment_query_count,
  validate_ready, can_execute, commit_transaction, ensure_can_begin_transaction,
}
use exarrow_rs.Connection.Transport.{TransportProtocol, row_count}
use exarrow_rs.Prelude.Int.{ℤ}
use exarrow_rs.Prelude.Text.{Text, codes}
use exarrow_rs.Prelude.{
  ℕ, Bool, true, false, Option, none, some, Result, ok, ◌≡◌, inl, inr, refl, ap, ◌∙◌, arith,
}
use exarrow_rs.Query.Parameter.{Platform}
use exarrow_rs.Query.Prepared.{Json}
use exarrow_rs.Query.Results.{Server}
use exarrow_rs.Query.Results
use exarrow_rs.Query.Scan.{scan_placeholders, scan_step}
use exarrow_rs.Query.Statement.{Statement, build_sql, set_timeout, new}

commit_transaction-flag : (s : Session) → (commit_transaction s).transaction_flag ≡ false
unfolding commit_transaction
commit_transaction-flag s = ground arith

commit_transaction-can_begin :
    (s : Session)
    → IsConsistent s
    → s.state ≡ in_transaction_state
    → ensure_can_begin_transaction (commit_transaction s) ≡ ok tt
unfolding commit_transaction ensure_can_begin_transaction
commit_transaction-can_begin s h e = ground arith

module _ (env : Platform) (json : Json env.Float) (srv : Server)
    (tr : TransportProtocol srv json.Value) where
  -- Running a statement leaves the session's state as it was.
  abbrev InState : SessionState → Connection srv.State → Type 0
  InState s c = c.session.state ≡ s

  module _ (s : SessionState) where
    Keeps-request :
        {A : Type 0} (ask : srv.State → Result Text A × srv.State)
        → Keeps {E = CallError} (InState s) (attempt (request ask))
    Keeps-request ask = record { at = λ c h. h }

    Keeps-record_timeout :
        (needed : Bool) (timeout_ms : Option ℕ)
        → Keeps {E = CallError} (InState s) (modify (record_timeout needed timeout_ms))
    Keeps-record_timeout false timeout_ms = record { at = λ c h. h }
    Keeps-record_timeout true timeout_ms = record { at = λ c h. h }

    Keeps-count_query : Keeps (InState s) count_query
    unfolding increment_query_count
    Keeps-count_query = record { at = λ c h. h }

    Keeps-run_within :
        (needed : Bool) (limit : ℕ) (timeout_ms : Option ℕ) (sql : Text)
        → Keeps (InState s) (run_within env json srv tr needed limit timeout_ms sql)
    unfolding run_within
    Keeps-run_within needed limit timeout_ms sql =
        search (keeps_rules, Keeps-request, Keeps-record_timeout) depth 12

    pub Keeps-statement :
        (stmt : Statement env.Float) → Keeps (InState s) (execute_statement env json srv tr stmt)
    unfolding execute_statement run_reconciled
    Keeps-statement stmt =
        search (keeps_rules, Keeps-request, Keeps-count_query, Keeps-run_within) depth 12 fits 4000

    Keeps-execute_update : (sql : Text) → Keeps (InState s) (execute_update env json srv tr sql)
    unfolding execute_update execute_statement_update
    Keeps-execute_update sql = search (keeps_rules, Keeps-statement)

  build_sql-create_statement :
      (configured : Option ℕ)
      → build_sql env (create_statement env json srv tr configured (codes "COMMIT"))
        ≡ ok (codes "COMMIT")
  unfolding build_sql create_statement set_timeout new scan_placeholders scan_step
  build_sql-create_statement none = refl
  build_sql-create_statement (some d) = refl

  commit-committed :
      (c : Connection srv.State) (n : ℤ)
      → in_transaction c ≡ true
      → (execute_update env json srv tr (codes "COMMIT") c).0 ≡ ok n
      → commit env json srv tr c ≡ (
        ok tt,
        (let d = (execute_update env json srv tr (codes "COMMIT") c).1 in
            record d { session = commit_transaction d.session }),
      )
  unfolding commit
  commit-committed c n open_now done = ground arith

  module _ (set : Settings srv json.Value tr) where
    -- The server takes every limit, and answers COMMIT with a row count.
    pub record Answers : Type 0 where
      pub takes_limit : (n : ℕ) (t : srv.State) → (tr.set_query_timeout n t).0 ≡ ok tt
      pub commits :
          (t : srv.State) → (n : ℤ) × ((tr.execute_query (codes "COMMIT") t).0 ≡ ok (row_count n))

    build_sql-same :
        (configured : Option ℕ) (sql : Text)
        → build_sql env (create_statement env json srv tr configured (codes "COMMIT")) ≡ ok sql
        → sql ≡ codes "COMMIT"
    build_sql-same configured sql e = let built = build_sql-create_statement configured in cc

    -- The statement that a commit runs.
    abbrev pub committing : Connection srv.State → Statement env.Float
    committing c = create_statement env json srv tr c.configured_timeout (codes "COMMIT")

    -- The transport after COMMIT was sent, under the limit of the parameters.
    abbrev pub after_commit : Connection srv.State → srv.State
    after_commit c =
        (tr.execute_query (codes "COMMIT") (limited env json srv tr set (committing c) c)).1

    execute_update-commit :
        (c : Connection srv.State)
        → IsSound env json srv tr set false c
        → InState in_transaction_state c
        → Answers
        → (n : ℤ) × ((execute_update env json srv tr (codes "COMMIT") c).0 ≡ ok n)
          × ((execute_update env json srv tr (codes "COMMIT") c).1.transport ≡ after_commit c)
    unfolding execute_update execute_statement_update
    execute_update-commit c h open_now answers =
        let stmt = committing c in
        elim (execute_statement-limit env json srv tr set stmt c h) [
          | inl (inl (e, refused, r)) ↦
              let ready_now : validate_ready c.session ≡ ok tt =
                unfold validate_ready can_execute in rw open_now in
              cc
          | inl (inr (inl (e, ready, failed, r))) ↦
              let built = build_sql-create_statement c.configured_timeout in cc
          | inl (inr (inr (e, ready, differs, failed, r))) ↦
              let sent = answers.takes_limit (own_limit env json srv tr stmt) c.transport in cc
          | inr (sql, ready, built, l, answered, state) ↦
              let t = limited env json srv tr set stmt c in
              let (n, done) = answers.commits t in
              let same : sql ≡ codes "COMMIT" = build_sql-same c.configured_timeout sql built in
              let given : (execute_statement env json srv tr stmt c).0 ≡ ok (Results.row_count n) =
                answered ∙ rw (same, done) in
              let sent : (execute_statement env json srv tr stmt c).1.transport ≡ after_commit c =
                state ∙ ap (λ q. (tr.execute_query q t).1) same in
              (n, ground arith, ground arith)
        ]

    -- An open transaction can be ended. On a connection that records what it sent, and a server that
    -- takes every limit and answers COMMIT with a row count, a commit succeeds: COMMIT was sent, under
    -- the limit of the connection's parameters, and no request followed it; the connection is in no
    -- transaction then, and the next one can begin.
    pub commit_ends :
        (c : Connection srv.State)
        → IsSound env json srv tr set false c
        → in_transaction c ≡ true
        → Answers
        → ((commit env json srv tr c).0 ≡ ok tt)
          × ((commit env json srv tr c).1.transport ≡ after_commit c)
          × (in_transaction (commit env json srv tr c).1 ≡ false)
          × (ensure_can_begin_transaction (commit env json srv tr c).1.session ≡ ok tt)
    commit_ends c h open_now answers =
        let inside : c.session.state ≡ in_transaction_state =
          unfold in_transaction in ground (arith, h.consistent) in
        let (n, done, sent) = execute_update-commit c h inside answers in
        let still = (Keeps-execute_update in_transaction_state (codes "COMMIT")).at c inside in
        let d = (execute_update env json srv tr (codes "COMMIT") c).1 in
        let ended : commit env json srv tr c
            ≡ (ok tt, record d { session = commit_transaction d.session }) =
          commit-committed c n open_now done in
        let steady = (Keeps-execute_update' env json srv tr set false (codes "COMMIT")).at c h in
        rw ended (
          refl,
          sent,
          unfold in_transaction in commit_transaction-flag d.session,
          commit_transaction-can_begin d.session steady.consistent still,
        )
