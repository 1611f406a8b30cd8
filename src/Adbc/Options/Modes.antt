-- ===== src/Adbc/Options/Modes.antt =====
-- What the server's autocommit is after changes of the option, and what a commit sends.
use exarrow_rs.Adbc.Connection.Calls.{Keeps-commit, Keeps-execute_statement}
use exarrow_rs.Adbc.Connection.Ending.{Keeps-statement}
use exarrow_rs.Adbc.Connection.Settings.{Settings}
use exarrow_rs.Adbc.Connection.Timeout.{IsSound}
use exarrow_rs.Adbc.Connection.{Connection, CallError, in_transaction, execute_statement}
use exarrow_rs.Adbc.Control.{commit}
use exarrow_rs.Adbc.Options.{
  FfiConnection, FfiError, call_failed, ensure_connected, on_connection, commit_open_transaction,
  apply_auto_commit,
}
use exarrow_rs.Connection.Transport.{TransportProtocol}
use exarrow_rs.Prelude.{
  Result, err, ◌⊎◌, inl, inr, Bool-cases, true, false, some, ok, ◌≡◌, refl, arith,
}
use exarrow_rs.Query.Parameter.{Platform}
use exarrow_rs.Query.Prepared.{Json}
use exarrow_rs.Query.Results.{Server}
use exarrow_rs.Query.Statement.{Statement}

-- What the caller of the C interface gets for what a call on the connection returned.
abbrev pub answer_of : Result CallError (Unit {0}) → Result FfiError (Unit {0})
answer_of (ok u) = ok u
answer_of (err e) = err (call_failed e)

module _ (env : Platform) (json : Json env.Float) (srv : Server)
    (tr : TransportProtocol srv json.Value) (set : Settings srv json.Value tr) where
  apply_auto_commit-open :
      (fresh : srv.State) (f : FfiConnection srv.State) (c : Connection srv.State)
      → f.inner ≡ some c
      → f.auto_commit ≡ false
      → in_transaction c ≡ true
      → apply_auto_commit env json srv tr fresh true f ≡ (
        answer_of (commit env json srv tr c).0,
        record f { auto_commit = true; inner = some (commit env json srv tr c).1 },
      )
  unfolding apply_auto_commit commit_open_transaction on_connection ensure_connected
  apply_auto_commit-open fresh f c e was open_now = ground arith

  apply_auto_commit-none :
      (fresh : srv.State) (f : FfiConnection srv.State) (c : Connection srv.State)
      → f.inner ≡ some c
      → f.auto_commit ≡ false
      → in_transaction c ≡ false
      → apply_auto_commit env json srv tr fresh true f
        ≡ (ok tt, record f { auto_commit = true; inner = some c })
  unfolding apply_auto_commit commit_open_transaction on_connection ensure_connected
  apply_auto_commit-none fresh f c e was none_now = ground arith

  -- A statement that runs outside of a transaction is not committed by a commit: on a connection that
  -- records what it sent, and is in no transaction, a commit after a statement sends no request and
  -- succeeds, whatever autocommit is on the server.
  pub commit_skipped :
      (stmt : Statement env.Float) (c : Connection srv.State)
      → IsSound env json srv tr set false c
      → in_transaction c ≡ false
      → commit env json srv tr (execute_statement env json srv tr stmt c).1
        ≡ (ok tt, (execute_statement env json srv tr stmt c).1)
  unfolding commit in_transaction
  commit_skipped stmt c h outside =
      let d = (execute_statement env json srv tr stmt c).1 in
      let steady = (Keeps-execute_statement env json srv tr set false stmt).at c h in
      let same = (Keeps-statement env json srv tr c.session.state stmt).at c refl in
      ground (arith, h.consistent, steady.consistent)

  module _ (fresh : srv.State) where
    -- The option reads true and the connection is this one.
    abbrev pub enabled_on : FfiConnection srv.State → Connection srv.State → FfiConnection srv.State
    enabled_on f d = record f { auto_commit = true; inner = some d }

    -- Setting the option AutoCommit to true on a connection whose autocommit is off on the server
    -- leaves it off there, although the option then reads true. In an open transaction, the driver
    -- commits the connection, and gives the error of the commit where there is one; else it sends
    -- nothing at all. Either way the server's autocommit is off in the end.
    pub apply_auto_commit-stays_off :
        (f : FfiConnection srv.State) (c : Connection srv.State)
        → f.inner ≡ some c
        → f.auto_commit ≡ false
        → IsSound env json srv tr set false c
        → set.autocommit c.transport ≡ false
        → ((in_transaction c ≡ true)
            × (apply_auto_commit env json srv tr fresh true f ≡ (
              answer_of (commit env json srv tr c).0,
              enabled_on f (commit env json srv tr c).1,
            ))
            × (set.autocommit (commit env json srv tr c).1.transport ≡ false))
          ⊎ ((in_transaction c ≡ false)
              × (apply_auto_commit env json srv tr fresh true f ≡ (ok tt, enabled_on f c)))
    apply_auto_commit-stays_off f c e was h off =
        let noted : IsSound env json srv tr set true c = record {
          synced = h.synced;
          consistent = h.consistent;
          manual = h.manual;
          stays_off = λ i. off;
        } in
        elim (Bool-cases (in_transaction c)) [
          | inl open_now ↦ inl (
            open_now,
            apply_auto_commit-open fresh f c e was open_now,
            ((Keeps-commit env json srv tr set true).at c noted).stays_off refl,
          )
          | inr none_now ↦ inr (none_now, apply_auto_commit-none fresh f c e was none_now)
        ]
