-- ===== src/Adbc/Connection/Calls.antt =====
-- What holds of a connection after any sequence of calls.
use exarrow_rs.Prelude.Call.{modify}
use exarrow_rs.Prelude.Call.Keeps.{Keeps, keeps_rules, Keeps-modify}
use exarrow_rs.Adbc.Connection.Settings.{Settings}
use exarrow_rs.Adbc.Connection.Timeout.{
  IsSound, Keeps-request, Keeps-count_query, Keeps-run_reconciled,
}
use exarrow_rs.Adbc.Connection.Transactions.{begin_transaction_outcomes}
use exarrow_rs.Adbc.Connection.{
  CallError, Connection, applied_secs, in_transaction, execute_statement, execute_statement_update,
  execute_update,
}
use exarrow_rs.Adbc.Control.{
  rollback, refresh_current_schema, shutdown, begin_transaction, set_schema, commit,
}
use exarrow_rs.Adbc.Prepared.{
  execute_prepared, execute_prepared_update, execute_batch, execute_batch_update, close_prepared,
  prepare,
}
use exarrow_rs.Connection.Transport.{TransportProtocol}
use exarrow_rs.Connection.Session.Lifecycle.{Step-IsConsistent}
use exarrow_rs.Connection.Session.Lifecycle.{
  commit as commit_step, rollback as rollback_step, shut as shut_step,
}
use exarrow_rs.Connection.Session.{commit_transaction, rollback_transaction, close}
use exarrow_rs.Prelude.Text.{Text}
use exarrow_rs.Prelude.{◌∙◌, inl, inr, Bool, false, List, refl, arith}
use exarrow_rs.Query.Statement.{Statement}
use exarrow_rs.Query.Parameter.{Platform, Parameter}
use exarrow_rs.Query.Prepared.{Json, PreparedStatement}
use exarrow_rs.Query.Results.{Server}

module _ (env : Platform) (json : Json env.Float) (srv : Server)
    (tr : TransportProtocol srv json.Value) (set : Settings srv json.Value tr)
    (was_off : Bool) where
  abbrev Sound : Connection srv.State → Type 0
  Sound = IsSound env json srv tr set was_off

  pub Keeps-execute_statement :
      (stmt : Statement env.Float) → Keeps Sound (execute_statement env json srv tr stmt)
  unfolding execute_statement
  Keeps-execute_statement stmt = search (keeps_rules, Keeps-count_query, Keeps-run_reconciled)

  pub Keeps-commit_session :
      Keeps {S = Connection srv.State} {E = CallError} Sound
        (modify λ c. record c { session = commit_transaction c.session })
  unfolding commit_transaction applied_secs in_transaction
  Keeps-commit_session = Keeps-modify _ λ c h. record {
    synced = ground arith;
    consistent = Step-IsConsistent (commit_step c.session) tt h.consistent;
    manual = ground arith;
    stays_off = h.stays_off;
  }

  pub Keeps-rollback_session :
      Keeps {S = Connection srv.State} {E = CallError} Sound
        (modify λ c. record c { session = rollback_transaction c.session })
  unfolding rollback_transaction applied_secs in_transaction
  Keeps-rollback_session = Keeps-modify _ λ c h. record {
    synced = ground arith;
    consistent = Step-IsConsistent (rollback_step c.session) tt h.consistent;
    manual = ground arith;
    stays_off = h.stays_off;
  }

  pub Keeps-close_session :
      Keeps {S = Connection srv.State} {E = CallError} Sound
        (modify λ c. record c { session = close c.session })
  unfolding close applied_secs in_transaction
  Keeps-close_session = Keeps-modify _ λ c h. record {
    synced = ground arith;
    consistent = Step-IsConsistent (shut_step c.session) tt h.consistent;
    manual = ground arith;
    stays_off = h.stays_off;
  }

  pub Keeps-execute_update : (sql : Text) → Keeps Sound (execute_update env json srv tr sql)
  unfolding execute_update execute_statement_update
  Keeps-execute_update sql = search (keeps_rules, Keeps-execute_statement)

  pub Keeps-commit : Keeps Sound (commit env json srv tr)
  unfolding commit
  Keeps-commit = search (keeps_rules, Keeps-execute_update, Keeps-commit_session)

  pub Keeps-rollback : Keeps Sound (rollback env json srv tr)
  unfolding rollback
  Keeps-rollback = search (keeps_rules, Keeps-execute_update, Keeps-rollback_session)

  pub Keeps-prepare : (sql : Text) → Keeps Sound (prepare env json srv tr sql)
  unfolding prepare
  Keeps-prepare sql = search (keeps_rules, Keeps-request, set.create_quiet) depth 12

  pub Keeps-execute_prepared :
      (stmt : PreparedStatement env.Float) → Keeps Sound (execute_prepared env json srv tr stmt)
  unfolding execute_prepared
  Keeps-execute_prepared stmt =
      search (keeps_rules, Keeps-count_query, Keeps-request, set.execute_prepared_quiet) depth 12

  pub Keeps-execute_prepared_update :
      (stmt : PreparedStatement env.Float)
      → Keeps Sound (execute_prepared_update env json srv tr stmt)
  unfolding execute_prepared_update
  Keeps-execute_prepared_update stmt =
      search (keeps_rules, Keeps-request, set.execute_prepared_quiet) depth 12

  pub Keeps-execute_batch :
      (stmt : PreparedStatement env.Float) (rows : List (List (Parameter env.Float)))
      → Keeps Sound (execute_batch env json srv tr stmt rows)
  unfolding execute_batch
  Keeps-execute_batch stmt rows =
      search (keeps_rules, Keeps-count_query, Keeps-request, set.execute_prepared_quiet) depth 12

  pub Keeps-execute_batch_update :
      (stmt : PreparedStatement env.Float) (rows : List (List (Parameter env.Float)))
      → Keeps Sound (execute_batch_update env json srv tr stmt rows)
  unfolding execute_batch_update
  Keeps-execute_batch_update stmt rows =
      search (keeps_rules, Keeps-request, set.execute_prepared_quiet) depth 12

  pub Keeps-close_prepared :
      (stmt : PreparedStatement env.Float) → Keeps Sound (close_prepared env json srv tr stmt)
  unfolding close_prepared
  Keeps-close_prepared stmt = search (keeps_rules, Keeps-request, set.close_prepared_quiet) depth 12

  pub Keeps-set_schema : (name : Text) → Keeps Sound (set_schema env json srv tr name)
  unfolding set_schema
  Keeps-set_schema name = search (keeps_rules, Keeps-request, set.set_schema_quiet) depth 12

  pub Keeps-refresh_current_schema : Keeps Sound (refresh_current_schema env json srv tr)
  unfolding refresh_current_schema
  Keeps-refresh_current_schema = search (keeps_rules, Keeps-request, set.refresh_quiet) depth 12

  pub Keeps-shutdown : Keeps Sound (shutdown env json srv tr)
  unfolding shutdown
  Keeps-shutdown =
      search (keeps_rules, Keeps-request, Keeps-close_session, set.close_quiet) depth 12

  pub Keeps-begin_transaction : Keeps Sound (begin_transaction env json srv tr)
  unfolding in_transaction applied_secs
  Keeps-begin_transaction = record {
    at = λ c h. elim (begin_transaction_outcomes env json srv tr c) [
      | inl (e, refused, same) ↦ rw same h
      | inr (inl (e, failed, told)) ↦ rw told (record {
        synced = set.set_autocommit_limit false c.transport ∙ h.synced;
        consistent = h.consistent;
        manual = λ i. set.set_autocommit_err false c.transport e failed ∙ h.manual i;
        stays_off = λ i. set.set_autocommit_err false c.transport e failed ∙ h.stays_off i;
      })
      | inr (inr (done, begun)) ↦ rw begun (record {
        synced = set.set_autocommit_limit false c.transport ∙ h.synced;
        consistent = record { flag_agrees = refl; not_closing = cc; memo = h.consistent.memo };
        manual = λ i. set.set_autocommit_ok false c.transport done;
        stays_off = λ i. set.set_autocommit_ok false c.transport done;
      })
    ];
  }
