-- ===== src/Adbc/Control.antt =====
-- src/adbc/connection.rs: transactions, the schema, and closing.
use exarrow_rs.Prelude.Call.{give, from, read, modify, ◌>>=◌, ◌>>◌}
use exarrow_rs.Connection.Session.{
  Session, SessionConfig, ConnectionError, validate_ready, increment_query_count,
  ensure_can_begin_transaction, commit_transaction, rollback_transaction, is_closed,
}
use exarrow_rs.Connection.Session
use exarrow_rs.Connection.Transport.{TransportProtocol}
use exarrow_rs.Prelude.Text.{Text, codes}
use exarrow_rs.Prelude.{Bool, false, not, ◌||◌, Option, ok, err, if◌then◌else◌}
use exarrow_rs.Query.Parameter.{Platform}
use exarrow_rs.Query.Prepared.{Json}
use exarrow_rs.Query.Results.{Server}
use exarrow_rs.Adbc.Connection.{
  Connection, Act, execution_failed, transaction_refused, transaction_failed, require_ready, await,
  execute_update, in_transaction,
}

module _ (env : Platform) (json : Json env.Float) (srv : Server)
    (tr : TransportProtocol srv json.Value) where
  unfoldable pub begin_transaction : Act env json srv tr (Unit {0})
  unfolding ensure_can_begin_transaction
  begin_transaction = do
    read (λ c. ensure_can_begin_transaction c.session) >>= from transaction_refused
    await transaction_failed (tr.set_autocommit false)
    λ c. (elim (Session.begin_transaction c.session) [
      | ok s ↦ (ok tt, record c { session = s })
      | err e ↦ (err (transaction_refused e), c)
    ])

  unfoldable pub commit : Act env json srv tr (Unit {0})
  unfolding execute_update commit_transaction in_transaction
  commit = do
    open_now ← read in_transaction
    if open_now
        then (execute_update env json srv tr (codes "COMMIT")
            >> modify (λ c. record c { session = commit_transaction c.session }))
        else give tt

  unfoldable pub rollback : Act env json srv tr (Unit {0})
  unfolding execute_update rollback_transaction in_transaction
  rollback = do
    open_now ← read in_transaction
    if open_now
        then (execute_update env json srv tr (codes "ROLLBACK")
            >> modify (λ c. record c { session = rollback_transaction c.session }))
        else give tt

  unfoldable pub current_schema : Connection srv.State → Option Text
  current_schema c = tr.current_schema c.transport

  unfoldable pub set_schema : Text → Act env json srv tr (Unit {0})
  unfolding validate_ready
  set_schema schema = do require_ready; await execution_failed (tr.set_current_schema schema)

  unfoldable pub refresh_current_schema : Act env json srv tr (Option Text)
  unfolding validate_ready
  refresh_current_schema = do require_ready; await execution_failed tr.refresh_current_schema

  unfoldable pub is_closed_now : Connection srv.State → Bool
  unfolding is_closed
  is_closed_now c = is_closed c.session || not (tr.is_connected c.transport)

  -- `close` and `shutdown`: the session is closed even where the transport then fails to.
  unfoldable pub shutdown : Act env json srv tr (Unit {0})
  shutdown = do
    modify λ c. record c { session = Session.close c.session }
    await execution_failed tr.close
