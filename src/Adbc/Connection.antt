-- ===== src/Adbc/Connection.antt =====
-- src/adbc/connection.rs: `Connection`, which runs statements for a session on a transport. A method
-- holds `&mut self` to its end, and the lock on the transport is free between the methods.
-- Durations are in nanoseconds. Of the parameters the methods read the query timeout alone.
pub mod Settings
pub mod Timeout
pub mod Calls
pub mod Reach
pub mod Limits
pub mod Ending
pub mod Transactions
use exarrow_rs.Prelude.Call.{Call, give, fail, from, read, attempt, modify, ◌>>=◌, ◌>>◌}
use exarrow_rs.Connection.Session.{
  Session, SessionConfig, ConnectionError, validate_ready, increment_query_count,
  ensure_can_begin_transaction, commit_transaction, rollback_transaction, is_closed,
}
use exarrow_rs.Connection.Session
use exarrow_rs.Connection.Transport.{
  TransportProtocol, QueryResult, ResultData, result_set, row_count, PreparedHandle,
}
use exarrow_rs.Prelude.Int.{ℤ}
use exarrow_rs.Prelude.Text.{Text, codes}
use exarrow_rs.Prelude.{
  ℕ, ◌+◌, ◌-◌, ◌*◌, ◌/◌, ◌%◌, ◌^◌, min, Bool, true, false, not, ◌&&◌, ◌||◌, List, map, Option, none,
  some, Result, ok, err, ltb, ◌==◌, if◌then◌else◌,
}
use exarrow_rs.Query.Parameter.{Platform, Parameter, contains}
use exarrow_rs.Query.Prepared.{
  Json, PreparedStatement, mark_closed, build_parameters_data, build_batch_parameters_data,
}
use exarrow_rs.Query.Prepared
use exarrow_rs.Query.Results.{Server, Inner, stream, ResultError, from_result_set, fetch_all}
use exarrow_rs.Query.Results
use exarrow_rs.Query.Statement.{Statement, Failure, build_sql, set_timeout}
use exarrow_rs.Query.Statement

-- `Duration::from_millis`, in nanoseconds.
abbrev pub from_millis : ℕ → ℕ
from_millis ms = ms * 10 ^ 6

-- The addition saturates at the largest u64.
unfoldable pub secs_ceil : ℕ → ℕ
secs_ceil d = if ltb 0 (d % 10 ^ 9) then min (d / 10 ^ 9 + 1) (2 ^ 64 - 1) else d / 10 ^ 9

-- The seconds that stand for a duration, and 0 for none.
unfoldable pub secs_or_zero : Option ℕ → ℕ
unfolding secs_ceil
secs_or_zero none = 0
secs_or_zero (some d) = secs_ceil d

abbrev pub map_millis : Option ℕ → Option ℕ
map_millis none = none
map_millis (some ms) = some (from_millis ms)

-- `QueryError`, with the causes that its messages name; and the panics of a text that is built.
pub data CallError : Type 0 where
  invalid_state : ConnectionError → CallError
  build_failed : Failure → CallError
  execution_failed : Text → CallError
  -- milliseconds
  timeout : ℕ → CallError
  transaction_refused : ConnectionError → CallError
  transaction_failed : Text → CallError
  no_result_set : CallError
  statement_closed : CallError
  unexpected_result_set : CallError
  fetch_failed : ResultError → CallError

unfoldable pub map_execution_error : Text → ℕ → CallError
unfolding contains
map_execution_error message timeout_ms =
    if ltb 0 timeout_ms
      && (contains message (codes "R0001")
          || contains message (codes "Query terminated because timeout has been reached"))
    then timeout timeout_ms
    else execution_failed message

pub record Connection (S : Type 0) : Type 0 where
  pub transport : S
  pub session : Session
  -- `params.query_timeout`
  pub configured_timeout : Option ℕ

module _ {S : Type 0} where
  -- A request to the transport behind its lock.
  abbrev pub request :
      {A : Type 0} → (S → Result Text A × S) → Connection S → Result Text A × Connection S
  request ask c = let (r, t) = ask c.transport in (r, record c { transport = t })

  -- The error is mapped by `map_err`, and `?` returns it.
  abbrev pub await :
      {A : Type 0} → (Text → CallError) → (S → Result Text A × S) → Call (Connection S) CallError A
  await wrap ask = attempt (request ask) >>= from wrap

  abbrev pub require_ready : Call (Connection S) CallError (Unit {0})
  require_ready = read (λ c. validate_ready c.session) >>= from invalid_state

  abbrev pub count_query : Call (Connection S) CallError (Unit {0})
  count_query = modify λ c. record c { session = (increment_query_count c.session).1 }

  -- `if needs_reconcile { self.session.config_mut().query_timeout = … }`.
  abbrev pub record_timeout : Bool → Option ℕ → Connection S → Connection S
  record_timeout false timeout_ms c = c
  record_timeout true timeout_ms c = record c {
    session = record (c.session) {
      config = record (c.session.config) { query_timeout = map_millis timeout_ms };
    };
  }

  unfoldable pub applied_secs : Connection S → ℕ
  unfolding secs_or_zero
  applied_secs c = secs_or_zero c.session.config.query_timeout

  unfoldable pub in_transaction : Connection S → Bool
  in_transaction c = c.session.transaction_flag

module _ (srv : Server) where
  -- `ResultSet::from_transport_result`.
  abbrev pub from_transport_result :
      (ResultData srv → Result Text srv.Batch) → QueryResult srv → Result Text (Inner srv)
  from_transport_result first_batch (row_count n) = ok (Results.row_count n)
  from_transport_result first_batch (result_set handle rows) = elim (first_batch rows) [
    | ok b ↦ ok (stream (from_result_set srv handle rows.total_rows rows.received b))
    | err e ↦ err e
  ]

  abbrev pub row_count_or_error : Inner srv → Result CallError ℤ
  row_count_or_error (Results.row_count n) = ok n
  row_count_or_error (stream s) = err no_result_set

  abbrev pub count_or_unexpected : QueryResult srv → Result CallError ℤ
  count_or_unexpected (row_count n) = ok n
  count_or_unexpected (result_set handle rows) = err unexpected_result_set

module _ (env : Platform) (json : Json env.Float) (srv : Server)
    (tr : TransportProtocol srv json.Value) where
  abbrev pub Act : Type 0 → Type 0
  Act A = Call (Connection srv.State) CallError A

  -- `if needs_reconcile { transport.set_query_timeout(target_secs)… }`.
  abbrev pub push_timeout : Bool → ℕ → Act (Unit {0})
  push_timeout needed target =
      if needed then await execution_failed (tr.set_query_timeout target) else give tt

  -- `execute_statement` from the query on, with the seconds that are in force.
  unfoldable pub run_within : Bool → ℕ → Option ℕ → Text → Act (Inner srv)
  unfolding map_execution_error
  run_within needed target timeout_ms sql = do
    outcome ← attempt (request (tr.execute_query sql))
    modify (record_timeout needed timeout_ms)
    result ← from (λ e. map_execution_error e (min (target * 1000) (2 ^ 64 - 1))) outcome
    from execution_failed (from_transport_result srv tr.first_batch result)

  -- `execute_statement` from the built text on: the timeouts are reconciled around the query.
  unfoldable pub run_reconciled : Option ℕ → Text → Act (Inner srv)
  unfolding applied_secs secs_or_zero run_within
  run_reconciled timeout_ms sql = do
    applied ← read applied_secs
    push_timeout (not (secs_or_zero (map_millis timeout_ms) == applied))
        (secs_or_zero (map_millis timeout_ms))
    run_within (not (secs_or_zero (map_millis timeout_ms) == applied))
        (secs_or_zero (map_millis timeout_ms)) timeout_ms sql

  unfoldable pub execute_statement : Statement env.Float → Act (Inner srv)
  unfolding run_reconciled validate_ready increment_query_count
  execute_statement stmt = do
    require_ready
    count_query
    sql ← from build_failed (build_sql env stmt)
    run_reconciled stmt.timeout_ms sql

  unfoldable pub execute_statement_update : Statement env.Float → Act ℤ
  unfolding execute_statement
  execute_statement_update stmt = do
    result ← execute_statement stmt
    from (λ e. e) (row_count_or_error srv result)

  -- The timeout of the parameters, in milliseconds, becomes the statement's.
  unfoldable pub create_statement : Option ℕ → Text → Statement env.Float
  unfolding set_timeout
  create_statement none sql = Statement.new env sql
  create_statement (some d) sql =
      set_timeout (Statement.new env sql) (min (d / 10 ^ 6) (2 ^ 64 - 1))

  unfoldable pub execute : Text → Act (Inner srv)
  unfolding create_statement execute_statement
  execute sql = do
    configured ← read (λ c. c.configured_timeout)
    execute_statement (create_statement configured sql)

  unfoldable pub execute_update : Text → Act ℤ
  unfolding create_statement execute_statement_update
  execute_update sql = do
    configured ← read (λ c. c.configured_timeout)
    execute_statement_update (create_statement configured sql)

  -- `execute`, then `fetch_all` with this fuel.
  unfoldable pub query : ℕ → Text → Act (List srv.Batch)
  unfolding execute fetch_all
  query fuel sql = do
    result ← execute sql
    λ c.
        (let (pages, t) = fetch_all srv fuel result c.transport in
          from fetch_failed pages (record c { transport = t }))
