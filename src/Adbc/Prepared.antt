-- ===== src/Adbc/Prepared.antt =====
-- src/adbc/connection.rs: prepared statements and batches on a connection.
use exarrow_rs.Prelude.Call.{give, fail, from, ◌>>=◌, ◌>>◌}
use exarrow_rs.Connection.Session.{validate_ready, increment_query_count}
use exarrow_rs.Connection.Transport.{TransportProtocol, QueryResult}
use exarrow_rs.Prelude.Int.{ℤ}
use exarrow_rs.Prelude.Text.{Text}
use exarrow_rs.Prelude.{List, Option, if◌then◌else◌}
use exarrow_rs.Query.Parameter.{Platform, Parameter}
use exarrow_rs.Query.Prepared.{
  Json, PreparedStatement, mark_closed, build_parameters_data, build_batch_parameters_data,
}
use exarrow_rs.Query.Prepared
use exarrow_rs.Query.Results.{Server, Inner}
use exarrow_rs.Adbc.Connection.{
  Act, build_failed, execution_failed, statement_closed, require_ready, count_query, await,
  from_transport_result, count_or_unexpected,
}

module _ (env : Platform) (json : Json env.Float) (srv : Server)
    (tr : TransportProtocol srv json.Value) where
  unfoldable pub prepare : Text → Act env json srv tr (PreparedStatement env.Float)
  unfolding validate_ready
  prepare sql = do
    require_ready
    handle ← await execution_failed (tr.create_prepared_statement sql)
    give (Prepared.new handle.0 handle.1)

  abbrev require_not_closed : PreparedStatement env.Float → Act env json srv tr (Unit {0})
  require_not_closed stmt = if stmt.is_closed then fail statement_closed else give tt

  abbrev run_prepared :
      PreparedStatement env.Float
      → Option (List (List json.Value))
      → Act env json srv tr (QueryResult srv)
  run_prepared stmt columns =
      await execution_failed (tr.execute_prepared_statement stmt.handle columns)

  unfoldable pub execute_prepared : PreparedStatement env.Float → Act env json srv tr (Inner srv)
  unfolding validate_ready increment_query_count
  execute_prepared stmt = do
    require_not_closed stmt
    require_ready
    count_query
    columns ← from build_failed (build_parameters_data env json stmt)
    result ← run_prepared stmt columns
    from execution_failed (from_transport_result srv tr.first_batch result)

  -- The query counter stays.
  unfoldable pub execute_prepared_update : PreparedStatement env.Float → Act env json srv tr ℤ
  unfolding validate_ready
  execute_prepared_update stmt = do
    require_not_closed stmt
    require_ready
    columns ← from build_failed (build_parameters_data env json stmt)
    result ← run_prepared stmt columns
    from (λ e. e) (count_or_unexpected srv result)

  unfoldable pub execute_batch_update :
      PreparedStatement env.Float → List (List (Parameter env.Float)) → Act env json srv tr ℤ
  unfolding validate_ready
  execute_batch_update stmt rows = do
    require_not_closed stmt
    require_ready
    columns ← from build_failed (build_batch_parameters_data env json stmt rows)
    result ← run_prepared stmt columns
    from (λ e. e) (count_or_unexpected srv result)

  unfoldable pub execute_batch :
      PreparedStatement env.Float
      → List (List (Parameter env.Float))
      → Act env json srv tr (Inner srv)
  unfolding validate_ready increment_query_count
  execute_batch stmt rows = do
    require_not_closed stmt
    require_ready
    count_query
    columns ← from build_failed (build_batch_parameters_data env json stmt rows)
    result ← run_prepared stmt columns
    from execution_failed (from_transport_result srv tr.first_batch result)

  -- The statement is consumed.
  unfoldable pub close_prepared : PreparedStatement env.Float → Act env json srv tr (Unit {0})
  close_prepared stmt =
      if stmt.is_closed
      then give tt
      else await execution_failed (tr.close_prepared_statement stmt.handle)
