-- ===== src/Adbc/Connection/Reach.antt =====
-- The calls on a connection as a step relation, and what holds in every state that they reach.
use exarrow_rs.Adbc.Connection.Settings.{Settings}
use exarrow_rs.Adbc.Connection.Calls.{
  Keeps-begin_transaction, Keeps-close_prepared, Keeps-commit, Keeps-execute_batch,
  Keeps-execute_batch_update, Keeps-execute_prepared, Keeps-execute_prepared_update,
  Keeps-execute_statement, Keeps-execute_update, Keeps-prepare, Keeps-refresh_current_schema,
  Keeps-rollback, Keeps-set_schema, Keeps-shutdown,
}
use exarrow_rs.Adbc.Connection.Timeout.{IsSound, Keeps-request}
use exarrow_rs.Adbc.Connect.{ConnectionParams, connect_with_transport}
use exarrow_rs.Adbc.Connect.Sound.{connect_with_transport-IsSound}
use exarrow_rs.Adbc.Connection.{Connection, execute_statement, execute_update}
use exarrow_rs.Adbc.Control.{
  rollback, refresh_current_schema, shutdown, begin_transaction, set_schema, commit,
}
use exarrow_rs.Adbc.Prepared.{
  execute_prepared, execute_prepared_update, execute_batch, execute_batch_update, close_prepared,
  prepare,
}
use exarrow_rs.Connection.Transport.{TransportProtocol}
use exarrow_rs.Prelude.Int.{ℤ}
use exarrow_rs.Prelude.Text.{Text}
use exarrow_rs.Prelude.{Bool, true, false, List, ok, ◌≡◌, refl}
use exarrow_rs.Query.Statement.{Statement}
use exarrow_rs.Query.Parameter.{Platform, Parameter}
use exarrow_rs.Query.Prepared.{Json, PreparedStatement}
use exarrow_rs.Query.Results.{Server}

module _ (env : Platform) (json : Json env.Float) (srv : Server)
    (tr : TransportProtocol srv json.Value) where
  -- One call on the connection; or a page of a result set that it handed out, fetched or closed
  -- between the calls.
  pub data Step : Connection srv.State → Connection srv.State → Type 0 where
    statement :
        (stmt : Statement env.Float) (c : Connection srv.State)
        → Step c (execute_statement env json srv tr stmt c).1
    update :
        (sql : Text) (c : Connection srv.State) → Step c (execute_update env json srv tr sql c).1
    prepared : (sql : Text) (c : Connection srv.State) → Step c (prepare env json srv tr sql c).1
    run_prepared :
        (stmt : PreparedStatement env.Float) (c : Connection srv.State)
        → Step c (execute_prepared env json srv tr stmt c).1
    update_prepared :
        (stmt : PreparedStatement env.Float) (c : Connection srv.State)
        → Step c (execute_prepared_update env json srv tr stmt c).1
    batch :
        (stmt : PreparedStatement env.Float) (rows : List (List (Parameter env.Float)))
        (c : Connection srv.State)
        → Step c (execute_batch env json srv tr stmt rows c).1
    update_batch :
        (stmt : PreparedStatement env.Float) (rows : List (List (Parameter env.Float)))
        (c : Connection srv.State)
        → Step c (execute_batch_update env json srv tr stmt rows c).1
    drop_prepared :
        (stmt : PreparedStatement env.Float) (c : Connection srv.State)
        → Step c (close_prepared env json srv tr stmt c).1
    begin : (c : Connection srv.State) → Step c (begin_transaction env json srv tr c).1
    committed : (c : Connection srv.State) → Step c (commit env json srv tr c).1
    rolled_back : (c : Connection srv.State) → Step c (rollback env json srv tr c).1
    schema : (name : Text) (c : Connection srv.State) → Step c (set_schema env json srv tr name c).1
    refreshed : (c : Connection srv.State) → Step c (refresh_current_schema env json srv tr c).1
    shut : (c : Connection srv.State) → Step c (shutdown env json srv tr c).1
    fetched :
        (h : ℤ) (c : Connection srv.State)
        → Step c (record c { transport = (srv.fetch_results c.transport h).1 })
    page_closed :
        (h : ℤ) (c : Connection srv.State)
        → Step c (record c { transport = srv.close_result_set c.transport h })

  pub data Reach (c : Connection srv.State) : Connection srv.State → Type 0 where
    here : Reach c c
    next : {d e : Connection srv.State} → Reach c d → Step d e → Reach c e

module _ (env : Platform) (json : Json env.Float) (srv : Server)
    (tr : TransportProtocol srv json.Value) (set : Settings srv json.Value tr)
    (was_off : Bool) where
  abbrev Sound : Connection srv.State → Type 0
  Sound = IsSound env json srv tr set was_off

  Step-IsSound : {c d : Connection srv.State} → Step env json srv tr c d → Sound c → Sound d
  Step-IsSound (statement stmt c) h =
      (Keeps-execute_statement env json srv tr set was_off stmt).at c h
  Step-IsSound (update sql c) h = (Keeps-execute_update env json srv tr set was_off sql).at c h
  Step-IsSound (prepared sql c) h = (Keeps-prepare env json srv tr set was_off sql).at c h
  Step-IsSound (run_prepared stmt c) h =
      (Keeps-execute_prepared env json srv tr set was_off stmt).at c h
  Step-IsSound (update_prepared stmt c) h =
      (Keeps-execute_prepared_update env json srv tr set was_off stmt).at c h
  Step-IsSound (batch stmt rows c) h =
      (Keeps-execute_batch env json srv tr set was_off stmt rows).at c h
  Step-IsSound (update_batch stmt rows c) h =
      (Keeps-execute_batch_update env json srv tr set was_off stmt rows).at c h
  Step-IsSound (drop_prepared stmt c) h =
      (Keeps-close_prepared env json srv tr set was_off stmt).at c h
  Step-IsSound (begin c) h = (Keeps-begin_transaction env json srv tr set was_off).at c h
  Step-IsSound (committed c) h = (Keeps-commit env json srv tr set was_off).at c h
  Step-IsSound (rolled_back c) h = (Keeps-rollback env json srv tr set was_off).at c h
  Step-IsSound (schema name c) h = (Keeps-set_schema env json srv tr set was_off name).at c h
  Step-IsSound (refreshed c) h = (Keeps-refresh_current_schema env json srv tr set was_off).at c h
  Step-IsSound (shut c) h = (Keeps-shutdown env json srv tr set was_off).at c h
  Step-IsSound (fetched hd c) h =
      (Keeps-request env json srv tr set was_off (λ t. srv.fetch_results t hd)
          (set.fetch_results_quiet hd)).at
        c h
  Step-IsSound (page_closed hd c) h =
      (Keeps-request env json srv tr set was_off (λ t. (ok tt, srv.close_result_set t hd))
          (set.close_result_set_quiet hd)).at
        c h

  Reach-IsSound : {c d : Connection srv.State} → Reach env json srv tr c d → Sound c → Sound d
  Reach-IsSound here h = h
  Reach-IsSound (next r st) h = Step-IsSound st (Reach-IsSound r h)

module _ (env : Platform) (json : Json env.Float) (srv : Server)
    (tr : TransportProtocol srv json.Value) (set : Settings srv json.Value tr) where
  -- Whatever calls are made on a new connection, in whatever order and with whatever results, its
  -- timeout stays the one last sent to the server, its session stays consistent, and in a transaction
  -- autocommit is off on the server.
  pub connected-IsSound :
      (params : ConnectionParams) (t : srv.State) {c d : Connection srv.State}
      → set.limit t ≡ 0
      → (connect_with_transport env json srv tr params t).0 ≡ ok c
      → Reach env json srv tr c d
      → IsSound env json srv tr set false d
  connected-IsSound params t {c} z e r =
      Reach-IsSound env json srv tr set false r
        (connect_with_transport-IsSound env json srv tr set params t c z e)

  -- No call on a connection that records what it sent turns autocommit on again: once it is off on the
  -- server, it stays off, a commit or a rollback included.
  pub autocommit_stays_off :
      {c d : Connection srv.State}
      → IsSound env json srv tr set false c
      → set.autocommit c.transport ≡ false
      → Reach env json srv tr c d
      → set.autocommit d.transport ≡ false
  autocommit_stays_off {c} h off r =
      let noted : IsSound env json srv tr set true c = record {
        synced = h.synced;
        consistent = h.consistent;
        manual = h.manual;
        stays_off = λ e. off;
      } in
      (Reach-IsSound env json srv tr set true r noted).stays_off refl
