-- ===== src/Connection/Transport.antt =====
-- src/transport/protocol.rs: `TransportProtocol`, what a connection asks of the transport behind its
-- lock, and `QueryResult`. An error is the text that `to_string` gives; what became of the socket is
-- in the state. The data of a result set keeps what `from_transport_result` reads of it.
use exarrow_rs.Prelude.Int.{ℤ}
use exarrow_rs.Prelude.Text.{Text}
use exarrow_rs.Prelude.{ℕ, Bool, List, Option, Result}
use exarrow_rs.Query.Results.{Server}

-- `ResultData`: the rows, of which `received` came, and how many there are in total.
pub record ResultData (srv : Server) : Type 0 where
  pub payload : srv.Payload
  pub received : ℕ
  pub total_rows : ℤ

pub data QueryResult (srv : Server) : Type 0 where
  result_set : Option ℤ → ResultData srv → QueryResult srv
  row_count : ℤ → QueryResult srv

-- The handle of a prepared statement and its number of parameters.
abbrev pub PreparedHandle : Type 0
PreparedHandle = ℤ × ℕ

pub record TransportProtocol (srv : Server) (V : Type 0) : Type 0 where
  -- `connect` and `authenticate`, with the parameters and credentials of one connection; a login
  -- gives the session id and the release version
  pub connect : srv.State → Result Text (Unit {0}) × srv.State
  pub authenticate : srv.State → Result Text (Text × Text) × srv.State
  pub execute_query : Text → srv.State → Result Text (QueryResult srv) × srv.State
  pub create_prepared_statement : Text → srv.State → Result Text PreparedHandle × srv.State
  pub execute_prepared_statement :
      ℤ → Option (List (List V)) → srv.State → Result Text (QueryResult srv) × srv.State
  pub close_prepared_statement : ℤ → srv.State → Result Text (Unit {0}) × srv.State
  pub set_autocommit : Bool → srv.State → Result Text (Unit {0}) × srv.State
  -- whole seconds; 0 is no limit
  pub set_query_timeout : ℕ → srv.State → Result Text (Unit {0}) × srv.State
  pub set_current_schema : Text → srv.State → Result Text (Unit {0}) × srv.State
  pub refresh_current_schema : srv.State → Result Text (Option Text) × srv.State
  pub current_schema : srv.State → Option Text
  pub close : srv.State → Result Text (Unit {0}) × srv.State
  -- without a request: the response that is under way is given up
  pub terminate : srv.State → srv.State
  pub is_connected : srv.State → Bool
  -- the first batch of a result set, built from its columns and its payload
  pub first_batch : ResultData srv → Result Text srv.Batch
