-- ===== src/Adbc/Connect.antt =====
-- src/adbc/connection.rs: `connect_with_transport`, from a transport to a connection.
pub mod Sound
use exarrow_rs.Prelude.Call.{Call, give, from, attempt, ◌>>=◌, ◌>>◌}
use exarrow_rs.Prelude.Call.Keeps.{Keeps}
use exarrow_rs.Adbc.Connection.{
  Connection, CallError, secs_ceil, secs_or_zero, applied_secs, in_transaction,
}
use exarrow_rs.Adbc.Control.{set_schema, shutdown}
use exarrow_rs.Adbc.Connection.Calls.{Keeps-set_schema}
use exarrow_rs.Adbc.Connection.Settings.{Settings}
use exarrow_rs.Adbc.Connection.Timeout.{IsSound}
use exarrow_rs.Connection.Session.Lifecycle.{Reach-IsConsistent, here}
use exarrow_rs.Connection.Session.{default_config, new}
use exarrow_rs.Connection.Transport.{TransportProtocol}
use exarrow_rs.Prelude.Text.{Text}
use exarrow_rs.Prelude.{
  ℕ, Option, none, some, Result, ok, err, ◌≡◌, ◌⊎◌, inl, inr, refl, ◌∙◌, arith, Result-cases,
}
use exarrow_rs.Query.Parameter.{Platform}
use exarrow_rs.Query.Prepared.{Json}
use exarrow_rs.Query.Results.{Server}

-- Of the parameters, those that the steps after the login read.
pub record ConnectionParams : Type 0 where
  -- nanoseconds
  pub query_timeout : Option ℕ
  pub schema : Option Text

pub data ConnectError : Type 0 where
  connection_failed : Text → ConnectError
  authentication_failed : Text → ConnectError
  -- "failed to set query timeout"
  timeout_failed : Text → ConnectError
  -- "failed to set schema … from the connection parameters"
  schema_failed : Text → CallError → ConnectError

module _ (env : Platform) (json : Json env.Float) (srv : Server)
    (tr : TransportProtocol srv json.Value) where
  abbrev Setup : Type 0 → Type 0
  Setup A = Call srv.State ConnectError A

  -- The configured timeout is sent; without one, no request is made.
  unfoldable pub forward_timeout : Option ℕ → Setup (Unit {0})
  unfolding secs_ceil
  forward_timeout none = give tt
  forward_timeout (some d) = attempt (tr.set_query_timeout (secs_ceil d)) >>= from timeout_failed

  unfoldable pub new_connection : ConnectionParams → Text × Text → srv.State → Connection srv.State
  unfolding new
  new_connection params login t = record {
    transport = t;
    session = new login.0 login.1 (record default_config { query_timeout = params.query_timeout });
    configured_timeout = params.query_timeout;
  }

  -- Where the schema is rejected, the connection is shut down, and what that gives is dropped.
  unfoldable pub open_schema :
      Option Text → Connection srv.State → Result ConnectError (Connection srv.State) × srv.State
  unfolding set_schema shutdown
  open_schema none c = (ok c, c.transport)
  open_schema (some name) c =
      let (r, d) = set_schema env json srv tr name c in
      elim r [
        | ok u ↦ (ok d, d.transport)
        | err e ↦ (err (schema_failed name e), (shutdown env json srv tr d).1.transport)
      ]

  unfoldable pub connect_with_transport : ConnectionParams → Setup (Connection srv.State)
  unfolding forward_timeout new_connection open_schema
  connect_with_transport params = do
    attempt tr.connect >>= from connection_failed
    login ← attempt tr.authenticate >>= from authentication_failed
    forward_timeout params.query_timeout
    λ t. open_schema params.schema (new_connection params login t)
