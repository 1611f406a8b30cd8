-- ===== src/Tests/Servers.antt =====
-- A concrete server with session settings, and the transport to it.
use exarrow_rs.Adbc.Connection.Settings.{Settings}
use exarrow_rs.Connection.Transport.{TransportProtocol, row_count}
use exarrow_rs.Prelude.Int.{pos}
use exarrow_rs.Prelude.Text.{Text, codes}
use exarrow_rs.Prelude.{ℕ, Bool, true, false, Option, some, ok, err, ◌≡◌, refl, ◌==◌}
use exarrow_rs.Query.Results.{Server}
use exarrow_rs.Tests.Platforms.{JsonValue}

pub record Wire : Type 0 where
  pub seconds : ℕ
  pub commits_each : Bool
  pub opened : Option Text
  pub connected : Bool

-- A payload and a batch are row counts; there are no more pages.
abbrev pub settings_server : Server
settings_server = record {
  State = Wire;
  Payload = ℕ;
  Batch = ℕ;
  fetch_results = λ t h. (err (codes "no page"), t);
  close_result_set = λ t h. t;
  is_empty = λ p. p == 0;
  to_batch = λ p. ok p;
  num_rows = λ b. b;
}

-- Every query changes three rows, and no request fails.
abbrev pub settings_transport : TransportProtocol settings_server JsonValue
settings_transport = record {
  connect = λ t. (ok tt, record t { connected = true });
  authenticate = λ t. (ok (codes "s1", codes "2025.1.11"), t);
  execute_query = λ sql t. (ok (row_count (pos 3)), t);
  create_prepared_statement = λ sql t. (ok (pos 7, 1), t);
  execute_prepared_statement = λ h columns t. (ok (row_count (pos 1)), t);
  close_prepared_statement = λ h t. (ok tt, t);
  set_autocommit = λ b t. (ok tt, record t { commits_each = b });
  set_query_timeout = λ n t. (ok tt, record t { seconds = n });
  set_current_schema = λ name t. (ok tt, record t { opened = some name });
  refresh_current_schema = λ t. (ok t.opened, t);
  current_schema = λ t. t.opened;
  close = λ t. (ok tt, record t { connected = false });
  terminate = λ t. record t { connected = false };
  is_connected = λ t. t.connected;
  first_batch = λ rows. ok rows.payload;
}

pub never_refused_limit :
    (n : ℕ) (t : Wire) (e : Text)
    → (settings_transport.set_query_timeout n t).0 ≡ err e
    → (settings_transport.set_query_timeout n t).1.seconds ≡ t.seconds
never_refused_limit n t e failed = cc

pub never_refused_mode :
    (b : Bool) (t : Wire) (e : Text)
    → (settings_transport.set_autocommit b t).0 ≡ err e
    → (settings_transport.set_autocommit b t).1.commits_each ≡ t.commits_each
never_refused_mode b t e failed = cc

abbrev pub wire_settings : Settings settings_server JsonValue settings_transport
wire_settings = record {
  limit = λ t. t.seconds;
  autocommit = λ t. t.commits_each;
  set_query_timeout_ok = λ n t e. refl;
  set_query_timeout_err = never_refused_limit;
  set_query_timeout_autocommit = λ n t. refl;
  set_autocommit_ok = λ b t e. refl;
  set_autocommit_err = never_refused_mode;
  set_autocommit_limit = λ b t. refl;
  execute_query_quiet = λ sql t. (refl, refl);
  create_quiet = λ sql t. (refl, refl);
  execute_prepared_quiet = λ h columns t. (refl, refl);
  close_prepared_quiet = λ h t. (refl, refl);
  set_schema_quiet = λ name t. (refl, refl);
  refresh_quiet = λ t. (refl, refl);
  close_quiet = λ t. (refl, refl);
  connect_quiet = λ t. (refl, refl);
  authenticate_quiet = λ t. (refl, refl);
  fetch_results_quiet = λ h t. (refl, refl);
  close_result_set_quiet = λ h t. (refl, refl);
}
