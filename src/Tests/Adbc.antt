-- ===== src/Tests/Adbc.antt =====
-- Connections and the AutoCommit option.
use exarrow_rs.Adbc.Connect.{
  ConnectionParams, connect_with_transport, forward_timeout, new_connection, open_schema,
}
use exarrow_rs.Adbc.Connect.Sound.{connect_with_transport-IsSound}
use exarrow_rs.Adbc.Connection.Ending.{Answers, after_commit, commit_ends}
use exarrow_rs.Adbc.Connection.Reach.{
  Reach, here, next, begin, committed, connected-IsSound, autocommit_stays_off,
}
use exarrow_rs.Adbc.Connection.Timeout.{IsSound}
use exarrow_rs.Adbc.Connection.Transactions.{begin_transaction_outcomes}
use exarrow_rs.Adbc.Connection.{
  Connection, transaction_refused, transaction_failed, secs_ceil, in_transaction, execute_statement,
}
use exarrow_rs.Adbc.Control.{begin_transaction, commit}
use exarrow_rs.Adbc.Options.Modes.{answer_of, commit_skipped, apply_auto_commit-stays_off}
use exarrow_rs.Adbc.Options.{FfiConnection, apply_auto_commit}
use exarrow_rs.Connection.Session.{
  ConnectionError, ensure_can_begin_transaction, in_transaction as in_transaction_state,
}
use exarrow_rs.Connection.Session
use exarrow_rs.Prelude.Int.{pos}
use exarrow_rs.Prelude.Text.{Text, codes}
use exarrow_rs.Prelude.{ℕ, true, false, none, some, ok, err, ◌≡◌, ◌⊎◌, refl}
use exarrow_rs.Query.Statement.{Statement}
use exarrow_rs.Query.Statement
use exarrow_rs.Tests.Platforms.{whole_floats, tree_json}
use exarrow_rs.Tests.Servers.{Wire, settings_server, settings_transport, wire_settings}

abbrev wire : Wire
wire = record { seconds = 0; commits_each = true; opened = none; connected = false }

-- One and a half seconds.
abbrev params : ConnectionParams
params = record { query_timeout = some 1500000000; schema = none }

abbrev connected : Connection Wire
connected = record {
  transport = record { seconds = 2; commits_each = true; opened = none; connected = true };
  session =
      Session.new (codes "s1") (codes "2025.1.11")
        (record (Session.default_config) { query_timeout = some 1500000000 });
  configured_timeout = some 1500000000;
}

connect_result :
    (connect_with_transport whole_floats tree_json settings_server settings_transport params wire).0
    ≡ ok connected
unfolding connect_with_transport forward_timeout new_connection open_schema secs_ceil
connect_result = refl

opened-IsSound :
    IsSound whole_floats tree_json settings_server settings_transport wire_settings false connected
opened-IsSound =
    connect_with_transport-IsSound whole_floats tree_json settings_server settings_transport
      wire_settings params wire connected refl connect_result

abbrev inside : Connection Wire
inside = (begin_transaction whole_floats tree_json settings_server settings_transport connected).1

abbrev to_inside : Reach whole_floats tree_json settings_server settings_transport connected inside
to_inside = next here (begin connected)

connected-IsSound_example :
    IsSound whole_floats tree_json settings_server settings_transport wire_settings false inside
connected-IsSound_example =
    connected-IsSound whole_floats tree_json settings_server settings_transport wire_settings params
      wire {c = connected} {d = inside} refl connect_result to_inside

abbrev unlimited : Statement ℕ
unlimited = Statement.new whole_floats (codes "DELETE FROM t")

inside-manual : inside.transport.commits_each ≡ false
unfolding begin_transaction Session.new Session.begin_transaction
inside-manual = refl

inside-open : in_transaction inside ≡ true
unfolding begin_transaction in_transaction Session.new Session.begin_transaction
inside-open = refl

abbrev ended : Connection Wire
ended = (commit whole_floats tree_json settings_server settings_transport inside).1

autocommit_stays_off_example : ended.transport.commits_each ≡ false
autocommit_stays_off_example =
    autocommit_stays_off whole_floats tree_json settings_server settings_transport wire_settings
      {c = inside} {d = ended} connected-IsSound_example inside-manual
      (next here (committed inside))

answers : Answers whole_floats tree_json settings_server settings_transport wire_settings
answers = record { takes_limit = λ n t. refl; commits = λ t. (pos 3, refl) }

commit_ends_example :
    ((commit whole_floats tree_json settings_server settings_transport inside).0 ≡ ok tt)
    × (ended.transport
        ≡ after_commit whole_floats tree_json settings_server settings_transport wire_settings
            inside)
    × (in_transaction ended ≡ false)
    × (ensure_can_begin_transaction ended.session ≡ ok tt)
commit_ends_example =
    commit_ends whole_floats tree_json settings_server settings_transport wire_settings inside
      connected-IsSound_example inside-open answers

begin_transaction_outcomes_example :
    ((e : ConnectionError) × (ensure_can_begin_transaction connected.session ≡ err e)
      × (begin_transaction whole_floats tree_json settings_server settings_transport connected
          ≡ (err (transaction_refused e), connected)))
    ⊎ ((e : Text) × ((settings_transport.set_autocommit false connected.transport).0 ≡ err e)
        × (begin_transaction whole_floats tree_json settings_server settings_transport connected ≡ (
          err (transaction_failed e),
          record connected { transport = record (connected.transport) { commits_each = false } },
        )))
    ⊎ (((settings_transport.set_autocommit false connected.transport).0 ≡ ok tt)
        × (begin_transaction whole_floats tree_json settings_server settings_transport connected ≡ (
          ok tt,
          record connected {
            transport = record (connected.transport) { commits_each = false };
            session = record (connected.session) {
              transaction_flag = true;
              state = in_transaction_state;
            };
          },
        )))
begin_transaction_outcomes_example =
    begin_transaction_outcomes whole_floats tree_json settings_server settings_transport connected

commit_skipped_example :
    commit whole_floats tree_json settings_server settings_transport
      (execute_statement whole_floats tree_json settings_server settings_transport unlimited
        connected).1
    ≡ (
      ok tt,
      (execute_statement whole_floats tree_json settings_server settings_transport unlimited
          connected).1,
    )
commit_skipped_example =
    commit_skipped whole_floats tree_json settings_server settings_transport wire_settings unlimited
      connected opened-IsSound (unfold in_transaction Session.new in refl)

abbrev manual : FfiConnection Wire
manual = record { params = params; inner = some inside; auto_commit = false }

apply_auto_commit-stays_off_example :
    ((in_transaction inside ≡ true)
      × (apply_auto_commit whole_floats tree_json settings_server settings_transport wire true
            manual
          ≡ (
            answer_of (commit whole_floats tree_json settings_server settings_transport inside).0,
            record manual { auto_commit = true; inner = some ended },
          ))
      × (ended.transport.commits_each ≡ false))
    ⊎ ((in_transaction inside ≡ false)
        × (apply_auto_commit whole_floats tree_json settings_server settings_transport wire true
              manual
            ≡ (ok tt, record manual { auto_commit = true; inner = some inside })))
apply_auto_commit-stays_off_example =
    apply_auto_commit-stays_off whole_floats tree_json settings_server settings_transport
      wire_settings wire manual inside refl refl connected-IsSound_example inside-manual
