-- ===== src/Adbc/Options.antt =====
-- src/adbc_ffi.rs: the transactions of `FfiConnection`, the connection behind the ADBC interface. It
-- connects on first use; `fresh` is the transport that `from_params` starts with.
pub mod Modes
use exarrow_rs.Prelude.Call.{Call, give, fail, from, read, modify, ◌>>=◌, ◌>>◌}
use exarrow_rs.Adbc.Connect.{ConnectionParams, ConnectError, connect_with_transport}
use exarrow_rs.Adbc.Connection.{Connection, CallError, Act, in_transaction}
use exarrow_rs.Adbc.Control.{begin_transaction, commit, rollback}
use exarrow_rs.Connection.Transport.{TransportProtocol}
use exarrow_rs.Prelude.{
  Bool, true, false, not, ◌||◌, Option, none, some, Result, ok, err, if◌then◌else◌,
}
use exarrow_rs.Query.Parameter.{Platform}
use exarrow_rs.Query.Prepared.{Json}
use exarrow_rs.Query.Results.{Server}

pub data FfiError : Type 0 where
  connect_failed : ConnectError → FfiError
  call_failed : CallError → FfiError
  -- "Cannot commit when autocommit is enabled", and the same for a rollback
  autocommit_enabled : FfiError

pub record FfiConnection (S : Type 0) : Type 0 where
  pub params : ConnectionParams
  pub inner : Option (Connection S)
  pub auto_commit : Bool

abbrev is_true : Bool → Bool → Bool
is_true a b = if a then b else not b

module _ (env : Platform) (json : Json env.Float) (srv : Server)
    (tr : TransportProtocol srv json.Value) (fresh : srv.State) where
  abbrev Ffi : Type 0 → Type 0
  Ffi A = Call (FfiConnection srv.State) FfiError A

  unfoldable pub ensure_connected : Ffi (Connection srv.State)
  unfolding connect_with_transport
  ensure_connected f = elim (f.inner) [
    | some c ↦ (ok c, f)
    | none ↦ elim ((connect_with_transport env json srv tr f.params fresh).0) [
      | ok c ↦ (ok c, record f { inner = some c })
      | err e ↦ (err (connect_failed e), f)
    ]
  ]

  -- A call on the connection behind its lock.
  unfoldable pub on_connection : Act env json srv tr (Unit {0}) → Ffi (Unit {0})
  unfolding ensure_connected
  on_connection call = do
    c ← ensure_connected
    λ f. (let (r, d) = call c in from call_failed r (record f { inner = some d }))

  unfoldable pub open_transaction : Ffi (Unit {0})
  unfolding on_connection begin_transaction
  open_transaction = on_connection (begin_transaction env json srv tr)

  unfoldable pub commit_open_transaction : Ffi (Unit {0})
  unfolding on_connection commit in_transaction
  commit_open_transaction =
      on_connection
        do open_now ← read in_transaction; if open_now then commit env json srv tr else give tt

  -- The option is written first, whatever becomes of the transaction.
  unfoldable pub apply_auto_commit : Bool → Ffi (Unit {0})
  unfolding open_transaction commit_open_transaction
  apply_auto_commit enabled = do
    was_enabled ← read (λ f. f.auto_commit)
    modify λ f. record f { auto_commit = enabled }
    if is_true was_enabled enabled
        then give tt
        else (if enabled then commit_open_transaction else open_transaction)

  -- `Connection::commit` of the ADBC interface.
  unfoldable pub ffi_commit : Ffi (Unit {0})
  unfolding on_connection commit
  ffi_commit = do
    enabled ← read (λ f. f.auto_commit)
    if enabled then fail autocommit_enabled else on_connection (commit env json srv tr)

  unfoldable pub ffi_rollback : Ffi (Unit {0})
  unfolding on_connection rollback
  ffi_rollback = do
    enabled ← read (λ f. f.auto_commit)
    if enabled then fail autocommit_enabled else on_connection (rollback env json srv tr)
