-- ===== src/Adbc/Connection/Transactions.antt =====
-- What `begin_transaction`, `commit` and `rollback` do in every case.
use exarrow_rs.Adbc.Connection.{Connection, transaction_refused, transaction_failed}
use exarrow_rs.Adbc.Control.{begin_transaction}
use exarrow_rs.Connection.Session.{
  Session, ConnectionError, ensure_can_begin_transaction, in_transaction as in_transaction_state,
}
use exarrow_rs.Connection.Session
use exarrow_rs.Connection.Transport.{TransportProtocol}
use exarrow_rs.Prelude.Text.{Text}
use exarrow_rs.Prelude.{Bool, true, false, ok, err, ◌≡◌, ◌⊎◌, inl, inr, arith, Result-cases}
use exarrow_rs.Query.Parameter.{Platform}
use exarrow_rs.Query.Prepared.{Json}
use exarrow_rs.Query.Results.{Server}

module _ (env : Platform) (json : Json env.Float) (srv : Server)
    (tr : TransportProtocol srv json.Value) where
  abbrev told : Bool → Connection srv.State → Connection srv.State
  told b c = record c { transport = (tr.set_autocommit b c.transport).1 }

  -- A transaction that the session cannot begin is refused with no request to the server; a request
  -- that fails leaves the session as it was; else autocommit is off and the session in a transaction.
  pub begin_transaction_outcomes :
      (c : Connection srv.State)
      → ((e : ConnectionError) × (ensure_can_begin_transaction c.session ≡ err e)
          × (begin_transaction env json srv tr c ≡ (err (transaction_refused e), c)))
        ⊎ ((e : Text) × ((tr.set_autocommit false c.transport).0 ≡ err e)
            × (begin_transaction env json srv tr c ≡ (err (transaction_failed e), told false c)))
        ⊎ (((tr.set_autocommit false c.transport).0 ≡ ok tt)
            × (begin_transaction env json srv tr c ≡ (
              ok tt,
              record (told false c) {
                session = record (c.session) {
                  transaction_flag = true;
                  state = in_transaction_state;
                };
              },
            )))
  unfolding begin_transaction Session.begin_transaction
  begin_transaction_outcomes c = elim (Result-cases (ensure_can_begin_transaction c.session)) [
    | inl (u, e) ↦ elim (Result-cases (tr.set_autocommit false c.transport).0) [
      | inl (v, f) ↦ inr (inr (f, ground arith))
      | inr (d, f) ↦ inr (inl (d, f, ground arith))
    ]
    | inr (d, e) ↦ inl (d, e, ground arith)
  ]
