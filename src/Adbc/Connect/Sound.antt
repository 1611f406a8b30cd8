-- ===== src/Adbc/Connect/Sound.antt =====
-- A new connection: what it records of the timeout is what the server was sent.
use exarrow_rs.Prelude.Call.{attempt, from, ◌>>=◌}
use exarrow_rs.Prelude.Call.Keeps.{bind-eq-ok, await-state}
use exarrow_rs.Adbc.Connect.{
  ConnectionParams, connection_failed, authentication_failed, connect_with_transport,
  forward_timeout, new_connection, open_schema,
}
use exarrow_rs.Adbc.Connection.{Connection, secs_ceil, secs_or_zero, applied_secs, in_transaction}
use exarrow_rs.Adbc.Control.{set_schema}
use exarrow_rs.Adbc.Connection.Calls.{Keeps-set_schema}
use exarrow_rs.Adbc.Connection.Settings.{Settings}
use exarrow_rs.Adbc.Connection.Timeout.{IsSound}
use exarrow_rs.Connection.Session.Lifecycle.{new-IsConsistent}
use exarrow_rs.Connection.Transport.{TransportProtocol}
use exarrow_rs.Prelude.Text.{Text}
use exarrow_rs.Prelude.{
  ℕ, false, Option, none, some, ok, ◌≡◌, inl, inr, ◌∙◌, ap, arith, Result-cases,
}
use exarrow_rs.Query.Parameter.{Platform}
use exarrow_rs.Query.Prepared.{Json}
use exarrow_rs.Query.Results.{Server}

module _ (env : Platform) (json : Json env.Float) (srv : Server)
    (tr : TransportProtocol srv json.Value) (set : Settings srv json.Value tr) where
  abbrev Sound : Connection srv.State → Type 0
  Sound = IsSound env json srv tr set false

  forward_timeout-limit :
      (d : Option ℕ) (t : srv.State)
      → set.limit t ≡ 0
      → (forward_timeout env json srv tr d t).0 ≡ ok tt
      → set.limit (forward_timeout env json srv tr d t).1 ≡ secs_or_zero d
  unfolding forward_timeout secs_or_zero
  forward_timeout-limit none t z e = z
  forward_timeout-limit (some d) t z e =
      elim (Result-cases (tr.set_query_timeout (secs_ceil d) t).0) [
        | inl (u, f) ↦ ground (arith, set.set_query_timeout_ok (secs_ceil d) t f)
        | inr (x, f) ↦ ground arith
      ]

  new_connection-IsSound :
      (params : ConnectionParams) (login : Text × Text) (t : srv.State)
      → set.limit t ≡ secs_or_zero params.query_timeout
      → Sound (new_connection env json srv tr params login t)
  unfolding new_connection applied_secs in_transaction
  new_connection-IsSound params login t l = record {
    synced = l;
    consistent = new-IsConsistent login.0 login.1 _;
    manual = cc;
    stays_off = cc;
  }

  open_schema-IsSound :
      (name : Option Text) (c d : Connection srv.State)
      → Sound c
      → (open_schema env json srv tr name c).0 ≡ ok d
      → Sound d
  unfolding open_schema
  open_schema-IsSound none c d h e = let same : d ≡ c = cc in rw same h
  open_schema-IsSound (some name) c d h e =
      elim (Result-cases (set_schema env json srv tr name c).0) [
        | inl (u, f) ↦
            let kept = (Keeps-set_schema env json srv tr set false name).at c h in
            let same : d ≡ (set_schema env json srv tr name c).1 = ground arith in rw same kept
        | inr (x, f) ↦ ground arith
      ]

  -- A connection is made only where each step of the login and the settings succeeded; the timeout
  -- that its session records is then the one that the server was sent, its session is consistent, and
  -- it is in no transaction.
  pub connect_with_transport-IsSound :
      (params : ConnectionParams) (t : srv.State) (c : Connection srv.State)
      → set.limit t ≡ 0
      → (connect_with_transport env json srv tr params t).0 ≡ ok c
      → Sound c
  unfolding connect_with_transport
  connect_with_transport-IsSound params t c z e =
      let (u, connected, e1) = bind-eq-ok (attempt tr.connect >>= from connection_failed) _ t e in
      let t1 = ((attempt tr.connect >>= from connection_failed) t).1 in
      let (login, known, e2) =
        bind-eq-ok (attempt tr.authenticate >>= from authentication_failed) _ t1 e1 in
      let t2 = ((attempt tr.authenticate >>= from authentication_failed) t1).1 in
      let (v, sent, e3) =
        bind-eq-ok (forward_timeout env json srv tr params.query_timeout) _ t2 e2 in
      let z1 : set.limit t1 ≡ 0 = rw await-state ((set.connect_quiet t).0 ∙ z) in
      let z2 : set.limit t2 ≡ 0 =
        ap set.limit (await-state tr.authenticate authentication_failed t1)
        ∙ (set.authenticate_quiet t1).0
        ∙ z1 in
      open_schema-IsSound params.schema _ c
        (new_connection-IsSound params login _
          (forward_timeout-limit params.query_timeout t2 z2 sent))
        e3
