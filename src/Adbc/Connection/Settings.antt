-- ===== src/Adbc/Connection/Settings.antt =====
-- The attributes queryTimeout and autocommit of a server session, as requests change them.
use exarrow_rs.Connection.Transport.{TransportProtocol}
use exarrow_rs.Prelude.Int.{ℤ}
use exarrow_rs.Prelude.Text.{Text}
use exarrow_rs.Prelude.{ℕ, Bool, List, Option, ok, err, ◌≡◌}
use exarrow_rs.Query.Results.{Server}

-- What the driver last asked of the server through the attributes queryTimeout (0 until then) and
-- autocommit. The requests for attributes change theirs where they succeed; no other request does.
pub record Settings (srv : Server) (V : Type 0) (tr : TransportProtocol srv V) : Type 0 where
  pub limit : srv.State → ℕ
  pub autocommit : srv.State → Bool
  pub set_query_timeout_ok :
      (n : ℕ) (t : srv.State)
      → (tr.set_query_timeout n t).0 ≡ ok tt
      → limit (tr.set_query_timeout n t).1 ≡ n
  pub set_query_timeout_err :
      (n : ℕ) (t : srv.State) (e : Text)
      → (tr.set_query_timeout n t).0 ≡ err e
      → limit (tr.set_query_timeout n t).1 ≡ limit t
  pub set_query_timeout_autocommit :
      (n : ℕ) (t : srv.State) → autocommit (tr.set_query_timeout n t).1 ≡ autocommit t
  pub set_autocommit_ok :
      (b : Bool) (t : srv.State)
      → (tr.set_autocommit b t).0 ≡ ok tt
      → autocommit (tr.set_autocommit b t).1 ≡ b
  pub set_autocommit_err :
      (b : Bool) (t : srv.State) (e : Text)
      → (tr.set_autocommit b t).0 ≡ err e
      → autocommit (tr.set_autocommit b t).1 ≡ autocommit t
  pub set_autocommit_limit : (b : Bool) (t : srv.State) → limit (tr.set_autocommit b t).1 ≡ limit t
  pub execute_query_quiet :
      (sql : Text) (t : srv.State)
      → (limit (tr.execute_query sql t).1 ≡ limit t)
        × (autocommit (tr.execute_query sql t).1 ≡ autocommit t)
  pub create_quiet :
      (sql : Text) (t : srv.State)
      → (limit (tr.create_prepared_statement sql t).1 ≡ limit t)
        × (autocommit (tr.create_prepared_statement sql t).1 ≡ autocommit t)
  pub execute_prepared_quiet :
      (h : ℤ) (columns : Option (List (List V))) (t : srv.State)
      → (limit (tr.execute_prepared_statement h columns t).1 ≡ limit t)
        × (autocommit (tr.execute_prepared_statement h columns t).1 ≡ autocommit t)
  pub close_prepared_quiet :
      (h : ℤ) (t : srv.State)
      → (limit (tr.close_prepared_statement h t).1 ≡ limit t)
        × (autocommit (tr.close_prepared_statement h t).1 ≡ autocommit t)
  pub set_schema_quiet :
      (name : Text) (t : srv.State)
      → (limit (tr.set_current_schema name t).1 ≡ limit t)
        × (autocommit (tr.set_current_schema name t).1 ≡ autocommit t)
  pub refresh_quiet :
      (t : srv.State)
      → (limit (tr.refresh_current_schema t).1 ≡ limit t)
        × (autocommit (tr.refresh_current_schema t).1 ≡ autocommit t)
  pub close_quiet :
      (t : srv.State)
      → (limit (tr.close t).1 ≡ limit t) × (autocommit (tr.close t).1 ≡ autocommit t)
  pub connect_quiet :
      (t : srv.State)
      → (limit (tr.connect t).1 ≡ limit t) × (autocommit (tr.connect t).1 ≡ autocommit t)
  pub authenticate_quiet :
      (t : srv.State)
      → (limit (tr.authenticate t).1 ≡ limit t) × (autocommit (tr.authenticate t).1 ≡ autocommit t)
  pub fetch_results_quiet :
      (h : ℤ) (t : srv.State)
      → (limit (srv.fetch_results t h).1 ≡ limit t)
        × (autocommit (srv.fetch_results t h).1 ≡ autocommit t)
  pub close_result_set_quiet :
      (h : ℤ) (t : srv.State)
      → (limit (srv.close_result_set t h) ≡ limit t)
        × (autocommit (srv.close_result_set t h) ≡ autocommit t)
