-- ===== src/Adbc/Connection/Timeout.antt =====
-- The timeout and autocommit settings that a connection sends, and what it records of them.
use exarrow_rs.Prelude.Call.{attempt}
use exarrow_rs.Prelude.Call.Keeps.{Keeps, Keeps-modify}
use exarrow_rs.Adbc.Connection.Settings.{Settings}
use exarrow_rs.Adbc.Connection.{
  CallError, run_within, request, map_millis, record_timeout, count_query, Connection, applied_secs,
  in_transaction, run_reconciled, secs_or_zero,
}
use exarrow_rs.Connection.Transport.{TransportProtocol}
use exarrow_rs.Connection.Session.Lifecycle.{IsConsistent, Step-IsConsistent}
use exarrow_rs.Connection.Session.Lifecycle.{count_query as count_query_step}
use exarrow_rs.Connection.Session.{increment_query_count}
use exarrow_rs.Prelude.Text.{Text}
use exarrow_rs.Prelude.{
  ◌∙◌, not, ◌==◌, Bool-cases, inl, inr, ℕ, Bool, true, false, Option, Result, ok, err, ◌≡◌, refl,
  arith,
}
use exarrow_rs.Query.Parameter.{Platform}
use exarrow_rs.Query.Prepared.{Json}
use exarrow_rs.Query.Results.{Server}

module _ (env : Platform) (json : Json env.Float) (srv : Server)
    (tr : TransportProtocol srv json.Value) (set : Settings srv json.Value tr)
    (was_off : Bool) where
  -- The timeout that the session records is the one last sent, the session is consistent, and in a
  -- transaction autocommit is off.
  pub record IsSound (c : Connection srv.State) : Type 0 where
    pub synced : set.limit c.transport ≡ applied_secs c
    pub consistent : IsConsistent c.session
    pub manual : in_transaction c ≡ true → set.autocommit c.transport ≡ false
    -- autocommit is off if it was at a time that `was_off` tells of
    pub stays_off : was_off ≡ true → set.autocommit c.transport ≡ false

  abbrev IsQuiet : {A : Type 0} → (srv.State → Result Text A × srv.State) → Type 0
  IsQuiet ask =
      (t : srv.State)
      → (set.limit (ask t).1 ≡ set.limit t) × (set.autocommit (ask t).1 ≡ set.autocommit t)

  pub Keeps-request :
      {A : Type 0} (ask : srv.State → Result Text A × srv.State)
      → IsQuiet ask
      → Keeps {E = CallError} IsSound (attempt (request ask))
  unfolding applied_secs in_transaction
  Keeps-request ask quiet = record {
    at = λ c h. record {
      synced = (quiet c.transport).0 ∙ h.synced;
      consistent = h.consistent;
      manual = λ e. (quiet c.transport).1 ∙ h.manual e;
      stays_off = λ e. (quiet c.transport).1 ∙ h.stays_off e;
    };
  }

  pub Keeps-count_query : Keeps {S = Connection srv.State} IsSound count_query
  unfolding applied_secs in_transaction increment_query_count
  Keeps-count_query = Keeps-modify _ λ c h. record {
    synced = h.synced;
    consistent = Step-IsConsistent (count_query_step c.session) tt h.consistent;
    manual = h.manual;
    stays_off = h.stays_off;
  }

  IsSound-record_timeout :
      (c : Connection srv.State) (timeout_ms : Option ℕ) (needed : Bool) (t : srv.State)
      → not (secs_or_zero (map_millis timeout_ms) == applied_secs c) ≡ needed
      → set.limit t ≡ secs_or_zero (map_millis timeout_ms)
      → set.autocommit t ≡ set.autocommit c.transport
      → IsSound c
      → IsSound (record_timeout needed timeout_ms (record c { transport = t }))
  unfolding applied_secs in_transaction
  IsSound-record_timeout c timeout_ms false t e l a h = record {
    synced = ground arith;
    consistent = h.consistent;
    manual = λ i. a ∙ h.manual i;
    stays_off = λ i. a ∙ h.stays_off i;
  }
  IsSound-record_timeout c timeout_ms true t e l a h = record {
    synced = l;
    consistent = record {
      flag_agrees = h.consistent.flag_agrees;
      not_closing = h.consistent.not_closing;
      memo = h.consistent.memo;
    };
    manual = λ i. a ∙ h.manual i;
    stays_off = λ i. a ∙ h.stays_off i;
  }

  -- What is left of the connection when the query has run, whether it gave a result or an error.
  pub run_within-state :
      (needed : Bool) (target : ℕ) (timeout_ms : Option ℕ) (sql : Text) (c : Connection srv.State)
      → (run_within env json srv tr needed target timeout_ms sql c).1
        ≡ record_timeout needed timeout_ms
            (record c { transport = (tr.execute_query sql c.transport).1 })
  unfolding run_within
  run_within-state needed target timeout_ms sql c = ground arith

  IsSound-run_within :
      (c : Connection srv.State) (timeout_ms : Option ℕ) (sql : Text) (needed : Bool)
      (t : srv.State)
      → not (secs_or_zero (map_millis timeout_ms) == applied_secs c) ≡ needed
      → set.limit t ≡ secs_or_zero (map_millis timeout_ms)
      → set.autocommit t ≡ set.autocommit c.transport
      → IsSound c
      → IsSound
          (run_within env json srv tr needed
            (secs_or_zero (map_millis timeout_ms))
            timeout_ms
            sql
            (record c { transport = t })).1
  IsSound-run_within c timeout_ms sql needed t e l a h =
      let q = set.execute_query_quiet sql t in
      rw run_within-state (IsSound-record_timeout c timeout_ms needed _ e (q.0 ∙ l) (q.1 ∙ a) h)

  IsSound-pushed :
      (c : Connection srv.State) (timeout_ms : Option ℕ) (sql : Text) (r : Result Text (Unit {0}))
      → (tr.set_query_timeout (secs_or_zero (map_millis timeout_ms)) c.transport).0 ≡ r
      → not (secs_or_zero (map_millis timeout_ms) == applied_secs c) ≡ true
      → IsSound c
      → IsSound (run_reconciled env json srv tr timeout_ms sql c).1
  unfolding run_reconciled
  IsSound-pushed c timeout_ms sql (ok u) e needed h =
      let step : (run_reconciled env json srv tr timeout_ms sql c).1
          ≡ (run_within env json srv tr true (secs_or_zero (map_millis timeout_ms)) timeout_ms sql
              (record c {
                transport =
                    (tr.set_query_timeout (secs_or_zero (map_millis timeout_ms)) c.transport).1;
              })).1 =
        ground arith in
      rw step (
        IsSound-run_within c timeout_ms sql true _ needed (set.set_query_timeout_ok _ _ e)
          (set.set_query_timeout_autocommit _ _) h)
  IsSound-pushed c timeout_ms sql (err d) e needed h =
      let step : (run_reconciled env json srv tr timeout_ms sql c).1 ≡ record c {
        transport = (tr.set_query_timeout (secs_or_zero (map_millis timeout_ms)) c.transport).1;
      } =
        ground arith in
      rw step (record {
        synced = unfold applied_secs in (set.set_query_timeout_err _ _ d e ∙ h.synced);
        consistent = h.consistent;
        manual = λ i. set.set_query_timeout_autocommit _ _ ∙ h.manual (unfold in_transaction in i);
        stays_off = λ i. set.set_query_timeout_autocommit _ _ ∙ h.stays_off i;
      })

  pub Keeps-run_reconciled :
      (timeout_ms : Option ℕ) (sql : Text)
      → Keeps IsSound (run_reconciled env json srv tr timeout_ms sql)
  Keeps-run_reconciled timeout_ms sql = record {
    at = λ c h. elim (Bool-cases (not (secs_or_zero (map_millis timeout_ms) == applied_secs c))) [
      | inl needed ↦ IsSound-pushed c timeout_ms sql _ refl needed h
      | inr same ↦
          let step : (run_reconciled env json srv tr timeout_ms sql c).1
              ≡ (run_within env json srv tr false (secs_or_zero (map_millis timeout_ms)) timeout_ms
                  sql c).1 =
            unfold run_reconciled in rw same in
          rw step (IsSound-run_within c timeout_ms sql false c.transport same (ground arith) refl h)
    ];
  }
