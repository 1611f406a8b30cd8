-- ===== src/Connection/Session.antt =====
-- src/connection/session.rs: session state. Each method runs to its end before the next one
-- starts, so the atomics and the lock are plain fields.
pub mod Lifecycle
use exarrow_rs.Connection.Version.{
  Version, parse_release_version, version_ge, supports_native_parquet_import as version_supports,
}
use exarrow_rs.Prelude.Text.{Text}
use exarrow_rs.Prelude.{
  ℕ, ◌+◌, ◌%◌, ◌^◌, Bool, true, false, Option, none, some, Result, ok, err, ◌>>=◌, ◌>>◌,
  if◌then◌else◌,
}

pub record SessionConfig : Type 0 where
  pub max_retries : ℕ
  pub auto_commit : Bool
  pub default_fetch_size : ℕ
  -- nanoseconds
  pub query_timeout : Option ℕ

abbrev pub default_config : SessionConfig
default_config = record {
  max_retries = 3;
  auto_commit = true;
  default_fetch_size = 1000;
  query_timeout = none;
}

pub data SessionState : Type 0 where
  ready in_transaction closing closed : SessionState

unfoldable pub can_execute : SessionState → Bool
can_execute ready = true
can_execute in_transaction = true
can_execute closing = false
can_execute closed = false

pub data ConnectionError : Type 0 where
  connection_closed : ConnectionError
  -- "Transaction already active"
  transaction_active : ConnectionError

-- Of `AuthResponseData` the methods read the release version alone.
pub record Session : Type 0 where
  pub session_id : Text
  pub server_release : Text
  pub config : SessionConfig
  pub state : SessionState
  pub query_count : ℕ
  pub transaction_flag : Bool
  -- the memo: `none` until the first parse
  pub release_version : Option (Option Version)

unfoldable pub new : Text → Text → SessionConfig → Session
new session_id server_release config = record {
  session_id = session_id;
  server_release = server_release;
  config = config;
  state = ready;
  query_count = 0;
  transaction_flag = false;
  release_version = none;
}

-- `get_or_init`.
unfoldable pub parsed_release_version : Session → Option Version × Session
parsed_release_version s = elim (s.release_version) [
  | some v ↦ (v, s)
  | none ↦
      let v = parse_release_version s.server_release in (v, record s { release_version = some v })
]

abbrev is_some_and : Option Version → (Version → Bool) → Bool
is_some_and none p = false
is_some_and (some v) p = p v

unfoldable pub supports_native_parquet_import : Session → Bool × Session
unfolding parsed_release_version version_supports
supports_native_parquet_import s =
    let (v, s') = parsed_release_version s in (is_some_and v version_supports, s')

unfoldable pub supports_at_least : Session → ℕ → ℕ → ℕ → Bool × Session
unfolding parsed_release_version version_ge
supports_at_least s major minor patch =
    let (v, s') = parsed_release_version s in
    (is_some_and v (λ version. version_ge version (major, minor, patch)), s')

unfoldable pub set_state : Session → SessionState → Session
set_state s new_state = record s { state = new_state }

-- `fetch_add` on an AtomicU64 wraps; the returned sum is u64 too.
unfoldable pub increment_query_count : Session → ℕ × Session
increment_query_count s =
    ((s.query_count + 1) % 2 ^ 64, record s { query_count = (s.query_count + 1) % 2 ^ 64 })

unfoldable pub validate_ready : Session → Result ConnectionError (Unit {0})
unfolding can_execute
validate_ready s = if can_execute s.state then ok tt else err connection_closed

unfoldable pub ensure_can_begin_transaction : Session → Result ConnectionError (Unit {0})
unfolding validate_ready
ensure_can_begin_transaction s = do
  validate_ready s
  if s.transaction_flag then err transaction_active else ok tt

unfoldable pub begin_transaction : Session → Result ConnectionError Session
unfolding ensure_can_begin_transaction set_state
begin_transaction s = do
  ensure_can_begin_transaction s
  ok (set_state (record s { transaction_flag = true }) in_transaction)

unfoldable pub commit_transaction : Session → Session
unfolding set_state
commit_transaction s =
    if s.transaction_flag then set_state (record s { transaction_flag = false }) ready else s

unfoldable pub rollback_transaction : Session → Session
unfolding set_state
rollback_transaction s =
    if s.transaction_flag then set_state (record s { transaction_flag = false }) ready else s

unfoldable pub close : Session → Session
unfolding set_state
close s =
    let closing' = set_state s closing in
    let cleaned =
      if closing'.transaction_flag
      then record closing' { transaction_flag = false }
      else closing' in
    set_state cleaned closed

unfoldable pub is_closed : Session → Bool
is_closed s = elim (s.state) [ closed ↦ true | _ ↦ false ]
