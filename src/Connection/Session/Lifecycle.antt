-- ===== src/Connection/Session/Lifecycle.antt =====
-- The session's life cycle as a step relation, and what holds in every state that it reaches.
use exarrow_rs.Connection.Session.{
  ready, in_transaction, closing, closed, connection_closed, transaction_active, Session,
  SessionConfig, SessionState, new, parsed_release_version, increment_query_count,
  begin_transaction, commit_transaction, rollback_transaction, close, is_closed, set_state,
}
use exarrow_rs.Connection.Version.{parse_release_version}
use exarrow_rs.Prelude.Text.{Text}
use exarrow_rs.Prelude.{Bool, true, false, none, some, ◌≡◌, ◌≢◌, ◌⊎◌, refl, arith, ok, err}

-- One call on a session. A refused `begin_transaction` changes nothing.
pub data Step : Session → Session → Type 0 where
  begin : {s t : Session} → begin_transaction s ≡ ok t → Step s t
  commit : (s : Session) → Step s (commit_transaction s)
  rollback : (s : Session) → Step s (rollback_transaction s)
  count_query : (s : Session) → Step s (increment_query_count s).1
  ask_version : (s : Session) → Step s (parsed_release_version s).1
  shut : (s : Session) → Step s (close s)
  force : (s : Session) (state : SessionState) → Step s (set_state s state)

pub data Reach (s : Session) : Session → Type 0 where
  here : Reach s s
  next : {t u : Session} → Reach s t → Step t u → Reach s u

-- A call other than `set_state`, with which a caller puts a session in a state of its choice.
abbrev pub IsCall : {s t : Session} → Step s t → Type 0
IsCall (begin e) = Unit
IsCall (commit s) = Unit
IsCall (rollback s) = Unit
IsCall (count_query s) = Unit
IsCall (ask_version s) = Unit
IsCall (shut s) = Unit
IsCall (force s state) = ⊥

-- No caller forced the state on the way.
abbrev pub Unforced : {s t : Session} → Reach s t → Type 0
Unforced here = Unit
Unforced (next r st) = Unforced r × IsCall st

abbrev pub is_open : SessionState → Bool
is_open in_transaction = true
is_open _ = false

-- The flag and the state agree, no call leaves the session closing, and the memo holds the parse.
pub record IsConsistent (s : Session) : Type 0 where
  pub flag_agrees : s.transaction_flag ≡ is_open s.state
  pub not_closing : s.state ≢ closing
  pub memo :
      (s.release_version ≡ none)
      ⊎ (s.release_version ≡ some (parse_release_version s.server_release))

pub Step-IsConsistent :
    {s t : Session} (st : Step s t) → IsCall st → IsConsistent s → IsConsistent t
unfolding begin_transaction commit_transaction rollback_transaction increment_query_count
    parsed_release_version close
Step-IsConsistent (begin e) k h = ground arith
Step-IsConsistent (commit s) k h = ground arith
Step-IsConsistent (rollback s) k h = ground arith
Step-IsConsistent (count_query s) k h = ground arith
Step-IsConsistent (ask_version s) k h = ground arith
Step-IsConsistent (shut s) k h = ground arith
Step-IsConsistent (force s state) k h = elim k [ ]

pub new-IsConsistent : (id release : Text) (c : SessionConfig) → IsConsistent (new id release c)
unfolding new
new-IsConsistent id release c = ground arith

-- In every state that a session reaches from a new one, with no call of `set_state` by a caller, the
-- transaction flag is set exactly in the state `InTransaction`, the session is not left closing, and
-- the memoized version is the parse.
pub Reach-IsConsistent :
    (id release : Text) (c : SessionConfig) {s : Session} (r : Reach (new id release c) s)
    → Unforced r
    → IsConsistent s
Reach-IsConsistent id release c here u = new-IsConsistent id release c
Reach-IsConsistent id release c (next r st) (u, k) =
    Step-IsConsistent st k (Reach-IsConsistent id release c r u)

-- What `begin_transaction` does in each state of a consistent session: it opens a transaction only
-- from `Ready`, and each refusal has its error.
pub begin_transaction_cases :
    (s : Session)
    → IsConsistent s
    → ((s.state ≡ ready)
        × (begin_transaction s ≡ ok (record s { state = in_transaction; transaction_flag = true })))
      ⊎ ((s.state ≡ in_transaction) × (begin_transaction s ≡ err transaction_active))
      ⊎ ((s.state ≡ closed) × (begin_transaction s ≡ err connection_closed))
unfolding begin_transaction
begin_transaction_cases s h = ground arith

Step-closed :
    {s t : Session} (st : Step s t)
    → IsCall st
    → IsConsistent s
    → s.state ≡ closed
    → t.state ≡ closed
unfolding begin_transaction commit_transaction rollback_transaction increment_query_count
    parsed_release_version close
Step-closed (begin e) k h c = ground arith
Step-closed (commit s) k h c = ground arith
Step-closed (rollback s) k h c = ground arith
Step-closed (count_query s) k h c = c
Step-closed (ask_version s) k h c = ground arith
Step-closed (shut s) k h c = refl
Step-closed (force s state) k h c = elim k [ ]

Reach-IsConsistent-step :
    {s t : Session} (r : Reach s t) → Unforced r → IsConsistent s → IsConsistent t
Reach-IsConsistent-step here u h = h
Reach-IsConsistent-step (next r st) (u, k) h =
    Step-IsConsistent st k (Reach-IsConsistent-step r u h)

Reach_closed :
    {s t : Session} (r : Reach s t)
    → Unforced r
    → IsConsistent s
    → s.state ≡ closed
    → t.state ≡ closed
Reach_closed here u h c = c
Reach_closed (next r st) (u, k) h c =
    Step-closed st k (Reach-IsConsistent-step r u h) (Reach_closed r u h c)

-- Closing is final as long as no caller forces the state: whatever other calls than `set_state` led
-- from a new session to `close`, and whatever other calls follow, the session stays closed and no
-- transaction can start.
pub close_final :
    (id release : Text) (c : SessionConfig) {s t : Session} (before : Reach (new id release c) s)
    (later : Reach (close s) t)
    → Unforced before
    → Unforced later
    → (is_closed t ≡ true) × (begin_transaction t ≡ err connection_closed)
close_final id release c {s} {t} before later u v =
    let steady = Step-IsConsistent (shut s) tt (Reach-IsConsistent id release c before u) in
    let shut_state : (close s).state ≡ closed = unfold close in refl in
    let stays = Reach_closed later v steady shut_state in
    let open_now = begin_transaction_cases t (Reach-IsConsistent-step later v steady) in
    (unfold is_closed in ground arith, ground arith)

-- Ending a transaction by commit or by rollback gives the session back as it was before
-- `begin_transaction`.
pub end-begin_transaction :
    (s t : Session)
    → IsConsistent s
    → begin_transaction s ≡ ok t
    → (commit_transaction t ≡ s) × (rollback_transaction t ≡ s)
unfolding begin_transaction commit_transaction rollback_transaction
end-begin_transaction s t h e = ground arith
