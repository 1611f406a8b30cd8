-- ===== src/Tests/Sessions.antt =====
-- Sessions and server versions.
use exarrow_rs.Connection.Session.Lifecycle.{
  here, next, begin, commit, IsConsistent, Reach-IsConsistent, close_final,
}
use exarrow_rs.Connection.Session.{
  Session, default_config, new, in_transaction, connection_closed, begin_transaction,
  commit_transaction, close, is_closed,
}
use exarrow_rs.Connection.Version.Printed.{parse_release_version-printed}
use exarrow_rs.Connection.Version.{parse_release_version, split_once, take_digits}
use exarrow_rs.Prelude.Decimal.{show_nat}
use exarrow_rs.Prelude.Text.{codes}
use exarrow_rs.Prelude.{true, ◌∷◌, ◌++◌, some, ok, err, ◌≡◌, refl, arith}

abbrev opened : Session
opened = new (codes "s1") (codes "2025.1.11") default_config

abbrev in_work : Session
in_work = record opened { state = in_transaction; transaction_flag = true }

begin_opened : begin_transaction opened ≡ ok in_work
unfolding begin_transaction new
begin_opened = refl

opened-IsConsistent : IsConsistent opened
opened-IsConsistent = Reach-IsConsistent (codes "s1") (codes "2025.1.11") default_config here tt

Reach-IsConsistent_example : IsConsistent in_work
Reach-IsConsistent_example =
    Reach-IsConsistent (codes "s1") (codes "2025.1.11") default_config {s = in_work}
      (next here (begin begin_opened)) (tt, tt)

close_final_example :
    (is_closed (commit_transaction (close in_work)) ≡ true)
    × (begin_transaction (commit_transaction (close in_work)) ≡ err connection_closed)
close_final_example =
    close_final (codes "s1") (codes "2025.1.11") default_config {s = in_work}
      {t = commit_transaction (close in_work)} (next here (begin begin_opened))
      (next here (commit (close in_work))) (tt, tt) (tt, tt)

parse_release_version-printed_example :
    parse_release_version
      (show_nat 2025 ++ b'.' ∷ (show_nat 1 ++ b'.' ∷ (show_nat 11 ++ codes "-rc1")))
    ≡ some (2025, 1, 11)
parse_release_version-printed_example =
    parse_release_version-printed 2025 1 11 (codes "-rc1") (omega arith) (omega arith) (omega arith)
      (unfold split_once take_digits in refl)
