-- ===== src/Prelude/Call.antt =====
-- The methods of `&mut self` that return a `Result`: what a method did before its error stays done,
-- so the object comes back beside the error too.
pub mod Keeps
use exarrow_rs.Prelude.Results.{Result, ok, err}

-- A method on an object `S`, with errors `E` and result `A`.
abbrev pub Call : Type 0 → Type 0 → Type 0 → Type 0
Call S E A = S → Result E A × S

module _ {S E A : Type 0} where
  abbrev pub give : A → Call S E A
  give a s = (ok a, s)

  abbrev pub fail : E → Call S E A
  fail e s = (err e, s)

  -- The value or error of a part that does not see the object, its error mapped.
  abbrev pub from {κ} : {D : Type κ} → (D → E) → Result D A → Call S E A
  from wrap (ok a) s = (ok a, s)
  from wrap (err d) s = (err (wrap d), s)

  abbrev pub read : (S → A) → Call S E A
  read f s = (ok (f s), s)

  -- The error itself, for the caller to look at later.
  abbrev pub attempt : {D : Type 0} → (S → Result D A × S) → Call S E (Result D A)
  attempt m s = let (r, t) = m s in (ok r, t)

module _ {S E : Type 0} where
  abbrev pub modify : (S → S) → Call S E (Unit {0})
  modify f s = (ok tt, f s)

module _ {S E A B : Type 0} where
  infixl 5 ◌>>=◌ ◌>>◌
  abbrev pub carry_on : Result E A → (A → Call S E B) → Call S E B
  carry_on (ok a) next s = next a s
  carry_on (err e) next s = (err e, s)

  abbrev pub ◌>>=◌ : Call S E A → (A → Call S E B) → Call S E B
  (m >>= next) s = let (r, t) = m s in carry_on r next t

  abbrev pub ◌>>◌ : Call S E A → Call S E B → Call S E B
  m >> later = m >>= λ _. later
