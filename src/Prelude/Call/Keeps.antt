-- ===== src/Prelude/Call/Keeps.antt =====
-- Invariants of methods: a predicate on the object that holds before a method holds after it, whether
-- it returns a value or an error. One rule for each way to compose a method.
use exarrow_rs.Prelude.Call.{Call, attempt, give, fail, from, read, modify, carry_on, ◌>>=◌}
use exarrow_rs.Prelude.Results.{Result, ok, err, Result-cases}
use exarrow_rs.Prelude.Tests.{if◌then◌else◌}
use mathlib.Core.Bool.{Bool, true, false}
use mathlib.Core.Logic.{inl, inr}
use mathlib.Core.Path.{◌≡◌}
use native.Mathlib.Omega.{arith}

pub record Keeps {S E A : Type 0} (P : S → Type 0) (m : Call S E A) : Type 0 where
  pub at : (s : S) → P s → P (m s).1

module _ {S E A : Type 0} {P : S → Type 0} where
  pub Keeps-give : (a : A) → Keeps P (give {E = E} a)
  Keeps-give a = record { at = λ s h. h }

  pub Keeps-fail : (e : E) → Keeps P (fail {A = A} e)
  Keeps-fail e = record { at = λ s h. h }

  pub Keeps-from : {D : Type 0} (wrap : D → E) (r : Result D A) → Keeps P (from wrap r)
  Keeps-from wrap (ok a) = record { at = λ s h. h }
  Keeps-from wrap (err d) = record { at = λ s h. h }

  pub Keeps-read : (f : S → A) → Keeps P (read {E = E} f)
  Keeps-read f = record { at = λ s h. h }

  pub Keeps-if :
      (b : Bool) (m n : Call S E A) → Keeps P m → Keeps P n → Keeps P (if b then m else n)
  Keeps-if true m n km kn = km
  Keeps-if false m n km kn = kn

module _ {S E : Type 0} {P : S → Type 0} where
  pub Keeps-modify : (f : S → S) → ((s : S) → P s → P (f s)) → Keeps P (modify {E = E} f)
  Keeps-modify f kf = record { at = kf }

module _ {S E A B : Type 0} {P : S → Type 0} where
  Keeps-carry_on :
      (r : Result E A) (next : A → Call S E B)
      → ((a : A) → Keeps P (next a))
      → Keeps P (carry_on r next)
  Keeps-carry_on (ok a) next kn = kn a
  Keeps-carry_on (err e) next kn = record { at = λ s h. h }

  pub Keeps-bind :
      (m : Call S E A) (next : A → Call S E B)
      → Keeps P m
      → ((a : A) → Keeps P (next a))
      → Keeps P (m >>= next)
  Keeps-bind m next km kn = record {
    at = λ s h. let (r, t) = m s in (Keeps-carry_on r next kn).at t (km.at s h);
  }

pub ruleset keeps_rules = (Keeps-give, Keeps-fail, Keeps-from, Keeps-read, Keeps-if, Keeps-bind)

-- A chain that gives a value: its first part gave one, with which the second did.
pub bind-eq-ok :
    {S E A B : Type 0} (m : Call S E A) (next : A → Call S E B) (s : S) {b : B}
    → ((m >>= next) s).0 ≡ ok b
    → (a : A) × ((m s).0 ≡ ok a) × ((next a (m s).1).0 ≡ ok b)
bind-eq-ok m next s e = elim (Result-cases (m s).0) [
  | inl (a, f) ↦ (a, f, ground arith)
  | inr (d, f) ↦ let failed : ((m >>= next) s).0 ≡ err d = ground arith in cc
]

pub await-state :
    {S E D A : Type 0} (ask : S → Result D A × S) (wrap : D → E) (s : S)
    → ((attempt ask >>= from wrap) s).1 ≡ (ask s).1
await-state ask wrap s = ground arith
