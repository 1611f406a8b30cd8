-- ===== src/Prelude/Results.antt =====
-- Rust's `Result` and `Option` as monads: `?` is a bind of a `do` block.
use mathlib.Core.Bool.{Bool, true, false}
use mathlib.Core.Logic.{◌⊎◌, inl, inr}
use mathlib.Core.Option.{Option, none, some}
use mathlib.Core.Path.{◌≡◌, refl}

pub data Result {ℓ κ} (E : Type κ) (A : Type ℓ) : Type (ℓ ⊔ κ) where
  ok : A → Result E A
  err : E → Result E A

-- `if !c { return Err(e) }`.
abbrev pub ensure {η} : {E : Type η} → Bool → E → Result E (Unit {0})
ensure holds e = elim holds [ true ↦ ok tt | false ↦ err e ]

infixl 5 ◌>>=◌ ◌>>◌
abbrev pub ◌>>=◌ {η ℓ κ} :
    {E : Type η} {A : Type ℓ} {B : Type κ} → Result E A → (A → Result E B) → Result E B
result >>= next = elim result [ ok a ↦ next a | err e ↦ err e ]

abbrev pub ◌>>◌ {η κ} : {E : Type η} {B : Type κ} → Result E (Unit {0}) → Result E B → Result E B
checked >> later = elim checked [ ok done ↦ later | err e ↦ err e ]

abbrev pub ok_or {ℓ η} : {E : Type η} {A : Type ℓ} → Option A → E → Result E A
ok_or none e = err e
ok_or (some a) e = ok a

-- `?` on an `Option`.
abbrev pub and_then {ℓ κ} : {A : Type ℓ} {B : Type κ} → Option A → (A → Option B) → Option B
and_then none f = none
and_then (some a) f = f a

-- A chain that succeeds: its first part gave a value, with which the second succeeded.
pub >>=-eq-ok {κ ℓ η} :
    {E : Type κ} {A : Type ℓ} {B : Type η} (r : Result E A) (next : A → Result E B) {out : B}
    → r >>= next ≡ ok out
    → (mid : A) × (r ≡ ok mid) × (next mid ≡ ok out)
>>=-eq-ok (err e) next given = cc
>>=-eq-ok (ok mid) next given = (mid, refl, given)

pub Result-cases {η ℓ} :
    {E : Type η} {A : Type ℓ} (r : Result E A) → ((a : A) × (r ≡ ok a)) ⊎ ((e : E) × (r ≡ err e))
Result-cases (ok a) = inl (a, refl)
Result-cases (err e) = inr (e, refl)
