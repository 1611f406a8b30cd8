-- ===== src/Prelude/Utf8.antt =====
-- `str::from_utf8`: the decoder accepts exactly the sequences of the Unicode standard's table.
use Prim.Native.Nat.{ℕ, zero, suc, ◌+◌, ◌-◌, ◌*◌, ◌/◌, ◌%◌, ◌<◌, ◌≤◌}
use mathlib.Core.Bool.{true, false, ◌||◌}
use mathlib.Core.List.{[], ◌∷◌, ◌++◌}
use mathlib.Core.Logic.{◌⊎◌, inl, inr}
use mathlib.Core.Option.{Option, none, some}
use mathlib.Core.Path.{◌≡◌, refl, ◌∙◌}
use native.Mathlib.Omega.{arith}
use exarrow_rs.Prelude.Bytes.{Bytes}
use exarrow_rs.Prelude.Lists.{All}
use exarrow_rs.Prelude.Results.{and_then}
use exarrow_rs.Prelude.Tests.{ltb, ◌==◌, if◌then◌else◌, within, Bool-cases}
use exarrow_rs.Prelude.Text.{Text, utf8, as_bytes}

-- What a lead byte announces: continuation bytes to come, the bounds of the first one, and the
-- value bits read.
pub record Lead : Type 0 where
  pub more : ℕ
  pub lo : ℕ
  pub hi : ℕ
  pub bits : ℕ

abbrev lead_of : ℕ → ℕ → ℕ → ℕ → Option Lead
lead_of n l h v = some (record { more = n; lo = l; hi = h; bits = v })

lead : ℕ → Option Lead
lead b =
    if ltb b 0x80
    then lead_of 0 0 0 b
    else if within 0xc2 0xdf b
    then lead_of 1 0x80 0xbf (b - 0xc0)
    else if b == 0xe0
    then lead_of 2 0xa0 0xbf 0
    else if within 0xe1 0xec b || within 0xee 0xef b
    then lead_of 2 0x80 0xbf (b - 0xe0)
    else if b == 0xed
    then lead_of 2 0x80 0x9f 13
    else if b == 0xf0
    then lead_of 3 0x90 0xbf 0
    else if within 0xf1 0xf3 b
    then lead_of 3 0x80 0xbf (b - 0xf0)
    else if b == 0xf4
    then lead_of 3 0x80 0x8f 4
    else none

-- `more` continuation bytes are due, the first between `lo` and `hi`.
decode : ℕ → ℕ → ℕ → ℕ → Bytes → Option Text
decode zero lo hi v [] = some []
decode (suc n) lo hi v [] = none
decode zero lo hi v (b ∷ bs) = and_then (lead b) λ s. elim (s.more) [
  | zero ↦ and_then (decode 0 0 0 0 bs) (λ t. some (b ∷ t))
  | suc k ↦ decode (suc k) s.lo s.hi s.bits bs
]
decode (suc zero) lo hi v (b ∷ bs) = elim (within lo hi b) [
  | true ↦ and_then (decode 0 0 0 0 bs) (λ t. some ((v * 64 + (b - 0x80)) ∷ t))
  | false ↦ none
]
decode (suc (suc n)) lo hi v (b ∷ bs) = elim (within lo hi b) [
  | true ↦ decode (suc n) 0x80 0xbf (v * 64 + (b - 0x80)) bs
  | false ↦ none
]

unfoldable pub from_utf8 : Bytes → Option Text
unfolding decode lead
from_utf8 = decode 0 0 0 0

-- A Unicode scalar value: what a Rust `char` holds.
abbrev pub IsChar : ℕ → Type 0
IsChar c = (c < 0xd800) ⊎ ((0xe000 ≤ c) × (c < 0x110000))

-- `b` announces `suc k` continuation bytes, and the first of them, `c`, is within its bounds.
abbrev Announces : ℕ → ℕ → ℕ → ℕ → Type 0
Announces b v k c =
    (lo : ℕ) × (hi : ℕ) × (lead b ≡ lead_of (suc k) lo hi v) × (within lo hi c ≡ true)

announce_two : (c : ℕ) → 0x80 ≤ c → c < 0x800 → Announces (0xc0 + c / 64) (c / 64) 0 (0x80 + c % 64)
unfolding lead
announce_two c h k = (0x80, 0xbf, ground arith, ground arith)

announce_three :
    (c : ℕ)
    → 0x800 ≤ c
    → c < 0x10000
    → IsChar c
    → Announces (0xe0 + c / 4096) (c / 4096) 1 (0x80 + c / 64 % 64)
unfolding lead
announce_three c h k u = elim (Bool-cases (c / 4096 == 0)) [
  | inl e ↦ (0xa0, 0xbf, ground arith, ground arith)
  | inr e ↦ elim (Bool-cases (c / 4096 == 13)) [
    | inl d ↦ (0x80, 0x9f, ground arith, ground arith)
    | inr d ↦ (0x80, 0xbf, ground arith, ground arith)
  ]
]

announce_four :
    (c : ℕ)
    → 0x10000 ≤ c
    → c < 0x110000
    → Announces (0xf0 + c / 262144) (c / 262144) 2 (0x80 + c / 4096 % 64)
unfolding lead
announce_four c h u = elim (Bool-cases (c / 262144 == 0)) [
  | inl e ↦ (0x90, 0xbf, ground arith, ground arith)
  | inr e ↦ elim (Bool-cases (c / 262144 == 4)) [
    | inl d ↦ (0x80, 0x8f, ground arith, ground arith)
    | inr d ↦ (0x80, 0xbf, ground arith, ground arith)
  ]
]

decode_ascii :
    (c : ℕ) (bs : Bytes)
    → c < 0x80
    → decode 0 0 0 0 (c ∷ bs) ≡ and_then (decode 0 0 0 0 bs) (λ t. some (c ∷ t))
unfolding decode lead
decode_ascii c bs h = let e : ltb c 0x80 ≡ true = ground arith in rw e

decode_lead :
    (b v k c : ℕ) (bs : Bytes) (a : Announces b v k c)
    → decode 0 0 0 0 (b ∷ bs) ≡ decode (suc k) a.0 a.1 v bs
unfolding decode
decode_lead b v k c bs a = rw a.2

decode_more :
    (k lo hi v b : ℕ) (bs : Bytes)
    → within lo hi b ≡ true
    → decode (suc (suc k)) lo hi v (b ∷ bs) ≡ decode (suc k) 0x80 0xbf (v * 64 + (b - 0x80)) bs
unfolding decode
decode_more k lo hi v b bs h = ground arith

decode_last :
    (lo hi v b c : ℕ) (bs : Bytes)
    → within lo hi b ≡ true
    → v * 64 + (b - 0x80) ≡ c
    → decode 1 lo hi v (b ∷ bs) ≡ and_then (decode 0 0 0 0 bs) (λ t. some (c ∷ t))
unfolding decode
decode_last lo hi v b c bs h e = ground arith

decode_two :
    (c : ℕ) (bs : Bytes)
    → 0x80 ≤ c
    → c < 0x800
    → decode 0 0 0 0 ((0xc0 + c / 64) ∷ (0x80 + c % 64) ∷ bs)
      ≡ and_then (decode 0 0 0 0 bs) (λ t. some (c ∷ t))
decode_two c bs h k =
    let a = announce_two c h k in
    decode_lead _ _ _ _ _ a ∙ decode_last a.0 a.1 (c / 64) _ c bs a.3 (omega arith)

decode_three :
    (c : ℕ) (bs : Bytes)
    → 0x800 ≤ c
    → c < 0x10000
    → IsChar c
    → decode 0 0 0 0 ((0xe0 + c / 4096) ∷ (0x80 + c / 64 % 64) ∷ (0x80 + c % 64) ∷ bs)
      ≡ and_then (decode 0 0 0 0 bs) (λ t. some (c ∷ t))
decode_three c bs h k u =
    let a = announce_three c h k u in
    decode_lead _ _ _ _ _ a
    ∙ decode_more 0 a.0 a.1 (c / 4096) _ _ a.3
    ∙ decode_last 0x80 0xbf _ _ c bs (ground arith) (omega arith)

decode_four :
    (c : ℕ) (bs : Bytes)
    → 0x10000 ≤ c
    → c < 0x110000
    → decode 0 0 0 0
        ((0xf0 + c / 262144) ∷ (0x80 + c / 4096 % 64) ∷ (0x80 + c / 64 % 64) ∷ (0x80 + c % 64) ∷ bs)
      ≡ and_then (decode 0 0 0 0 bs) (λ t. some (c ∷ t))
decode_four c bs h k =
    let a = announce_four c h k in
    decode_lead _ _ _ _ _ a
    ∙ decode_more 1 a.0 a.1 (c / 262144) _ _ a.3
    ∙ decode_more 0 0x80 0xbf _ _ _ (ground arith)
    ∙ decode_last 0x80 0xbf _ _ c bs (ground arith) (omega arith)

decode-utf8 :
    (c : ℕ) (rest : Bytes)
    → IsChar c
    → decode 0 0 0 0 (utf8 c ++ rest) ≡ and_then (decode 0 0 0 0 rest) (λ t. some (c ∷ t))
unfolding utf8
decode-utf8 c rest h = elim (Bool-cases (ltb c 0x80)) [
  | inl a ↦ rw a (decode_ascii c rest (ground arith))
  | inr a ↦ elim (Bool-cases (ltb c 0x800)) [
    | inl b ↦ rw (a, b) (decode_two c rest (ground arith) (ground arith))
    | inr b ↦ elim (Bool-cases (ltb c 0x10000)) [
      | inl d ↦ rw (a, b, d) (decode_three c rest (ground arith) (ground arith) h)
      | inr d ↦ rw (a, b, d) (decode_four c rest (ground arith) (ground arith))
    ]
  ]
]

pub from_utf8-as_bytes : (s : Text) → All IsChar s → from_utf8 (as_bytes s) ≡ some s
unfolding from_utf8 as_bytes
from_utf8-as_bytes [] h = refl
from_utf8-as_bytes (c ∷ s) (hc, hs) = rw (decode-utf8 c (as_bytes s) hc, from_utf8-as_bytes s hs)
