-- ===== src/Http/Chunks/Pieces.antt =====
-- A body of a known size, cut into pieces for the channel.
use mathlib.Core.List.{flat_map}
use exarrow_rs.Http.Chunks.{export_piece_max_bytes, forward_loop}
use exarrow_rs.Http.{Stream, TransportError, io_error, read_exact, send}
use exarrow_rs.Prelude.Bytes.{Bytes}
use exarrow_rs.Prelude.{
  ℕ, zero, suc, ◌-◌, ◌≤◌, ◌<◌, min, true, false, List, [], ◌∷◌, ◌++◌, Result, ok, ◌≡◌, refl, sym,
  ap, ◌∙◌, arith, length, take, drop, All, length-append, take-length, drop-length, append_assoc,
  take-append-drop, length-take, ◌==◌, leb,
}

-- The channel after the pieces were sent to it.
abbrev pub deliver : Stream → List Bytes → Stream
deliver s [] = s
deliver s (p ∷ ps) = deliver (send p s) ps

abbrev pub join : List Bytes → Bytes
join = flat_map (λ p. p)

abbrev pub IsSmall : Bytes → Type 0
IsSmall p = length p ≤ export_piece_max_bytes

pub read_exact-append :
    (e : TransportError) (p q : Bytes) (s : Stream)
    → s.input ≡ p ++ q
    → read_exact e (length p) s ≡ (ok p, record s { input = q })
unfolding read_exact
read_exact-append e p q s i =
    let enough : leb (length p) (length s.input) ≡ true =
      rw i (ground (arith, length-append p q)) in
    let taken : take (length p) s.input ≡ p = rw i (take-length p q) in
    let dropped : drop (length p) s.input ≡ q = rw i (drop-length p q) in ground arith

send-input :
    (p i : Bytes) (s : Stream) → send p (record s { input = i }) ≡ record (send p s) { input = i }
unfolding send
send-input p i s = ground arith

input-send : (p : Bytes) (s : Stream) → (send p s).input ≡ s.input
unfolding send
input-send p s = ground arith

pub deliver-input :
    (ps : List Bytes) (i : Bytes) (s : Stream)
    → deliver (record s { input = i }) ps ≡ record (deliver s ps) { input = i }
deliver-input [] i s = refl
deliver-input (p ∷ ps) i s = rw (send-input p i s) (deliver-input ps i (send p s))

pub deliver-append :
    (ps qs : List Bytes) (s : Stream) → deliver s (ps ++ qs) ≡ deliver (deliver s ps) qs
deliver-append [] qs s = refl
deliver-append (p ∷ ps) qs s = deliver-append ps qs (send p s)

forward_loop-more :
    (fuel : ℕ) (p q : Bytes) (n : ℕ) (s : Stream)
    → s.input ≡ p ++ q
    → length p ≡ min n export_piece_max_bytes
    → 0 < n
    → forward_loop (suc fuel) n s
      ≡ forward_loop fuel (n - length p) (send p (record s { input = q }))
unfolding forward_loop
forward_loop-more fuel p q n s i e h =
    let some_left : (n == 0) ≡ false = ground arith in
    let got = read_exact-append io_error p q s i in ground arith

-- The body arrives in pieces of a bounded size that make it up, and the stream is behind it.
abbrev pub Arrives : Bytes → Bytes → Stream → Result TransportError (Unit {0}) × Stream → Type 0
Arrives body rest s out =
    (ps : List Bytes) × (join ps ≡ body)
    × All IsSmall ps
    × (out ≡ (ok tt, deliver (record s { input = rest }) ps))

Arrives-nil :
    (fuel : ℕ) (body rest : Bytes) (s : Stream)
    → length body ≡ 0
    → s.input ≡ body ++ rest
    → Arrives body rest s (forward_loop fuel 0 s)
unfolding forward_loop flat_map
Arrives-nil fuel (b ∷ body) rest s e i = absurd (omega arith)
Arrives-nil zero [] rest s e i = ([], refl, tt, ground arith)
Arrives-nil (suc fuel) [] rest s e i = ([], refl, tt, ground arith)

-- A piece that is forwarded before the rest of the body.
Arrives-cons :
    (p q rest : Bytes) (s : Stream) (out : Result TransportError (Unit {0}) × Stream)
    → IsSmall p
    → Arrives q rest (send p (record s { input = q ++ rest })) out
    → Arrives (p ++ q) rest s out
unfolding flat_map
Arrives-cons p q rest s out small (ps, joined, smalls, e) = (
  p ∷ ps,
  ap (◌++◌ p) joined,
  (small, smalls),
  e ∙ ap (λ t. (ok tt, deliver t ps)) (sym (send-input p rest (record s { input = q ++ rest }))),
)

pub forward_loop-Arrives :
    (fuel n : ℕ) (body rest : Bytes) (s : Stream)
    → n ≤ fuel
    → length body ≡ n
    → s.input ≡ body ++ rest
    → Arrives body rest s (forward_loop fuel n s)
forward_loop-Arrives fuel zero body rest s k e i = Arrives-nil fuel body rest s e i
forward_loop-Arrives zero (suc n) body rest s k e i = absurd (omega arith)
forward_loop-Arrives (suc fuel) (suc n) body rest s k e i =
    let m = min (suc n) export_piece_max_bytes in
    let p = take m body in
    let q = drop m body in
    let whole = take-append-drop m body in
    let size : length p ≡ m = length-take m body (ground arith) in
    let left : length q ≡ suc n - length p = omega (arith, length-append p q, ap length whole) in
    let split : s.input ≡ p ++ (q ++ rest) =
      i ∙ ap (λ bs. bs ++ rest) (sym whole) ∙ append_assoc p q rest in
    let later =
      forward_loop-Arrives fuel (suc n - length p) q rest (send p (record s { input = q ++ rest }))
        (ground arith) left (input-send p _) in
    let (ps, joined, smalls, out) = Arrives-cons p q rest s _ (ground arith) later in
    (
      ps,
      joined ∙ whole,
      smalls,
      forward_loop-more fuel p (q ++ rest) (suc n) s split size (omega arith) ∙ out,
    )
