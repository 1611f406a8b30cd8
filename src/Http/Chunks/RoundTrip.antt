-- ===== src/Http/Chunks/RoundTrip.antt =====
-- A body sent in chunks arrives whole at the consumer.
use mathlib.Core.List.{flat_map}
use exarrow_rs.Http.Chunks.{encode_chunk, forward_sized_body, chunk_loop, forward_chunked_body}
use exarrow_rs.Http.Chunks.Line.{parse_chunk_size-show_hex, read_line-show_hex}
use exarrow_rs.Http.Chunks.Pieces.{
  deliver, join, IsSmall, Arrives, deliver-input, deliver-append, read_exact-append,
  forward_loop-Arrives,
}
use exarrow_rs.Http.{Stream, protocol_error, read_exact}
use exarrow_rs.Prelude.Bytes.{Bytes}
use exarrow_rs.Prelude.Call.{give}
use exarrow_rs.Prelude.Hex.{show_hex}
use exarrow_rs.Prelude.Text.{as_bytes, utf8}
use exarrow_rs.Prelude.{
  ℕ, zero, suc, ◌+◌, ◌^◌, ◌≤◌, ◌<◌, false, List, [], ◌∷◌, ◌++◌, ◌≢◌, ok, ◌≡◌, refl, sym, ap, ◌∙◌,
  arith, length, All, All-append, length-append, append_assoc, ◌==◌, if◌then◌else◌,
}

-- The driver's chunk with this body, in front of the bytes that follow it.
abbrev framed : ℕ → Bytes → Bytes → Bytes
framed n body more = as_bytes (show_hex n) ++ (b'\r' ∷ b'\n' ∷ (body ++ (b'\r' ∷ b'\n' ∷ more)))

deliver-line_end :
    (ps : List Bytes) (more : Bytes) (s : Stream)
    → read_exact protocol_error 2 (deliver (record s { input = b'\r' ∷ b'\n' ∷ more }) ps)
      ≡ (ok (b'\r' ∷ b'\n' ∷ []), deliver (record s { input = more }) ps)
deliver-line_end ps more s =
    let at_end : (deliver (record s { input = b'\r' ∷ b'\n' ∷ more }) ps).input
        ≡ b'\r' ∷ b'\n' ∷ more =
      ap (λ t. t.input) (deliver-input ps (b'\r' ∷ b'\n' ∷ more) s) in
    read_exact-append protocol_error (b'\r' ∷ b'\n' ∷ []) more _ at_end
    ∙ ap (λ t. (ok (b'\r' ∷ b'\n' ∷ []), record t { input = more }))
        (deliver-input ps (b'\r' ∷ b'\n' ∷ more) s)
    ∙ ap (λ t. (ok (b'\r' ∷ b'\n' ∷ []), t)) (sym (deliver-input ps more s))

chunk_loop-framed :
    (fuel n : ℕ) (body more : Bytes) (s : Stream)
    → length body ≡ n
    → n < 2 ^ 64
    → s.input ≡ framed n body more
    → (ps : List Bytes) × (join ps ≡ body)
      × All IsSmall ps
      × (chunk_loop (suc fuel) s
          ≡ (if n == 0 then give tt else chunk_loop fuel) (deliver (record s { input = more }) ps))
unfolding chunk_loop forward_sized_body
chunk_loop-framed fuel n body more s size small i =
    let line = read_line-show_hex n (body ++ (b'\r' ∷ b'\n' ∷ more)) s i in
    let parsed = parse_chunk_size-show_hex n small in
    let s1 = record s { input = body ++ (b'\r' ∷ b'\n' ∷ more) } in
    let (ps, joined, smalls, sent) =
      forward_loop-Arrives n n body (b'\r' ∷ b'\n' ∷ more) s1 (omega arith) size refl in
    let ended = deliver-line_end ps more s in (ps, joined, smalls, rw (line, parsed, sent, ended))

abbrev pub IsChunk : Bytes → Type 0
IsChunk c = (0 < length c) × (length c < 2 ^ 64)

encode_chunk-framed :
    (c more : Bytes) → length c ≢ 0 → encode_chunk c ++ more ≡ framed (length c) c more
unfolding encode_chunk
encode_chunk-framed [] more ne = absurd (ne refl)
encode_chunk-framed (b ∷ bs) more ne =
    append_assoc (as_bytes (show_hex (length (b ∷ bs)))) _ more
    ∙ ap (λ t. as_bytes (show_hex (length (b ∷ bs))) ++ (b'\r' ∷ b'\n' ∷ t))
        (append_assoc (b ∷ bs) (b'\r' ∷ b'\n' ∷ []) more)

encode_chunk-last : (more : Bytes) → encode_chunk [] ++ more ≡ framed 0 [] more
unfolding encode_chunk show_hex as_bytes utf8
encode_chunk-last more = refl

join-append : (ps qs : List Bytes) → join (ps ++ qs) ≡ join ps ++ join qs
unfolding flat_map
join-append [] qs = refl
join-append (p ∷ ps) qs =
    ap (λ t. p ++ t) (join-append ps qs) ∙ sym (append_assoc p (join ps) (join qs))

-- A body in chunks: each with its size in front, and the last one without content.
abbrev pub in_chunks : List Bytes → Bytes
in_chunks chunks = flat_map encode_chunk chunks ++ encode_chunk []

in_chunks-last :
    (fuel : ℕ) (rest : Bytes) (s : Stream)
    → s.input ≡ encode_chunk [] ++ rest
    → Arrives [] rest s (chunk_loop (suc fuel) s)
in_chunks-last fuel rest s i =
    let (ps, joined, smalls, out) =
      chunk_loop-framed fuel 0 [] rest s refl (omega arith) (i ∙ encode_chunk-last rest) in
    (ps, joined, smalls, out)

chunk_loop-Arrives :
    (fuel : ℕ) (chunks : List Bytes) (rest : Bytes) (s : Stream)
    → length chunks < fuel
    → All IsChunk chunks
    → s.input ≡ flat_map encode_chunk chunks ++ (encode_chunk [] ++ rest)
    → Arrives (join chunks) rest s (chunk_loop fuel s)
unfolding flat_map
chunk_loop-Arrives zero chunks rest s k h i = absurd (omega arith)
chunk_loop-Arrives (suc fuel) [] rest s k h i = in_chunks-last fuel rest s i
chunk_loop-Arrives (suc fuel) (c ∷ cs) rest s k ((full, small), hs) i =
    let later = flat_map encode_chunk cs ++ (encode_chunk [] ++ rest) in
    let filled : length c ≢ 0 = ground arith in
    let front : s.input ≡ framed (length c) c later =
      i
      ∙ append_assoc (encode_chunk c) (flat_map encode_chunk cs) (encode_chunk [] ++ rest)
      ∙ encode_chunk-framed c later filled in
    let (ps, joined, smalls, out) = chunk_loop-framed fuel (length c) c later s refl small front in
    let (qs, joined', smalls', out') =
      chunk_loop-Arrives fuel cs rest (deliver (record s { input = later }) ps) (omega arith) hs
        (ap (λ t. t.input) (deliver-input ps later s)) in
    let more : (length c == 0) ≡ false = ground arith in
    (
      ps ++ qs,
      join-append ps qs ∙ ap (λ t. t ++ join qs) joined ∙ ap (λ t. c ++ t) joined',
      All-append IsSmall ps qs smalls smalls',
      out
          ∙ ap
              (λ b.
                (if b then give tt else chunk_loop fuel) (deliver (record s { input = later }) ps))
              more
          ∙ out'
          ∙ ap (λ t. (ok tt, deliver t qs))
              (sym (deliver-input ps rest (record s { input = later })))
          ∙ ap (λ t. (ok tt, t)) (sym (deliver-append ps qs (record s { input = rest }))),
    )

encode_chunk-filled : (c : Bytes) → 0 < length (encode_chunk c)
unfolding encode_chunk as_bytes utf8
encode_chunk-filled [] = omega arith
encode_chunk-filled (b ∷ bs) = ground (
  arith,
  length-append (as_bytes (show_hex (length (b ∷ bs))))
      (b'\r' ∷ b'\n' ∷ ((b ∷ bs) ++ (b'\r' ∷ b'\n' ∷ []))),
)

chunks-length : (chunks : List Bytes) → length chunks ≤ length (flat_map encode_chunk chunks)
unfolding flat_map
chunks-length [] = omega arith
chunks-length (c ∷ cs) = omega (
  arith,
  length-append (encode_chunk c) (flat_map encode_chunk cs),
  encode_chunk-filled c,
  chunks-length cs,
)

-- A body of any size that was sent in chunks, each with a byte at least and fewer than 2^64, is
-- forwarded whole: the reader comes to an end without an error and stands behind the last chunk, and
-- what it handed to the channel, in order, are pieces of at most 64 KiB that make up the body.
pub forward_chunked_body-in_chunks :
    (chunks : List Bytes) (rest : Bytes) (s : Stream)
    → All IsChunk chunks
    → s.input ≡ in_chunks chunks ++ rest
    → Arrives (join chunks) rest s (forward_chunked_body s)
unfolding forward_chunked_body
forward_chunked_body-in_chunks chunks rest s h i =
    let front = i ∙ append_assoc (flat_map encode_chunk chunks) (encode_chunk []) rest in
    let enough : length chunks < length s.input + 1 = rw front (
      omega (
        arith,
        chunks-length chunks,
        length-append (flat_map encode_chunk chunks) (encode_chunk [] ++ rest),
      )) in
    chunk_loop-Arrives (length s.input + 1) chunks rest s enough h front
