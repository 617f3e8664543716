-- ===== src/Comm/Stream.antt =====
-- `listen` and `handleReceive` on the byte streams that a peer writes.
use go_adstc.Prelude.{ℕ, zero, suc, ◌+◌, ◌^◌, ◌≤◌, ◌<◌, ◌≡◌, refl, ap, sym, ◌∙◌, arith}
use go_adstc.Prelude.{
  List, [], ◌∷◌, ◌++◌, length, none, some, append_assoc, map, All, Option-cases, inl, inr,
}
use go_adstc.Prelude.{ltb, if◌then◌else◌, length-drop}
use go_adstc.Go.Result.{Result, ok, err, panic}
use go_adstc.Go.Binary.{pack, Fits, read_full, read_struct, read_padded, read_struct-pack}
use go_adstc.Go.Binary.{read_padded-append, read_struct_takes}
use go_adstc.Ams.{AmsTcpHeader, tcp_layout, tcp_of, tcp_values}
use go_adstc.Comm.{
  Incoming, system, packet, after_header, listen_body, listen_round, listen_loop, listen,
}

-- A frame as a peer writes it.
pub record Frame : Type 0 where
  pub unknown1 : ℕ
  pub system : ℕ
  pub body : List ℕ

abbrev pub frame_header : Frame → AmsTcpHeader
frame_header f = record { unknown1 = f.unknown1; system = f.system; length = length f.body }

abbrev pub frame_bytes : Frame → List ℕ
frame_bytes f = pack tcp_layout (tcp_values (frame_header f)) ++ f.body

abbrev pub stream_of : List Frame → List ℕ
stream_of [] = []
stream_of (f ∷ fs) = frame_bytes f ++ stream_of fs

-- What `listen` makes of a frame.
abbrev pub incoming_of : Frame → Incoming
incoming_of f = if ltb 0 f.system then system f.body else packet f.body

abbrev pub IsFrame : Frame → Type 0
IsFrame f = (f.unknown1 < 256) × (f.system < 256) × (length f.body < 2 ^ 32)

listen_body-padded :
    (h : AmsTcpHeader) (body rest stream : List ℕ)
    → read_padded h.length stream ≡ (body, rest)
    → listen_body h stream ≡ (if ltb 0 h.system then system body else packet body, rest)
unfolding listen_body
listen_body-padded h body rest stream e = rw e

listen_round-header :
    (h : AmsTcpHeader) (rest : List ℕ)
    → Fits tcp_layout (tcp_values h)
    → listen_round (pack tcp_layout (tcp_values h) ++ rest) ≡ some (listen_body h rest)
unfolding listen_round
listen_round-header h rest fits =
    ap after_header (read_struct-pack tcp_layout tcp_of (tcp_values h) rest fits)

listen_round-frame :
    (f : Frame) (rest : List ℕ)
    → IsFrame f
    → listen_round (frame_bytes f ++ rest) ≡ some (incoming_of f, rest)
listen_round-frame f rest h = rw append_assoc (
    listen_round-header (frame_header f) (f.body ++ rest) (omega arith)
    ∙ ap some (
        listen_body-padded (frame_header f) f.body rest (f.body ++ rest)
          (read_padded-append f.body rest)))

listen_body_le :
    (h : AmsTcpHeader) (stream : List ℕ) → length (listen_body h stream).1 ≤ length stream
unfolding listen_body read_padded
listen_body_le h stream = omega (arith, length-drop h.length stream)

after_header-shorter :
    (r : Result AmsTcpHeader × List ℕ) (n : ℕ) (i : Incoming) (rest : List ℕ)
    → ((h : AmsTcpHeader) → r.0 ≡ ok h → length r.1 < n)
    → after_header r ≡ some (i, rest)
    → length rest < n
unfolding after_header
after_header-shorter (ok h, left) n i rest short e =
    ground (arith, listen_body_le h left, short h refl)
after_header-shorter (err x, left) n i rest short e = cc
after_header-shorter (panic, left) n i rest short e = cc

-- A header takes six bytes, so a round leaves less of the stream.
listen_round-shorter :
    (stream : List ℕ) (i : Incoming) (rest : List ℕ)
    → listen_round stream ≡ some (i, rest)
    → length rest < length stream
unfolding listen_round
listen_round-shorter stream i rest e =
    after_header-shorter (read_struct tcp_layout tcp_of stream) (length stream) i rest
      (λ h p. omega (arith, takes h p)) e
  where
    takes :
        (h : AmsTcpHeader)
        → (read_struct tcp_layout tcp_of stream).0 ≡ ok h
        → length (read_struct tcp_layout tcp_of stream).1 + 6 ≡ length stream
    takes h p =
        read_struct_takes tcp_layout tcp_of stream (read_struct tcp_layout tcp_of stream).1 h
          (λ i. (p i, (read_struct tcp_layout tcp_of stream).1))

listen_round_short : (stream : List ℕ) → length stream < 6 → listen_round stream ≡ none
unfolding listen_round read_struct read_full
listen_round_short stream h = ground arith

listen_loop_spins : (rounds : ℕ) → listen_loop rounds [] ≡ []
unfolding listen_loop
listen_loop_spins zero = refl
listen_loop_spins (suc rounds) =
    rw (listen_round_short [] (omega arith), listen_loop) (listen_loop_spins rounds)

listen_loop_settles :
    (m n : ℕ) (stream : List ℕ)
    → length stream < m
    → length stream < n
    → listen_loop m stream ≡ listen_loop n stream
unfolding listen_loop
listen_loop_settles zero n stream h k = absurd (omega arith)
listen_loop_settles (suc m) zero stream h k = absurd (omega arith)
listen_loop_settles (suc m) (suc n) stream h k = elim (Option-cases (listen_round stream)) [
  | inl stop ↦ rw (stop, listen_loop) (listen_loop_spins m ∙ sym (listen_loop_spins n))
  | inr ((i, rest), go) ↦
      let less : length rest < length stream = listen_round-shorter stream i rest go in
      rw (go, listen_loop)
        (ap (λ (is : List Incoming). i ∷ is)
          (listen_loop_settles m n rest (omega arith) (omega arith)))
]

-- However often the loop of listen goes round on a stream that ends and a connection that is not
-- shut down, once it has gone more rounds than the stream has bytes it has handed on just what
-- listen is said to hand on: the rounds that follow find no header, continue, and hand on nothing.
pub listen_settles :
    (rounds : ℕ) (stream : List ℕ)
    → length stream < rounds
    → listen_loop rounds stream ≡ listen stream
unfolding listen
listen_settles rounds stream h =
    listen_loop_settles rounds (suc (length stream)) stream h (omega arith)

listen_loop_round :
    (rounds : ℕ) (stream rest : List ℕ) (i : Incoming)
    → listen_round stream ≡ some (i, rest)
    → listen_loop (suc rounds) stream ≡ i ∷ listen_loop rounds rest
unfolding listen_loop
listen_loop_round rounds stream rest i e = rw (e, listen_loop) refl

listen_loop_stop :
    (rounds : ℕ) (stream : List ℕ) → length stream < 6 → listen_loop (suc rounds) stream ≡ []
unfolding listen_loop
listen_loop_stop rounds stream h =
    rw (listen_round_short stream h, listen_loop) (listen_loop_spins rounds)

listen_loop-stream_of :
    (fs : List Frame) (tail : List ℕ) (rounds : ℕ)
    → All IsFrame fs
    → length tail < 6
    → length (stream_of fs ++ tail) < rounds
    → listen_loop rounds (stream_of fs ++ tail) ≡ map incoming_of fs
listen_loop-stream_of fs tail zero h ht hf = absurd (omega arith)
listen_loop-stream_of [] tail (suc rounds) h ht hf = listen_loop_stop rounds tail ht
listen_loop-stream_of (f ∷ fs) tail (suc rounds) h ht hf =
    let round : listen_round ((frame_bytes f ++ stream_of fs) ++ tail)
        ≡ some (incoming_of f, stream_of fs ++ tail) =
      rw (append_assoc (frame_bytes f)) (listen_round-frame f (stream_of fs ++ tail) h.0) in
    listen_loop_round rounds _ (stream_of fs ++ tail) (incoming_of f) round
    ∙ ap (λ (is : List Incoming). incoming_of f ∷ is)
        (listen_loop-stream_of fs tail rounds h.1 ht
          (omega (arith, listen_round-shorter _ (incoming_of f) (stream_of fs ++ tail) round)))

-- listen cuts a stream of frames into their bodies, in order, each handed on as a system response
-- or as a packet by its system byte; fewer than six bytes at the end are dropped.
pub listen-stream_of :
    (fs : List Frame) (tail : List ℕ)
    → All IsFrame fs
    → length tail < 6
    → listen (stream_of fs ++ tail) ≡ map incoming_of fs
unfolding listen
listen-stream_of fs tail h ht =
    listen_loop-stream_of fs tail (suc (length (stream_of fs ++ tail))) h ht (omega arith)
