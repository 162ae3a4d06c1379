-- ===== src/Socket/Stream/Run.antt =====
-- src/grilio_transport_socket.c: a stream that comes in pieces, read by one call of the read callback
-- after another.
use libgrilio.Base.{
  ℕ, zero, suc, ◌≤◌, ◌<◌, ◌≡◌, refl, sym, ap, subst, ◌∙◌, ◌⊎◌, Bool, true, false, Bool-cases, inl,
  inr, List, [], ◌∷◌, ◌++◌, arith, ltb, leb, ltb→lt, not_lt_of_ltb, if◌then◌else◌, length,
  length-append,
}
use libgrilio.Socket.State.{Socket, handle_read_error}
use libgrilio.Socket.Read.{
  Input, bytes, handle_packet, handle_solicited, handle_solicited_ack, handle_indication, connect,
  signal_response, finish_packet, big_endian, read_callback,
}
use libgrilio.Socket.Stream.{settle, length_known, decode, decode_byte, decode-append}
use libgrilio.Socket.Stream.Chunks.{IsReading}
use libgrilio.Socket.Stream.Calls.{Decodes, read_callback-decode}

handle_packet-read_len_buf : (s : Socket) → (handle_packet s).1.read_len_buf ≡ s.read_len_buf
unfolding handle_packet handle_solicited handle_solicited_ack handle_indication signal_response
    handle_read_error connect
handle_packet-read_len_buf s = ground arith

-- Stopped, or between two calls.
abbrev pub IsGoing : Socket → Type 0
IsGoing s = (s.read_watch ≡ false) ⊎ IsReading s

settle-IsGoing : (r : Bool × Socket) → length r.1.read_len_buf < 4 → IsGoing (settle r)
settle-IsGoing (false, d) h = inl refl
settle-IsGoing (true, d) h = elim (Bool-cases d.read_watch) [
  | inl on ↦ inr (on, inl h)
  | inr off ↦ inl off
]

finish_packet-IsGoing : (s : Socket) → IsGoing (settle (finish_packet s))
unfolding finish_packet
finish_packet-IsGoing s =
    let d : Socket = record s { read_len_buf = [] } in
    settle-IsGoing (handle_packet d) (omega (arith, ap length (handle_packet-read_len_buf d)))

length_known-IsGoing :
    (s : Socket) → s.read_watch ≡ true → length s.read_len_buf ≡ 4 → IsGoing (length_known s)
unfolding length_known
length_known-IsGoing s w l = elim (Bool-cases (leb (big_endian s.read_len_buf) 0x8000)) [
  | inr long ↦ rw long (inl refl)
  | inl fits ↦
      let f : Socket = record s { read_len = big_endian s.read_len_buf; read_buf = [] } in
      elim (Bool-cases (ltb 0 (big_endian s.read_len_buf))) [
        | inl body ↦ rw (fits, body) (inr (w, inr (l, ltb→lt 0 _ body)))
        | inr empty ↦ rw (fits, empty) (finish_packet-IsGoing f)
      ]
]

length_byte-IsGoing :
    (s : Socket) (b : ℕ)
    → s.read_watch ≡ true
    → length s.read_len_buf < 4
    → IsGoing (decode_byte s b)
unfolding decode_byte
length_byte-IsGoing s b w h =
    let d : Socket = record s { read_len_buf = s.read_len_buf ++ (b ∷ []) } in
    let n = length-append s.read_len_buf (b ∷ []) in
    elim (Bool-cases (ltb (length (s.read_len_buf ++ (b ∷ []))) 4)) [
      | inl more ↦
          let step : decode_byte s b ≡ d = ground arith in
          subst IsGoing (sym step) (inr (w, inl (ltb→lt _ _ more)))
      | inr whole ↦
          let step : decode_byte s b ≡ length_known d = ground arith in
          subst IsGoing (sym step)
            (length_known-IsGoing d w (omega (arith, n, h, not_lt_of_ltb _ _ whole)))
    ]

body_byte-IsGoing :
    (s : Socket) (b : ℕ)
    → s.read_watch ≡ true
    → length s.read_len_buf ≡ 4
    → IsGoing (decode_byte s b)
unfolding decode_byte
body_byte-IsGoing s b w l =
    let d : Socket = record s { read_buf = s.read_buf ++ (b ∷ []) } in
    elim (Bool-cases (ltb (length (s.read_buf ++ (b ∷ []))) s.read_len)) [
      | inl more ↦
          let step : decode_byte s b ≡ d = ground arith in
          subst IsGoing (sym step) (inr (w, inr (l, ltb→lt _ _ more)))
      | inr whole ↦
          let step : decode_byte s b ≡ settle (finish_packet d) = ground arith in
          subst IsGoing (sym step) (finish_packet-IsGoing d)
    ]

decode_byte_stopped : (s : Socket) (b : ℕ) → s.read_watch ≡ false → decode_byte s b ≡ s
unfolding decode_byte
decode_byte_stopped s b off = ground arith

decode_byte-IsGoing : (s : Socket) (b : ℕ) → IsGoing s → IsGoing (decode_byte s b)
decode_byte-IsGoing s b (inl off) = subst IsGoing (sym (decode_byte_stopped s b off)) (inl off)
decode_byte-IsGoing s b (inr (w, inl part)) = length_byte-IsGoing s b w part
decode_byte-IsGoing s b (inr (w, inr (l, h))) = body_byte-IsGoing s b w l

decode-IsGoing : (s : Socket) (xs : List ℕ) → IsGoing s → IsGoing (decode s xs)
unfolding decode
decode-IsGoing s [] h = h
decode-IsGoing s (b ∷ xs) h = decode-IsGoing (decode_byte s b) xs (decode_byte-IsGoing s b h)

decode_stopped : (s : Socket) (xs : List ℕ) → s.read_watch ≡ false → decode s xs ≡ s
unfolding decode
decode_stopped s [] off = refl
decode_stopped s (b ∷ xs) off =
    ap (λ t. decode t xs) (decode_byte_stopped s b off) ∙ decode_stopped s xs off

-- The bytes that a call left.
abbrev waiting : Input → List ℕ
waiting (bytes xs) = xs
waiting _ = []

-- The main loop while there are bytes: it calls the read callback as long as the watch is there.
unfoldable pub run : ℕ → Socket → List ℕ → Socket
run zero s xs = s
run (suc fuel) s [] = s
run (suc fuel) s (b ∷ xs) =
    let r = read_callback s (bytes (b ∷ xs)) in
    let rest = run fuel r.1 (waiting r.2) in if s.read_watch then rest else s

used_some :
    {s : Socket} {b : ℕ} {xs : List ℕ} {r : Bool × Socket × Input}
    → (t : Decodes s (b ∷ xs) r) → 1 ≤ length t.used
used_some t = elim t.moves [ inl e ↦ absurd (omega (arith, ap length e)) | inr m ↦ m ]

run_step :
    (fuel : ℕ) (s : Socket) (b : ℕ) (xs : List ℕ)
    → s.read_watch ≡ true
    → run (suc fuel) s (b ∷ xs)
      ≡ run fuel (read_callback s (bytes (b ∷ xs))).1 (waiting (read_callback s (bytes (b ∷ xs))).2)
unfolding run
run_step fuel s b xs w = ground arith

run_stopped :
    (fuel : ℕ) (s : Socket) (b : ℕ) (xs : List ℕ)
    → s.read_watch ≡ false
    → run (suc fuel) s (b ∷ xs) ≡ s
unfolding run
run_stopped fuel s b xs off = ground arith

-- However the bytes fall into calls, the main loop makes of the socket what the decoder makes of it:
-- with as much fuel as there are bytes, starting inside a length, inside a body or stopped.
pub run-decode :
    (fuel : ℕ) (s : Socket) (xs : List ℕ)
    → IsGoing s
    → length xs ≤ fuel
    → run fuel s xs ≡ decode s xs
unfolding run decode
run-decode zero s [] h n = refl
run-decode zero s (b ∷ xs) h n = absurd (omega arith)
run-decode (suc fuel) s [] h n = refl
run-decode (suc fuel) s (b ∷ xs) (inl off) n =
    run_stopped fuel s b xs off ∙ sym (decode_stopped s (b ∷ xs) off)
run-decode (suc fuel) s (b ∷ xs) (inr h) n =
    let t = read_callback-decode s (b ∷ xs) h in
    let less : length t.rest ≤ fuel =
      omega (arith, n, ap length t.split, length-append t.used t.rest, used_some t) in
    run_step fuel s b xs h.0
    ∙ rw (t.state, t.left)
        (run-decode fuel (decode s t.used) t.rest (decode-IsGoing s t.used (inr h)) less
          ∙ sym (ap (λ l. decode s l) t.split ∙ decode-append s t.used t.rest))
