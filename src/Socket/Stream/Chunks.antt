-- ===== src/Socket/Stream/Chunks.antt =====
-- src/grilio_transport_socket.c, grilio_transport_socket_read_callback: one call takes some of the bytes
-- that have come, and does what the decoder does with those.
use libgrilio.Base.{
  ℕ, ◌+◌, ◌-◌, ◌≤◌, ◌<◌, ◌≡◌, refl, sym, ◌⊎◌, Bool, true, false, lt→ltb, ltb→lt, le→not_ltb,
  not_lt_of_ltb, Bool-cases, inl, inr, List, [], ◌∷◌, ◌++◌, arith, ltb, leb, length, take, drop,
  length-append, length-take, take-append-drop,
}
use libgrilio.Socket.State.{Socket}
use libgrilio.Socket.Read.{Input, bytes, big_endian, finish_packet, read_body, start_body}
use libgrilio.Socket.Stream.{settle, length_known, decode, decode_body_part, decode_body}

-- Between two calls: inside the length, or inside a body.
abbrev pub IsReading : Socket → Type 0
IsReading s =
    (s.read_watch ≡ true)
    × ((length s.read_len_buf < 4)
        ⊎ ((length s.read_len_buf ≡ 4) × (length s.read_buf < s.read_len)))

-- The outcome of a call on the bytes `xs`, of which `k` at least are taken, if there are any.
pub record Takes (k : ℕ) (s : Socket) (xs : List ℕ) (r : Bool × Socket × Input) : Type 0 where
  pub used : List ℕ
  pub rest : List ℕ
  pub split : xs ≡ used ++ rest
  pub left : r.2 ≡ bytes rest
  pub state : settle (r.0, r.1) ≡ decode s used
  pub moves : (xs ≡ []) ⊎ (k ≤ length used)

decode_body_whole :
    (us : List ℕ) (s : Socket)
    → s.read_watch ≡ true
    → length s.read_len_buf ≡ 4
    → length s.read_buf < s.read_len
    → length s.read_buf + length us ≡ s.read_len
    → decode s us ≡ settle (finish_packet (record s { read_buf = s.read_buf ++ us }))
decode_body_whole [] s w l h n = absurd (omega arith)
decode_body_whole (b ∷ us) s w l h n = decode_body us b s w l n

-- What the body part returns, by whether the bytes complete the packet.
abbrev finished : Socket → Input → Bool × Socket × Input
finished d rest = ((finish_packet d).0, (finish_packet d).1, rest)

read_body_part :
    (s : Socket) (xs : List ℕ)
    → length s.read_buf < s.read_len
    → ltb (length (s.read_buf ++ take (s.read_len - length s.read_buf) xs)) s.read_len ≡ true
    → read_body s (bytes xs) ≡ (
      true,
      record s { read_buf = s.read_buf ++ take (s.read_len - length s.read_buf) xs },
      bytes (drop (s.read_len - length s.read_buf) xs),
    )
unfolding read_body
read_body_part s xs h part = rw (lt→ltb _ _ h, part)

read_body_whole :
    (s : Socket) (xs : List ℕ)
    → length s.read_buf < s.read_len
    → ltb (length (s.read_buf ++ take (s.read_len - length s.read_buf) xs)) s.read_len ≡ false
    → read_body s (bytes xs)
      ≡ finished
          (record s { read_buf = s.read_buf ++ take (s.read_len - length s.read_buf) xs })
          (bytes (drop (s.read_len - length s.read_buf) xs))
unfolding read_body
read_body_whole s xs h whole = rw (lt→ltb _ _ h, whole)

pub taken : (want : ℕ) (xs : List ℕ) → 0 < want → (xs ≡ []) ⊎ (1 ≤ length (take want xs))
taken want [] h = inl refl
taken want (x ∷ xs) h = inr (omega (arith, length-take want (x ∷ xs)))

pub read_body-Takes :
    (s : Socket) (xs : List ℕ)
    → s.read_watch ≡ true
    → length s.read_len_buf ≡ 4
    → length s.read_buf < s.read_len
    → Takes 1 s xs (read_body s (bytes xs))
read_body-Takes s xs w l h =
    let want = s.read_len - length s.read_buf in
    let us = take want xs in
    let n = length-append s.read_buf us in
    let t = length-take want xs in
    elim (Bool-cases (ltb (length (s.read_buf ++ us)) s.read_len)) [
      | inl part ↦ rw (read_body_part s xs h part) (record {
        used = us;
        rest = drop want xs;
        split = sym (take-append-drop want xs);
        left = refl;
        state = sym (decode_body_part us s w l (omega (arith, n, ltb→lt _ _ part)));
        moves = taken want xs (omega arith);
      })
      | inr whole ↦ rw (read_body_whole s xs h whole) (record {
        used = us;
        rest = drop want xs;
        split = sym (take-append-drop want xs);
        left = refl;
        state = sym (decode_body_whole us s w l h (omega (arith, n, t, not_lt_of_ltb _ _ whole)));
        moves = taken want xs (omega arith);
      })
    ]

read_body_empty :
    (s : Socket) (input : Input)
    → s.read_len ≤ length s.read_buf
    → read_body s input ≡ finished s input
unfolding read_body
read_body_empty s input h = rw (le→not_ltb _ _ h)

start_body_fits :
    (s : Socket) (input : Input)
    → leb (big_endian s.read_len_buf) 0x8000 ≡ true
    → start_body s input
      ≡ read_body (record s { read_len = big_endian s.read_len_buf; read_buf = [] }) input
unfolding start_body
start_body_fits s input h = rw h

start_body_long :
    (s : Socket) (input : Input)
    → leb (big_endian s.read_len_buf) 0x8000 ≡ false
    → start_body s input ≡ (false, record s { read_len = big_endian s.read_len_buf }, input)
unfolding start_body
start_body_long s input h = rw h

weaken : {s : Socket} {xs : List ℕ} {r : Bool × Socket × Input} → Takes 1 s xs r → Takes 0 s xs r
weaken t = record {
  used = t.used;
  rest = t.rest;
  split = t.split;
  left = t.left;
  state = t.state;
  moves = inr (omega arith);
}

pub start_body-Takes :
    (s : Socket) (xs : List ℕ)
    → s.read_watch ≡ true
    → length s.read_len_buf ≡ 4
    → Takes 0 (length_known s) xs (start_body s (bytes xs))
unfolding length_known
start_body-Takes s xs w l = elim (Bool-cases (leb (big_endian s.read_len_buf) 0x8000)) [
  | inr long ↦
      rw (start_body_long s (bytes xs) long, long)
        (record {
          used = [];
          rest = xs;
          split = refl;
          left = refl;
          state = unfold decode in refl;
          moves = inr (omega arith);
        })
  | inl fits ↦
      let f : Socket = record s { read_len = big_endian s.read_len_buf; read_buf = [] } in
      elim (Bool-cases (ltb 0 (big_endian s.read_len_buf))) [
        | inl body ↦
            rw (start_body_fits s (bytes xs) fits, fits, body)
              (weaken (read_body-Takes f xs w l (ltb→lt _ _ body)))
        | inr none ↦
            rw
              (
                start_body_fits s (bytes xs) fits,
                read_body_empty f (bytes xs) (not_lt_of_ltb _ _ none),
                fits,
                none,
              )
              (record {
                used = [];
                rest = xs;
                split = refl;
                left = refl;
                state = unfold decode in refl;
                moves = inr (omega arith);
              })
      ]
]
