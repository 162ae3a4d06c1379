-- ===== src/Socket/Stream/Calls.antt =====
-- src/grilio_transport_socket.c: the read callback, called as long as there are bytes and the watch
-- is there.
use libgrilio.Base.{
  ℕ, ◌+◌, ◌-◌, ◌≤◌, ◌<◌, ◌≡◌, refl, sym, ap, ◌∙◌, ◌⊎◌, Bool, true, false, lt→ltb, ltb→lt,
  le→not_ltb, not_lt_of_ltb, Bool-cases, inl, inr, List, [], ◌∷◌, ◌++◌, arith, ltb, length, take,
  drop, length-append, length-take, take-append-drop, append_assoc,
}
use libgrilio.Socket.State.{Socket}
use libgrilio.Socket.Read.{Input, bytes, read_body, start_body, read, after_read, read_callback}
use libgrilio.Socket.Stream.{
  settle, length_known, decode, decode-append, decode_prefix_part, decode_prefix,
}
use libgrilio.Socket.Stream.Chunks.{IsReading, Takes, read_body-Takes, start_body-Takes, taken}

read_prefix_part :
    (s : Socket) (xs : List ℕ)
    → length s.read_len_buf < 4
    → ltb (length (s.read_len_buf ++ take (4 - length s.read_len_buf) xs)) 4 ≡ true
    → read s (bytes xs) ≡ (
      true,
      record s { read_len_buf = s.read_len_buf ++ take (4 - length s.read_len_buf) xs },
      bytes (drop (4 - length s.read_len_buf) xs),
    )
unfolding read
read_prefix_part s xs h part = rw (lt→ltb _ _ h, part)

read_prefix_whole :
    (s : Socket) (xs : List ℕ)
    → length s.read_len_buf < 4
    → ltb (length (s.read_len_buf ++ take (4 - length s.read_len_buf) xs)) 4 ≡ false
    → read s (bytes xs)
      ≡ start_body
          (record s { read_len_buf = s.read_len_buf ++ take (4 - length s.read_len_buf) xs })
          (bytes (drop (4 - length s.read_len_buf) xs))
unfolding read
read_prefix_whole s xs h whole = rw (lt→ltb _ _ h, whole)

read_in_body :
    (s : Socket) (input : Input) → length s.read_len_buf ≡ 4 → read s input ≡ read_body s input
unfolding read
read_in_body s input l = rw (le→not_ltb (length s.read_len_buf) 4 (omega arith))

decode_prefix_whole :
    (us : List ℕ) (s : Socket)
    → s.read_watch ≡ true
    → length s.read_len_buf < 4
    → length s.read_len_buf + length us ≡ 4
    → decode s us ≡ length_known (record s { read_len_buf = s.read_len_buf ++ us })
decode_prefix_whole [] s w h n = absurd (omega arith)
decode_prefix_whole (b ∷ us) s w h n = decode_prefix us b s w n

read_prefix-Takes :
    (s : Socket) (xs : List ℕ)
    → s.read_watch ≡ true
    → length s.read_len_buf < 4
    → Takes 1 s xs (read s (bytes xs))
read_prefix-Takes s xs w h =
    let want = 4 - length s.read_len_buf in
    let us = take want xs in
    let n = length-append s.read_len_buf us in
    let t = length-take want xs in
    let d : Socket = record s { read_len_buf = s.read_len_buf ++ us } in
    elim (Bool-cases (ltb (length (s.read_len_buf ++ us)) 4)) [
      | inl part ↦ rw (read_prefix_part s xs h part) (record {
        used = us;
        rest = drop want xs;
        split = sym (take-append-drop want xs);
        left = refl;
        state = sym (decode_prefix_part us s w (omega (arith, n, ltb→lt _ _ part)));
        moves = taken want xs (omega arith);
      })
      | inr whole ↦
          let four : length s.read_len_buf + length us ≡ 4 =
            omega (arith, n, t, not_lt_of_ltb _ _ whole) in
          let body = start_body-Takes d (drop want xs) w (omega (arith, n, four)) in
          rw (read_prefix_whole s xs h whole) (record {
            used = us ++ body.used;
            rest = body.rest;
            split =
                sym (take-append-drop want xs)
                ∙ ap (λ l. us ++ l) body.split
                ∙ sym (append_assoc us body.used body.rest);
            left = body.left;
            state =
                body.state
                ∙ ap (λ x. decode x body.used) (sym (decode_prefix_whole us s w h four))
                ∙ sym (decode-append s us body.used);
            moves = inr (omega (arith, length-append us body.used, four, h));
          })
    ]

read-Takes : (s : Socket) (xs : List ℕ) → IsReading s → Takes 1 s xs (read s (bytes xs))
read-Takes s xs (w, inl part) = read_prefix-Takes s xs w part
read-Takes s xs (w, inr (l, h)) = rw (read_in_body s (bytes xs) l) (read_body-Takes s xs w l h)

-- The watch is kept or taken away as `settle` says.
after_read-settle :
    (r : Bool × Socket × Input) → ((after_read r).1 ≡ settle (r.0, r.1)) × ((after_read r).2 ≡ r.2)
unfolding after_read
after_read-settle (true, d, rest) = (refl, refl)
after_read-settle (false, d, rest) = (refl, refl)

-- What a call of the callback with the bytes `xs` does.
pub record Decodes (s : Socket) (xs : List ℕ) (r : Bool × Socket × Input) : Type 0 where
  pub used : List ℕ
  pub rest : List ℕ
  pub split : xs ≡ used ++ rest
  pub left : r.2 ≡ bytes rest
  pub state : r.1 ≡ decode s used
  pub moves : (xs ≡ []) ⊎ (1 ≤ length used)

-- A call of the read callback, inside a length or a body, with any bytes waiting, takes the first of
-- them, at least one if there is one, and leaves the rest. The socket is then the one that the
-- byte-at-a-time decoder makes of the bytes taken.
pub read_callback-decode :
    (s : Socket) (xs : List ℕ) → IsReading s → Decodes s xs (read_callback s (bytes xs))
unfolding read_callback
read_callback-decode s xs h =
    let t = read-Takes s xs h in
    let (state, left) = after_read-settle (read s (bytes xs)) in
    record {
      used = t.used;
      rest = t.rest;
      split = t.split;
      left = left ∙ t.left;
      state = state ∙ t.state;
      moves = t.moves;
    }
