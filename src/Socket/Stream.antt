-- ===== src/Socket/Stream.antt =====
-- src/grilio_transport_socket.c, the reader against a decoder that takes the stream byte by byte: how
-- the bytes are cut into reads does not matter.
pub mod Chunks
pub mod Calls
pub mod Run
pub mod Packets
pub mod Messages
use libgrilio.Base.{
  ℕ, zero, suc, ◌+◌, ◌-◌, ◌≤◌, ◌<◌, ◌≡◌, refl, sym, ap, ◌∙◌, Bool, true, false, Bool-cases, inl,
  inr, not, List, [], ◌∷◌, ◌++◌, arith, ltb, leb, if◌then◌else◌, length, take, drop, length-append,
  append_assoc, append-nil,
}
use libgrilio.Socket.State.{Socket}
use libgrilio.Socket.Read.{big_endian, handle_packet, finish_packet}

-- A reader that was told to stop takes its watch away.
abbrev pub settle : Bool × Socket → Socket
settle (true, s) = s
settle (false, s) = record s { read_watch = false }

-- Four length bytes are there: a packet without a body is whole, and one that is too long ends it all.
unfoldable pub length_known : Socket → Socket
length_known s =
    let d : Socket = record s { read_len = big_endian s.read_len_buf } in
    let f : Socket = record d { read_buf = [] } in
    if leb d.read_len 0x8000
    then (if ltb 0 d.read_len then f else settle (finish_packet f))
    else record d { read_watch = false }

abbrev length_byte : ℕ → Socket → Socket
length_byte b s =
    let d : Socket = record s { read_len_buf = s.read_len_buf ++ (b ∷ []) } in
    if ltb (length d.read_len_buf) 4 then d else length_known d

abbrev body_byte : ℕ → Socket → Socket
body_byte b s =
    let d : Socket = record s { read_buf = s.read_buf ++ (b ∷ []) } in
    if ltb (length d.read_buf) d.read_len then d else settle (finish_packet d)

-- The decoder. Bytes that come after it was stopped are lost.
unfoldable pub decode_byte : Socket → ℕ → Socket
decode_byte s b =
    if not s.read_watch
    then s
    else if ltb (length s.read_len_buf) 4
    then length_byte b s
    else body_byte b s

unfoldable pub decode : Socket → List ℕ → Socket
decode s [] = s
decode s (b ∷ xs) = decode (decode_byte s b) xs

pub decode-append : (s : Socket) (xs ys : List ℕ) → decode s (xs ++ ys) ≡ decode (decode s xs) ys
unfolding decode
decode-append s [] ys = refl
decode-append s (b ∷ xs) ys = decode-append (decode_byte s b) xs ys

-- A run of bytes inside the length.
pub decode_prefix_part :
    (xs : List ℕ) (s : Socket)
    → s.read_watch ≡ true
    → length s.read_len_buf + length xs < 4
    → decode s xs ≡ record s { read_len_buf = s.read_len_buf ++ xs }
unfolding decode decode_byte
decode_prefix_part [] s w h =
    ap (λ l. record s { read_len_buf = l }) (sym (append-nil s.read_len_buf))
decode_prefix_part (b ∷ xs) s w h =
    let d : Socket = record s { read_len_buf = s.read_len_buf ++ (b ∷ []) } in
    let n = length-append s.read_len_buf (b ∷ []) in
    let step : decode_byte s b ≡ d = ground (arith, n) in
    let rest = decode_prefix_part xs d w (omega (arith, n)) in
    rw step
      (rest ∙ ap (λ l. record s { read_len_buf = l }) (append_assoc s.read_len_buf (b ∷ []) xs))

-- The run that completes the length.
pub decode_prefix :
    (xs : List ℕ) (b : ℕ) (s : Socket)
    → s.read_watch ≡ true
    → length s.read_len_buf + length (b ∷ xs) ≡ 4
    → decode s (b ∷ xs) ≡ length_known (record s { read_len_buf = s.read_len_buf ++ (b ∷ xs) })
unfolding decode decode_byte
decode_prefix [] b s w h = ground (arith, length-append s.read_len_buf (b ∷ []))
decode_prefix (c ∷ xs) b s w h =
    let d : Socket = record s { read_len_buf = s.read_len_buf ++ (b ∷ []) } in
    let n = length-append s.read_len_buf (b ∷ []) in
    let step : decode_byte s b ≡ d = ground (arith, n) in
    let rest = decode_prefix xs c d w (omega (arith, n)) in
    rw step (
      rest
      ∙ ap (λ l. length_known (record s { read_len_buf = l }))
          (append_assoc s.read_len_buf (b ∷ []) (c ∷ xs)))

-- The same for the body.
pub decode_body_part :
    (xs : List ℕ) (s : Socket)
    → s.read_watch ≡ true
    → length s.read_len_buf ≡ 4
    → length s.read_buf + length xs < s.read_len
    → decode s xs ≡ record s { read_buf = s.read_buf ++ xs }
unfolding decode decode_byte
decode_body_part [] s w l h = ap (λ r. record s { read_buf = r }) (sym (append-nil s.read_buf))
decode_body_part (b ∷ xs) s w l h =
    let d : Socket = record s { read_buf = s.read_buf ++ (b ∷ []) } in
    let n = length-append s.read_buf (b ∷ []) in
    let step : decode_byte s b ≡ d = ground (arith, n) in
    let rest = decode_body_part xs d w l (omega (arith, n)) in
    rw step (rest ∙ ap (λ r. record s { read_buf = r }) (append_assoc s.read_buf (b ∷ []) xs))

pub decode_body :
    (xs : List ℕ) (b : ℕ) (s : Socket)
    → s.read_watch ≡ true
    → length s.read_len_buf ≡ 4
    → length s.read_buf + length (b ∷ xs) ≡ s.read_len
    → decode s (b ∷ xs) ≡ settle (finish_packet (record s { read_buf = s.read_buf ++ (b ∷ xs) }))
unfolding decode decode_byte
decode_body [] b s w l h = ground (arith, length-append s.read_buf (b ∷ []))
decode_body (c ∷ xs) b s w l h =
    let d : Socket = record s { read_buf = s.read_buf ++ (b ∷ []) } in
    let n = length-append s.read_buf (b ∷ []) in
    let step : decode_byte s b ≡ d = ground (arith, n) in
    let rest = decode_body xs c d w l (omega (arith, n)) in
    rw step (
      rest
      ∙ ap (λ r. settle (finish_packet (record s { read_buf = r })))
          (append_assoc s.read_buf (b ∷ []) (c ∷ xs)))

header_body :
    (s : Socket) (a b c d : ℕ) (body : List ℕ)
    → s.read_watch ≡ true
    → s.read_len_buf ≡ []
    → decode s (a ∷ b ∷ c ∷ d ∷ body)
      ≡ decode (length_known (record s { read_len_buf = a ∷ b ∷ c ∷ d ∷ [] })) body
header_body s a b c d body w e =
    let four : length s.read_len_buf + 4 ≡ 4 = omega (arith, ap length e) in
    decode-append s (a ∷ b ∷ c ∷ d ∷ []) body
    ∙ ap (λ t. decode t body)
        (decode_prefix (b ∷ c ∷ d ∷ []) a s w four
          ∙ ap (λ l. length_known (record s { read_len_buf = l ++ (a ∷ b ∷ c ∷ d ∷ []) })) e)

-- A packet of 1 to 0x8000 bytes behind its length, between packets: it is handled once, whole, and
-- alone, with the reader ready for the next length; the watch goes if the packet is refused.
pub decode_packet :
    (s : Socket) (a b c d x : ℕ) (body : List ℕ)
    → s.read_watch ≡ true
    → s.read_len_buf ≡ []
    → big_endian (a ∷ b ∷ c ∷ d ∷ []) ≡ length (x ∷ body)
    → length (x ∷ body) ≤ 0x8000
    → decode s (a ∷ b ∷ c ∷ d ∷ x ∷ body)
      ≡ settle (
          handle_packet
            (record s { read_len_buf = []; read_len = length (x ∷ body); read_buf = x ∷ body }))
unfolding length_known finish_packet
decode_packet s a b c d x body w e n short =
    let f : Socket = record s {
      read_len_buf = a ∷ b ∷ c ∷ d ∷ [];
      read_len = big_endian (a ∷ b ∷ c ∷ d ∷ []);
      read_buf = [];
    } in
    let known : length_known (record s { read_len_buf = a ∷ b ∷ c ∷ d ∷ [] }) ≡ f = ground arith in
    header_body s a b c d (x ∷ body) w e
    ∙ ap (λ t. decode t (x ∷ body)) known
    ∙ decode_body body x f w refl (omega (arith, n))
    ∙ ap
        (λ k.
          settle
            (handle_packet (record s { read_len_buf = []; read_len = k; read_buf = x ∷ body })))
        n
