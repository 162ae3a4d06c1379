-- ===== src/Socket/Read.antt =====
-- src/grilio_transport_socket.c: reading packets. A packet is a length, four bytes in big endian, and
-- as many bytes.
use libgrilio.Base.{
  ℕ, ◌+◌, ◌-◌, ◌*◌, Bool, true, false, Option, none, some, List, [], ◌∷◌, ◌++◌, ltb, leb, ◌==◌,
  if◌then◌else◌, length, get_or, take, drop,
}
use libgrilio.Parser.{Parser, init, get_uint32, load32}
use libgrilio.Channel.Response.{ResponseType, IndicationType}
use libgrilio.Socket.State.{Socket, Event, emit, handle_read_error, handle_eof}

-- buf[i] of the packet as an array of words.
abbrev pub word_at : ℕ → Socket → ℕ
word_at i s = load32 (λ a. get_or s.read_buf a 0) (4 * i)

-- `grilio_transport_socket_signal_response`
unfoldable pub signal_response : ResponseType → Socket → Socket
signal_response type s =
    emit (Event.signal_response type (word_at 1 s) (word_at 2 s) (drop 12 s.read_buf)) s

-- `grilio_transport_socket_handle_solicited` and `..._handle_solicited_ack_exp`
unfoldable pub handle_solicited : ResponseType → Socket → Bool × Socket
handle_solicited type s =
    if leb 12 s.read_len then (true, signal_response type s) else (false, handle_read_error s)

-- `grilio_transport_socket_handle_solicited_ack`
unfoldable pub handle_solicited_ack : Socket → Bool × Socket
handle_solicited_ack s =
    (true, emit (Event.signal_response ResponseType.solicited_ack (word_at 1 s) 0 []) s)

-- `grilio_transport_socket_connected`: one word that says 1, and the version.
abbrev pub accept_version : Option ℕ → Socket → Socket
accept_version none s = s
accept_version (some version) s =
    emit Event.signal_connected (record s { ril_version = version; connected = true })

abbrev pub accept_count : (ℕ → ℕ) → Option ℕ × Parser → Socket → Socket
accept_count mem (none, p) s = s
accept_count mem (some num, p) s = if num == 1 then accept_version (get_uint32 mem p).0 s else s

unfoldable pub connect : Socket → Socket
connect s =
    let mem = λ (a : ℕ). get_or s.read_buf a 0 in
    accept_count mem (get_uint32 mem (init 8 (s.read_len - 8))) s

-- `grilio_transport_socket_handle_indication`; RIL_UNSOL_RIL_CONNECTED is 1034.
unfoldable pub handle_indication : IndicationType → Socket → Bool × Socket
handle_indication type s =
    let code = word_at 1 s in
    let d = emit (Event.signal_indication type code (drop 8 s.read_buf)) s in
    (true, if code == 1034 then connect d else d)

-- `grilio_transport_socket_handle_packet`
unfoldable pub handle_packet : Socket → Bool × Socket
handle_packet s =
    let type = word_at 0 s in
    if leb 8 s.read_len
    then (if type == 0
        then handle_solicited ResponseType.solicited s
        else if type == 1
        then handle_indication IndicationType.unsolicited s
        else if type == 2
        then handle_solicited_ack s
        else if type == 3
        then handle_solicited ResponseType.solicited_ack_exp s
        else if type == 4
        then handle_indication IndicationType.unsolicited_ack_exp s
        else (true, s))
    else (false, handle_read_error s)

-- What the socket has for a g_io_channel_read_chars: bytes that have come (none: it would block), the
-- end of the stream, or an error.
pub data Input : Type 0 where
  bytes : List ℕ → Input
  eof failure : Input

-- GUINT32_FROM_BE of the four length bytes.
abbrev pub big_endian : List ℕ → ℕ
big_endian (a ∷ b ∷ c ∷ d ∷ l) = 16777216 * a + 65536 * b + 256 * c + d
big_endian _ = 0

-- The packet is whole: the reader is ready for the next length.
unfoldable pub finish_packet : Socket → Bool × Socket
finish_packet s = handle_packet (record s { read_len_buf = [] })

-- The part of `grilio_transport_socket_read` behind the length. What is left of the input goes on.
unfoldable pub read_body : Socket → Input → Bool × Socket × Input
read_body s input =
    let finish = λ (d : Socket) (rest : Input).
      (let (go, f) = finish_packet d in let r : Bool × Socket × Input = (go, f, rest) in r) in
    let want = s.read_len - length s.read_buf in
    if ltb (length s.read_buf) s.read_len
    then elim input [
      | bytes xs ↦
          (let d : Socket = record s { read_buf = s.read_buf ++ take want xs } in
            if ltb (length d.read_buf) d.read_len
            then (true, d, bytes (drop want xs))
            else finish d (bytes (drop want xs)))
      | eof ↦ (false, handle_eof s, eof)
      | failure ↦ (false, handle_read_error s, failure)
    ]
    else finish s input

-- The length is known; RIL_MAX_PACKET_LEN is 0x8000.
unfoldable pub start_body : Socket → Input → Bool × Socket × Input
start_body s input =
    let d : Socket = record s { read_len = big_endian s.read_len_buf } in
    if leb d.read_len 0x8000
    then read_body (record d { read_buf = [] }) input
    else (false, d, input)

-- `grilio_transport_socket_read`
unfoldable pub read : Socket → Input → Bool × Socket × Input
read s input =
    let want = 4 - length s.read_len_buf in
    if ltb (length s.read_len_buf) 4
    then elim input [
      | bytes xs ↦
          (let d : Socket = record s { read_len_buf = s.read_len_buf ++ take want xs } in
            if ltb (length d.read_len_buf) 4
            then (true, d, bytes (drop want xs))
            else start_body d (bytes (drop want xs)))
      | eof ↦ (false, handle_eof s, eof)
      | failure ↦ (false, handle_read_error s, failure)
    ]
    else read_body s input

-- What the callback makes of the result: the watch stays or goes.
unfoldable pub after_read : Bool × Socket × Input → Bool × Socket × Input
after_read (true, d, rest) = (true, d, rest)
after_read (false, d, rest) = (false, record d { read_watch = false }, rest)

-- `grilio_transport_socket_read_callback`, for G_IO_IN
unfoldable pub read_callback : Socket → Input → Bool × Socket × Input
read_callback s input = after_read (read s input)
