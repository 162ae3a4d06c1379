-- ===== src/Socket/Life/Reading.antt =====
-- src/grilio_transport_socket.c: a sound socket stays sound when it reads.
use libgrilio.Base.{
  ℕ, length, ◌++◌, take, ltb, ◌-◌, get_or, drop, leb, Bool, true, false, ◌≡◌, Option, none, some,
  List, [], ◌==◌, arith,
}
use libgrilio.Parser.{Parser, init, get_uint32}
use libgrilio.Channel.Response.{ResponseType, IndicationType}
use libgrilio.Socket.State.{
  Socket, Event, emit, shutdown_io, disconnected, handle_eof, shutdown, handle_read_error,
  handle_eof,
}
use libgrilio.Socket.Read.{
  Input, read_callback, handle_packet, handle_solicited, handle_solicited_ack, handle_indication,
  signal_response, connect, finish_packet, read_body, start_body, read, big_endian, word_at, bytes,
  eof, failure, after_read, accept_version, accept_count,
}
use libgrilio.Socket.Life.Sound.{
  IsSound, if-IsSound, if-after, if-before, handle_read_error-IsSound,
}

-- A new packet comes while the connection is up, and its signals are other ones.
accept_count-IsSound :
    (mem : ℕ → ℕ) (r : Option ℕ × Parser) (s : Socket)
    → s.disconnected ≡ false
    → IsSound s
    → IsSound (accept_count mem r s)
accept_count-IsSound mem (none, p) s d v = v
accept_count-IsSound mem (some num, p) s d v =
    if-IsSound (num == 1) (accept_version (get_uint32 mem p).0 s) s
      (accept_version-IsSound (get_uint32 mem p).0) v
  where
    accept_version-IsSound : (o : Option ℕ) → IsSound (accept_version o s)
    accept_version-IsSound none = v
    accept_version-IsSound (some version) = ground arith

indicated-IsSound :
    (type : IndicationType) (code : ℕ) (data1 : List ℕ) (s : Socket)
    → IsSound s
    → IsSound (emit (Event.signal_indication type code data1) s)
indicated-IsSound type code data1 s v = ground arith

connect-IsSound : (s : Socket) → s.disconnected ≡ false → IsSound s → IsSound (connect s)
unfolding connect
connect-IsSound s d v =
    let mem = λ (a : ℕ). get_or s.read_buf a 0 in
    accept_count-IsSound mem (get_uint32 mem (init 8 (s.read_len - 8))) s d v

handle_indication-IsSound :
    (type : IndicationType) (s : Socket)
    → s.disconnected ≡ false
    → IsSound s
    → IsSound (handle_indication type s).1
unfolding handle_indication
handle_indication-IsSound type s d v =
    let t = emit (Event.signal_indication type (word_at 1 s) (drop 8 s.read_buf)) s in
    let w = indicated-IsSound type (word_at 1 s) (drop 8 s.read_buf) s v in
    if-IsSound (word_at 1 s == 1034) (connect t) t (connect-IsSound t d w) w

handle_solicited_ack-IsSound : (s : Socket) → IsSound s → IsSound (handle_solicited_ack s).1
unfolding handle_solicited_ack
handle_solicited_ack-IsSound s v = ground arith

signal_response-IsSound :
    (type : ResponseType) (s : Socket) → IsSound s → IsSound (signal_response type s)
unfolding signal_response
signal_response-IsSound type s v = ground arith

handle_solicited-IsSound :
    (type : ResponseType) (s : Socket) → IsSound s → IsSound (handle_solicited type s).1
unfolding handle_solicited
handle_solicited-IsSound type s v =
    if-after (leb 12 s.read_len) (true, signal_response type s) (false, handle_read_error s)
      (signal_response-IsSound type s v) (handle_read_error-IsSound s v)

handle_packet-IsSound :
    (s : Socket) → s.disconnected ≡ false → IsSound s → IsSound (handle_packet s).1
unfolding handle_packet
handle_packet-IsSound s d v =
    let type = word_at 0 s in
    if-after (leb 8 s.read_len) _ _
      (if-after (type == 0) _ _ (handle_solicited-IsSound ResponseType.solicited s v) (
        if-after (type == 1) _ _ (handle_indication-IsSound IndicationType.unsolicited s d v) (
          if-after (type == 2) _ _ (handle_solicited_ack-IsSound s v) (
            if-after (type == 3) _ _ (handle_solicited-IsSound ResponseType.solicited_ack_exp s v) (
              if-after (type == 4) _ _
                (handle_indication-IsSound IndicationType.unsolicited_ack_exp s d v) v)))))
      (handle_read_error-IsSound s v)

handle_eof-IsSound : (s : Socket) → IsSound s → IsSound (handle_eof s)
unfolding handle_eof shutdown shutdown_io disconnected
handle_eof-IsSound s v = ground arith

read_body-IsSound :
    (s : Socket) (input : Input)
    → s.disconnected ≡ false
    → IsSound s
    → IsSound (read_body s input).1
unfolding read_body finish_packet
read_body-IsSound s (bytes xs) d v =
    let more = s.read_buf ++ take (s.read_len - length s.read_buf) xs in
    if-before (ltb (length s.read_buf) s.read_len) _ _
      (if-before (ltb (length more) s.read_len) _ _ v
        (handle_packet-IsSound (record s { read_buf = more; read_len_buf = [] }) d v))
      (handle_packet-IsSound (record s { read_len_buf = [] }) d v)
read_body-IsSound s eof d v =
    if-before (ltb (length s.read_buf) s.read_len) _ _ (handle_eof-IsSound s v)
      (handle_packet-IsSound (record s { read_len_buf = [] }) d v)
read_body-IsSound s failure d v =
    if-before (ltb (length s.read_buf) s.read_len) _ _ (handle_read_error-IsSound s v)
      (handle_packet-IsSound (record s { read_len_buf = [] }) d v)

start_body-IsSound :
    (s : Socket) (input : Input)
    → s.disconnected ≡ false
    → IsSound s
    → IsSound (start_body s input).1
unfolding start_body
start_body-IsSound s input d v =
    let n = big_endian s.read_len_buf in
    if-before (leb n 0x8000) _ _
      (read_body-IsSound (record s { read_len = n; read_buf = [] }) input d v) v

read-IsSound :
    (s : Socket) (input : Input) → s.disconnected ≡ false → IsSound s → IsSound (read s input).1
unfolding read
read-IsSound s (bytes xs) d v =
    let want = 4 - length s.read_len_buf in
    let more = s.read_len_buf ++ take want xs in
    if-before (ltb (length s.read_len_buf) 4) _ _
      (if-before (ltb (length more) 4) _ _ v
        (start_body-IsSound (record s { read_len_buf = more }) (bytes (drop want xs)) d v))
      (read_body-IsSound s (bytes xs) d v)
read-IsSound s eof d v =
    if-before (ltb (length s.read_len_buf) 4) _ _ (handle_eof-IsSound s v)
      (read_body-IsSound s eof d v)
read-IsSound s failure d v =
    if-before (ltb (length s.read_len_buf) 4) _ _ (handle_read_error-IsSound s v)
      (read_body-IsSound s failure d v)

after_read-IsSound : (r : Bool × Socket × Input) → IsSound r.1 → IsSound (after_read r).1
unfolding after_read
after_read-IsSound (true, s, rest) v = v
after_read-IsSound (false, s, rest) v = ground arith

-- A source that is set says that the connection is there.
watched_up : (s : Socket) → s.read_watch ≡ true → IsSound s → s.disconnected ≡ false
watched_up s w v = ground arith

pub read_callback-IsSound :
    (s : Socket) (input : Input)
    → s.read_watch ≡ true
    → IsSound s
    → IsSound (read_callback s input).1
unfolding read_callback
read_callback-IsSound s input w v =
    after_read-IsSound (read s input) (read-IsSound s input (watched_up s w v) v)
