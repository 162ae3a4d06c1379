-- ===== src/Socket/Write.antt =====
-- src/grilio_transport_socket.c: writing the subscription, and requests behind a header. The reference
-- that the transport holds on a request is not counted here.
pub mod Unsent
pub mod Part
pub mod Progress
pub mod Flush
use libgrilio.Base.{
  ℕ, ◌+◌, ◌/◌, ◌%◌, Bool, true, false, not, Option, none, some, List, [], ◌∷◌, ◌++◌, ltb,
  if◌then◌else◌, length, take, drop,
}
use libgrilio.Wire.{bytes_of_word}
use libgrilio.Channel.State.{SendStatus}
use libgrilio.Socket.State.{Socket, Event, emit, handle_write_error}

-- What the socket makes of a g_io_channel_write_chars: so many bytes are taken, none when it would
-- block, or there is an error; and the bytes that have gone out.
pub record Device : Type 0 where
  pub answers : List (Option ℕ)
  pub wire : List ℕ

-- `grilio_transport_socket_write_chars`: the number of bytes written, or an error.
abbrev pub take_answer : List ℕ → List (Option ℕ) → List ℕ → Option ℕ × Device
take_answer buf [] wire = (some 0, record { answers = []; wire = wire })
take_answer buf (none ∷ rest) wire = (none, record { answers = rest; wire = wire })
take_answer buf (some n ∷ rest) wire =
    let sent = take n buf in (some (length sent), record { answers = rest; wire = wire ++ sent })

unfoldable pub write_chars : List ℕ → Device → Option ℕ × Device
write_chars buf dev = take_answer buf dev.answers dev.wire

-- How far a buffer has gone out: an error, a part of it, or all of it.
pub data Verdict : Type 0 where
  failed partial whole : Verdict

pub record Stage : Type 0 where
  pub verdict : Verdict
  pub pos : ℕ
  pub device : Device

abbrev pub advance : List ℕ → ℕ → Option ℕ × Device → Stage
advance buf pos (none, dev) = record { verdict = Verdict.failed; pos = pos; device = dev }
advance buf pos (some k, dev) = record {
  verdict = if ltb (pos + k) (length buf) then Verdict.partial else Verdict.whole;
  pos = pos + k;
  device = dev;
}

-- One of the three parts of `grilio_transport_socket_write`, which are alike.
unfoldable pub stage : List ℕ → ℕ → Device → Stage
stage buf pos dev =
    let done : Stage = record { verdict = Verdict.whole; pos = pos; device = dev } in
    if ltb pos (length buf) then advance buf pos (write_chars (drop pos buf) dev) else done

-- The result: TRUE or FALSE, and whether `error` was set.
pub record Written : Type 0 where
  pub ok : Bool
  pub error : Bool
  pub socket : Socket
  pub device : Device

abbrev pub finish_data : Socket → Verdict → ℕ → Device → Written
finish_data s Verdict.failed pos dev = record { ok = false; error = true; socket = s; device = dev }
finish_data s Verdict.partial pos dev = record {
  ok = true;
  error = false;
  socket = record s { send_pos = pos };
  device = dev;
}
finish_data s Verdict.whole pos dev = record {
  ok = true;
  error = false;
  socket = record s { send_pos = pos; send_req = none };
  device = dev;
}

abbrev pub finish_header : Socket → List ℕ → Verdict → ℕ → Device → Written
finish_header s body Verdict.failed pos dev = record {
  ok = false;
  error = true;
  socket = s;
  device = dev;
}
finish_header s body Verdict.partial pos dev = record {
  ok = true;
  error = false;
  socket = record s { send_header_pos = pos };
  device = dev;
}
finish_header s body Verdict.whole pos dev =
    let st = stage body s.send_pos dev in
    finish_data (record s { send_header_pos = pos }) st.verdict st.pos st.device

-- The part behind the subscription.
abbrev pub write_found : Socket → Option (ℕ × List ℕ) → Device → Written
write_found s none dev = record { ok = false; error = false; socket = s; device = dev }
write_found s (some (p, body)) dev =
    let st = stage s.send_header s.send_header_pos dev in
    finish_header s body st.verdict st.pos st.device

abbrev pub write_request : Bool → Socket → Device → Written
write_request false s dev = record { ok = false; error = false; socket = s; device = dev }
write_request true s dev = write_found s s.send_req dev

abbrev pub finish_sub : Socket → Verdict → ℕ → Device → Written
finish_sub s Verdict.failed pos dev = record { ok = false; error = true; socket = s; device = dev }
finish_sub s Verdict.partial pos dev = record {
  ok = true;
  error = false;
  socket = record s { sub_pos = pos };
  device = dev;
}
finish_sub s Verdict.whole pos dev = write_request s.connected (record s { sub_pos = pos }) dev

-- `grilio_transport_socket_write`
unfoldable pub write : Socket → Device → Written
write s dev = let st = stage s.sub s.sub_pos dev in finish_sub s st.verdict st.pos st.device

abbrev pub raise : Bool → Socket → Socket
raise true s = handle_write_error s
raise false s = s

-- What the watch is told: the request was partly written, or it is sent, or there was none.
abbrev pub after_write : Option (ℕ × List ℕ) → Option (ℕ × List ℕ) → Socket → Bool × Socket
after_write before (some r) s = (true, s)
after_write (some (p, body)) none s =
    (false, record (emit (Event.signal_request_sent p) s) { write_watch = false })
after_write none none s = (false, record s { write_watch = false })

-- `grilio_transport_socket_write_callback`, for G_IO_OUT. The handler of the signal may hand the next
-- request over before the watch goes; here this comes afterwards.
unfoldable pub write_callback : Socket → Device → Bool × Socket × Device
write_callback s dev =
    let w = write s dev in
    let (go, d) = after_write s.send_req w.socket.send_req w.socket in
    let stopped : Socket = record w.socket { write_watch = false } in
    if w.ok then (go, d, w.device) else (false, raise w.error stopped, w.device)

-- The header of a request: the length behind it in big endian, the code and the serial.
abbrev pub request_header : ℕ → ℕ → List ℕ → List ℕ
request_header code serial body =
    let len = length body + 8 in
    (len / 16777216 % 256 ∷ len / 65536 % 256 ∷ len / 256 % 256 ∷ len % 256 ∷ [])
    ++ (bytes_of_word code ++ bytes_of_word serial)

abbrev pub sent_status : Option (ℕ × List ℕ) → Socket → SendStatus × Socket
sent_status none s = (SendStatus.ok, s)
sent_status (some r) s = (SendStatus.pending, record s { write_watch = true })

-- The request goes into the transport's hands.
abbrev pub load : ℕ → ℕ → ℕ → List ℕ → Socket → Socket
load p code serial body s = record s {
  send_header = request_header code serial body;
  send_req = some (p, body);
  send_header_pos = 0;
  send_pos = 0;
}

abbrev pub is_free : Option (ℕ × List ℕ) → Bool
is_free none = true
is_free (some r) = false

-- `grilio_transport_socket_send`, of the request `p` with its code, serial and data.
unfoldable pub send : ℕ → ℕ → ℕ → List ℕ → Socket → Device → SendStatus × Socket × Device
send p code serial body s dev =
    let w = write (load p code serial body s) dev in
    let (status, d) = sent_status w.socket.send_req w.socket in
    let done : SendStatus × Socket × Device =
      if w.ok
      then (status, d, w.device)
      else (SendStatus.error, raise w.error w.socket, w.device) in
    if not (is_free s.send_req)
    then (SendStatus.error, s, dev)
    else if s.io_channel
    then done
    else (SendStatus.error, s, dev)
