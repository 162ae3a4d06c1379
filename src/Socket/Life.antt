-- ===== src/Socket/Life.antt =====
-- src/grilio_transport_socket.c: how a socket comes and goes, and the calls in between. GLib makes a
-- channel of the descriptor or does not, and closes it; the reference on a request is not counted here.
pub mod Sound
pub mod Reading
pub mod Errors
use libgrilio.Base.{
  ℕ, ◌≡◌, Bool, true, false, not, ◌&&◌, ◌==◌, Option, none, some, List, [], ◌∷◌, if◌then◌else◌,
  length,
}
use libgrilio.Base.Int.{ℤ, is_negative}
use libgrilio.Encode.{bytes_in}
use libgrilio.Request.{Request, serial_of, data_of}
use libgrilio.Transport.{Class}
use libgrilio.Socket.State.{Socket, shutdown, write_error_cb}
use libgrilio.Socket.Read.{Input, read_callback}
use libgrilio.Socket.Write.{Device, send, write_callback}

-- strlen(sub) == RIL_SUB_LEN, or there is none.
abbrev sub_fits : Option (List ℕ) → Bool
sub_fits none = true
sub_fits (some sub) = length sub == 4

-- What g_object_new leaves, with both watches set.
abbrev fresh : List ℕ → ℕ → Bool → Socket
fresh sub sub_pos write_watch = record {
  connected = false;
  ril_version = 0;
  io_channel = true;
  read_watch = true;
  write_watch = write_watch;
  write_error = false;
  disconnected = false;
  sub = sub;
  sub_pos = sub_pos;
  send_header = 0 ∷ 0 ∷ 0 ∷ 0 ∷ 0 ∷ 0 ∷ 0 ∷ 0 ∷ 0 ∷ 0 ∷ 0 ∷ 0 ∷ [];
  send_header_pos = 0;
  send_pos = 0;
  send_req = none;
  read_len_buf = [];
  read_len = 0;
  read_buf = [];
  out = [];
}

-- The subscription is to be written first; with none it counts as written.
abbrev pub with_sub : Option (List ℕ) → Socket
with_sub none = fresh (0 ∷ 0 ∷ 0 ∷ 0 ∷ []) 4 false
with_sub (some sub) = fresh sub 0 true

-- `grilio_transport_socket_new`; `opened` says whether g_io_channel_unix_new makes a channel.
unfoldable pub socket_new : ℤ → Option (List ℕ) → Bool → Option Socket
socket_new fd sub opened =
    if not (is_negative fd) && sub_fits sub && opened then some (with_sub sub) else none

-- `grilio_transport_socket_finalize`
unfoldable pub finalize : Socket → Socket
finalize s = record (shutdown s) { send_req = none; write_error = false; read_buf = [] }

-- `grilio_transport_socket_class_init`: what the transport class asks for. A request is handed over with
-- its serial and its data.
abbrev pub socket_class : (ℕ → Request) → Class (Socket × Device)
socket_class reqs = record {
  ril_version_offset = 0;
  send = λ p code t.
      let (status, s, dev) =
        send p code (serial_of (some (reqs p))) (bytes_in (data_of (some (reqs p)))) t.0 t.1 in
      (status, (s, dev));
  shutdown = λ flush t. (shutdown t.0, t.1);
}

-- A socket that has been made, and the calls of its sources and methods since, in any order. A
-- callback is called while its source is set.
pub data Reach : Socket → Type 0 where
  made : {s : Socket} (fd : ℤ) (sub : Option (List ℕ)) → socket_new fd sub true ≡ some s → Reach s
  readable :
      {s : Socket} (input : Input) → s.read_watch ≡ true → Reach s → Reach (read_callback s input).1
  writable :
      {s : Socket} (dev : Device) → s.write_watch ≡ true → Reach s → Reach (write_callback s dev).1
  failing : {s : Socket} → s.write_error ≡ true → Reach s → Reach (write_error_cb s)
  sending :
      {s : Socket} (p code serial : ℕ) (body : List ℕ) (dev : Device)
      → Reach s
      → Reach (send p code serial body s dev).1
  closing : {s : Socket} → Reach s → Reach (shutdown s)
