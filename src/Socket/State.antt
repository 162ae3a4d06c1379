-- ===== src/Socket/State.antt =====
-- src/grilio_transport_socket.c: the state of the transport, how it shuts down, and its errors.
-- `read_len_buf` and `read_buf` are the parts of the two buffers that are filled, so `read_len_pos` and
-- `read_buf_pos` are their lengths. A source id is a flag: the source is set. `send_req` is the request
-- with its data. What the outside sees is recorded in `out`, newest first.
use libgrilio.Base.{ℕ, Bool, true, false, Option, List, ◌∷◌, if◌then◌else◌}
use libgrilio.Channel.Response.{ResponseType, IndicationType}

pub data Event : Type 0 where
  signal_connected signal_disconnected signal_read_error signal_write_error : Event
  signal_request_sent : ℕ → Event
  -- type, id, status, data
  signal_response : ResponseType → ℕ → ℕ → List ℕ → Event
  -- type, code, data
  signal_indication : IndicationType → ℕ → List ℕ → Event

pub record Socket : Type 0 where
  pub connected : Bool
  pub ril_version : ℕ
  pub io_channel : Bool
  pub read_watch : Bool
  pub write_watch : Bool
  pub write_error : Bool
  pub disconnected : Bool
  pub sub : List ℕ
  pub sub_pos : ℕ
  pub send_header : List ℕ
  pub send_header_pos : ℕ
  pub send_pos : ℕ
  pub send_req : Option (ℕ × List ℕ)
  pub read_len_buf : List ℕ
  pub read_len : ℕ
  pub read_buf : List ℕ
  pub out : List Event

abbrev pub emit : Event → Socket → Socket
emit e s = record s { out = e ∷ s.out }

-- `grilio_transport_socket_shutdown_io`
unfoldable pub shutdown_io : Socket → Socket
shutdown_io s = record s { read_watch = false; write_watch = false; io_channel = false }

-- `grilio_transport_socket_disconnected`: the signal comes once.
unfoldable pub disconnected : Socket → Socket
disconnected s = record s {
  connected = false;
  disconnected = true;
  out = if s.disconnected then s.out else Event.signal_disconnected ∷ s.out;
}

-- `grilio_transport_socket_shutdown`
unfoldable pub shutdown : Socket → Socket
unfolding shutdown_io disconnected
shutdown s = disconnected (shutdown_io s)

-- `grilio_transport_socket_handle_read_error`
unfoldable pub handle_read_error : Socket → Socket
unfolding shutdown
handle_read_error s = emit Event.signal_read_error (shutdown s)

-- `grilio_transport_socket_handle_eof`
unfoldable pub handle_eof : Socket → Socket
unfolding shutdown
handle_eof s = shutdown s

-- `grilio_transport_socket_handle_write_error`: the signal is left to an idle source.
unfoldable pub handle_write_error : Socket → Socket
unfolding shutdown_io
handle_write_error s = record (shutdown_io s) { write_error = true }

-- `grilio_transport_socket_write_error_cb`
unfoldable pub write_error_cb : Socket → Socket
unfolding disconnected
write_error_cb s = disconnected (emit Event.signal_write_error (record s { write_error = false }))
