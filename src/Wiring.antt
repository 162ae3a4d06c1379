-- ===== src/Wiring.antt =====
-- src/grilio_channel.c, grilio_channel_new: the channel listens to the signals of its transport. A
-- signal is delivered once the socket's call has ended; the calls that its handler makes on the socket
-- are further steps.
pub mod Packets
use libgrilio.Base.{ℕ, List, [], ◌∷◌}
use libgrilio.Channel.State.{Channel, Env}
use libgrilio.Channel.Response.{
  handle_response, handle_connected, handle_disconnected, handle_error, handle_indication,
  handle_request_sent,
}
use libgrilio.Socket.State.{Socket, Event}
use libgrilio.Socket.Stream.Run.{run}

-- The handler of each signal; `version` and `offset` are the transport's, and `fresh` is the request that
-- an acknowledgement would take.
unfoldable pub deliver : Env → ℕ → ℕ → ℕ → Event → Channel → Channel
deliver e version offset fresh Event.signal_connected c = handle_connected e version offset c
deliver e version offset fresh Event.signal_disconnected c = handle_disconnected c
deliver e version offset fresh Event.signal_read_error c = handle_error c
deliver e version offset fresh Event.signal_write_error c = handle_error c
deliver e version offset fresh (Event.signal_request_sent p) c = handle_request_sent e p c
deliver e version offset fresh (Event.signal_response type id status data1) c =
    handle_response e type id status data1 fresh c
deliver e version offset fresh (Event.signal_indication type code data1) c =
    handle_indication e type code data1 fresh c

-- The newest signal is in front.
unfoldable pub deliver_all : Env → ℕ → ℕ → ℕ → List Event → Channel → Channel
deliver_all e version offset fresh [] c = c
deliver_all e version offset fresh (signal ∷ older) c =
    deliver e version offset fresh signal (deliver_all e version offset fresh older c)

-- Bytes come, the main loop calls the socket while there are any, and the channel hears of them.
unfoldable pub receive : Env → ℕ → ℕ → ℕ → Socket → List ℕ → Channel → Channel
receive e fuel offset fresh s xs c =
    let d = run fuel s xs in deliver_all e d.ril_version offset fresh d.out c
