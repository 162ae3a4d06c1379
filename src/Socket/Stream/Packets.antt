-- ===== src/Socket/Stream/Packets.antt =====
-- src/grilio_transport_socket.c, grilio_transport_socket_handle_packet: the words of a packet, and its
-- type.
use libgrilio.Base.{ℕ, ◌^◌, ◌≤◌, ◌<◌, ◌≡◌, true, List, [], ◌++◌, arith, length}
use libgrilio.Wire.{bytes_of_word, word_of_bytes_of_word}
use libgrilio.Parser.{load32}
use libgrilio.Channel.Response.{ResponseType, IndicationType}
use libgrilio.Socket.State.{Socket}
use libgrilio.Socket.Read.{
  word_at, handle_packet, handle_solicited, handle_solicited_ack, handle_indication,
  signal_response,
}

-- A packet has been read; the reader is ready for the next length.
abbrev pub loaded : Socket → List ℕ → Socket
loaded s packet = record s { read_len_buf = []; read_len = length packet; read_buf = packet }

pub word_at_0 :
    (s : Socket) (u : ℕ) (rest : List ℕ)
    → u < 2 ^ 32
    → word_at 0 (loaded s (bytes_of_word u ++ rest)) ≡ u
unfolding load32
word_at_0 s u rest h = word_of_bytes_of_word u h

pub word_at_1 :
    (s : Socket) (u v : ℕ) (rest : List ℕ)
    → v < 2 ^ 32
    → word_at 1 (loaded s (bytes_of_word u ++ (bytes_of_word v ++ rest))) ≡ v
unfolding load32
word_at_1 s u v rest h = word_of_bytes_of_word v h

pub word_at_2 :
    (s : Socket) (u v w : ℕ) (rest : List ℕ)
    → w < 2 ^ 32
    → word_at 2 (loaded s (bytes_of_word u ++ (bytes_of_word v ++ (bytes_of_word w ++ rest)))) ≡ w
unfolding load32
word_at_2 s u v w rest h = word_of_bytes_of_word w h

-- RIL_PACKET_TYPE_...
pub handle_packet-solicited_exp :
    (s : Socket)
    → 12 ≤ s.read_len
    → word_at 0 s ≡ 3
    → handle_packet s ≡ (true, signal_response ResponseType.solicited_ack_exp s)
unfolding handle_packet handle_solicited
handle_packet-solicited_exp s h z = ground arith

pub handle_packet-solicited :
    (s : Socket)
    → 12 ≤ s.read_len
    → word_at 0 s ≡ 0
    → handle_packet s ≡ (true, signal_response ResponseType.solicited s)
unfolding handle_packet handle_solicited
handle_packet-solicited s h z = ground arith

pub handle_packet-ack :
    (s : Socket) → 8 ≤ s.read_len → word_at 0 s ≡ 2 → handle_packet s ≡ handle_solicited_ack s
unfolding handle_packet
handle_packet-ack s h z = ground arith

pub handle_packet-indication :
    (s : Socket)
    → 8 ≤ s.read_len
    → word_at 0 s ≡ 1
    → handle_packet s ≡ handle_indication IndicationType.unsolicited s
unfolding handle_packet
handle_packet-indication s h z = ground arith

pub handle_packet-indication_exp :
    (s : Socket)
    → 8 ≤ s.read_len
    → word_at 0 s ≡ 4
    → handle_packet s ≡ handle_indication IndicationType.unsolicited_ack_exp s
unfolding handle_packet
handle_packet-indication_exp s h z = ground arith

pub handle_packet-unknown :
    (s : Socket) → 8 ≤ s.read_len → 4 < word_at 0 s → handle_packet s ≡ (true, s)
unfolding handle_packet
handle_packet-unknown s h z = ground arith
