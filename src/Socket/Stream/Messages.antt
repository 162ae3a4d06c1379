-- ===== src/Socket/Stream/Messages.antt =====
-- src/grilio_transport_socket.c: the messages that the other side sends, from the bytes on the wire to
-- what the transport signals.
use libgrilio.Base.{
  ℕ, ◌+◌, ◌/◌, ◌%◌, ◌^◌, ◌≤◌, ◌<◌, ◌≡◌, ◌≢◌, refl, sym, ap, ◌∙◌, inl, inr, true, List, [], ◌∷◌,
  ◌++◌, arith, length, ◌==◌, if◌then◌else◌,
}
use libgrilio.Wire.{bytes_of_word, word_of_bytes_of_word}
use libgrilio.Parser.{load32, get_uint32, init}
use libgrilio.Channel.Response.{ResponseType, IndicationType}
use libgrilio.Socket.State.{Socket, Event, emit}
use libgrilio.Socket.Read.{
  big_endian, word_at, handle_packet, handle_solicited_ack, handle_indication, signal_response,
  connect,
}
use libgrilio.Socket.Stream.Packets.{
  loaded, word_at_0, word_at_1, word_at_2, handle_packet-solicited, handle_packet-solicited_exp,
  handle_packet-ack, handle_packet-indication, handle_packet-indication_exp, handle_packet-unknown,
}
use libgrilio.Socket.Stream.{decode, decode_packet, settle}
use libgrilio.Socket.Stream.Run.{run, run-decode}

-- What the other side says. Answers and events come in two forms; the second wants to be acknowledged.
-- `hello` is the event RIL_UNSOL_RIL_CONNECTED with one word of data, the version.
pub data Message : Type 0 where
  answer answer_exp : (id status : ℕ) → List ℕ → Message
  ack : (id : ℕ) → Message
  event event_exp : (code : ℕ) → List ℕ → Message
  hello : (version : ℕ) → Message
  unknown : (type code : ℕ) → List ℕ → Message

abbrev three_words : ℕ → ℕ → ℕ → List ℕ → List ℕ
three_words u v w rest = bytes_of_word u ++ (bytes_of_word v ++ (bytes_of_word w ++ rest))

abbrev two_words : ℕ → ℕ → List ℕ → List ℕ
two_words u v rest = bytes_of_word u ++ (bytes_of_word v ++ rest)

abbrev pub packet : Message → List ℕ
packet (answer id status data1) = three_words 0 id status data1
packet (answer_exp id status data1) = three_words 3 id status data1
packet (ack id) = two_words 2 id []
packet (event code data1) = two_words 1 code data1
packet (event_exp code data1) = two_words 4 code data1
packet (hello version) = three_words 1 1034 1 (bytes_of_word version)
packet (unknown type code data1) = two_words type code data1

abbrev IsMessage : Message → Type 0
IsMessage (answer id status data1) = (id < 2 ^ 32) × (status < 2 ^ 32)
IsMessage (answer_exp id status data1) = (id < 2 ^ 32) × (status < 2 ^ 32)
IsMessage (ack id) = id < 2 ^ 32
IsMessage (event code data1) = (code < 2 ^ 32) × (code ≢ 1034)
IsMessage (event_exp code data1) = (code < 2 ^ 32) × (code ≢ 1034)
IsMessage (hello version) = version < 2 ^ 32
IsMessage (unknown type code data1) = (4 < type) × (type < 2 ^ 32)

-- What is signalled, and what else changes.
abbrev pub took : Message → Socket → Socket
took (answer id status data1) s =
    emit (Event.signal_response ResponseType.solicited id status data1) s
took (answer_exp id status data1) s =
    emit (Event.signal_response ResponseType.solicited_ack_exp id status data1) s
took (ack id) s = emit (Event.signal_response ResponseType.solicited_ack id 0 []) s
took (event code data1) s = emit (Event.signal_indication IndicationType.unsolicited code data1) s
took (event_exp code data1) s =
    emit (Event.signal_indication IndicationType.unsolicited_ack_exp code data1) s
took (hello version) s = record s {
  connected = true;
  ril_version = version;
  out =
      Event.signal_connected
      ∷ Event.signal_indication IndicationType.unsolicited 1034
          (bytes_of_word 1 ++ bytes_of_word version)
      ∷ s.out;
}
took (unknown type code data1) s = s

signal_response-words :
    (type : ResponseType) (s : Socket) (u id status : ℕ) (data1 : List ℕ)
    → id < 2 ^ 32
    → status < 2 ^ 32
    → signal_response type (loaded s (three_words u id status data1))
      ≡ emit (Event.signal_response type id status data1) (loaded s (three_words u id status data1))
unfolding signal_response
signal_response-words type s u id status data1 i t =
    let d = loaded s (three_words u id status data1) in
    ap (λ k. emit (Event.signal_response type k (word_at 2 d) data1) d)
      (word_at_1 s u id (bytes_of_word status ++ data1) i)
    ∙ ap (λ k. emit (Event.signal_response type id k data1) d) (word_at_2 s u id status data1 t)

handle_indication-words :
    (type : IndicationType) (s : Socket) (u code : ℕ) (data1 : List ℕ)
    → code < 2 ^ 32
    → code ≢ 1034
    → handle_indication type (loaded s (two_words u code data1))
      ≡ (true, emit (Event.signal_indication type code data1) (loaded s (two_words u code data1)))
unfolding handle_indication
handle_indication-words type s u code data1 c other =
    let d = loaded s (two_words u code data1) in
    let word = word_at_1 s u code data1 c in
    ap
      (λ k. (
        true,
        let f = emit (Event.signal_indication type k data1) d in if k == 1034 then connect f else f,
      ))
      word
    ∙ ground (arith, other)

handle_indication-hello :
    (s : Socket) (version : ℕ)
    → version < 2 ^ 32
    → handle_indication IndicationType.unsolicited (loaded s (packet (hello version)))
      ≡ (true, took (hello version) (loaded s (packet (hello version))))
unfolding handle_indication connect get_uint32 init load32
handle_indication-hello s version v =
    let d = loaded s (packet (hello version)) in
    ap (λ k. (true, record (took (hello version) d) { ril_version = k }))
      (word_of_bytes_of_word version v)

handle_packet-took :
    (s : Socket) (m : Message)
    → IsMessage m
    → handle_packet (loaded s (packet m)) ≡ (true, took m (loaded s (packet m)))
unfolding handle_solicited_ack load32
handle_packet-took s (answer id status data1) (i, t) =
    handle_packet-solicited (loaded s (packet (answer id status data1))) (omega arith) refl
    ∙ ap (λ d. (true, d)) (signal_response-words ResponseType.solicited s 0 id status data1 i t)
handle_packet-took s (answer_exp id status data1) (i, t) =
    handle_packet-solicited_exp (loaded s (packet (answer_exp id status data1))) (omega arith) refl
    ∙ ap (λ d. (true, d))
        (signal_response-words ResponseType.solicited_ack_exp s 3 id status data1 i t)
handle_packet-took s (ack id) i =
    let d = loaded s (packet (ack id)) in
    handle_packet-ack d (omega arith) refl
    ∙ ap (λ k. (true, emit (Event.signal_response ResponseType.solicited_ack k 0 []) d))
        (word_at_1 s 2 id [] i)
handle_packet-took s (event code data1) (c, other) =
    handle_packet-indication (loaded s (packet (event code data1))) (omega arith) refl
    ∙ handle_indication-words IndicationType.unsolicited s 1 code data1 c other
handle_packet-took s (event_exp code data1) (c, other) =
    handle_packet-indication_exp (loaded s (packet (event_exp code data1))) (omega arith) refl
    ∙ handle_indication-words IndicationType.unsolicited_ack_exp s 4 code data1 c other
handle_packet-took s (hello version) v =
    handle_packet-indication (loaded s (packet (hello version))) (omega arith) refl
    ∙ handle_indication-hello s version v
handle_packet-took s (unknown type code data1) (big, t) =
    handle_packet-unknown (loaded s (packet (unknown type code data1))) (omega arith)
      (omega (arith, big, word_at_0 s type (bytes_of_word code ++ data1) t))

decode-whole :
    (s : Socket) (a b c d x : ℕ) (body xs : List ℕ)
    → xs ≡ x ∷ body
    → s.read_watch ≡ true
    → s.read_len_buf ≡ []
    → big_endian (a ∷ b ∷ c ∷ d ∷ []) ≡ length xs
    → length xs ≤ 0x8000
    → decode s (a ∷ b ∷ c ∷ d ∷ xs) ≡ settle (handle_packet (loaded s xs))
decode-whole s a b c d x body xs e w l n short =
    let known = ap length e in
    ap (λ r. decode s (a ∷ b ∷ c ∷ d ∷ r)) e
    ∙ decode_packet s a b c d x body w l (n ∙ known) (omega (arith, short, known))
    ∙ ap (λ r. settle (handle_packet (loaded s r))) (sym e)

packet_head : (m : Message) → (x : ℕ) × (body : List ℕ) × packet m ≡ x ∷ body
packet_head (answer id status data1) = (_, _, refl)
packet_head (answer_exp id status data1) = (_, _, refl)
packet_head (ack id) = (_, _, refl)
packet_head (event code data1) = (_, _, refl)
packet_head (event_exp code data1) = (_, _, refl)
packet_head (hello version) = (_, _, refl)
packet_head (unknown type code data1) = (_, _, refl)

-- Behind any four bytes that are read as its length.
pub run-took_behind :
    (fuel : ℕ) (s : Socket) (m : Message) (a b c d : ℕ)
    → IsMessage m
    → s.read_watch ≡ true
    → s.read_len_buf ≡ []
    → big_endian (a ∷ b ∷ c ∷ d ∷ []) ≡ length (packet m)
    → length (packet m) ≤ 0x8000
    → 4 + length (packet m) ≤ fuel
    → run fuel s (a ∷ b ∷ c ∷ d ∷ packet m) ≡ took m (loaded s (packet m))
run-took_behind fuel s m a b c d good w l n short enough =
    let (x, body, e) = packet_head m in
    let xs = a ∷ b ∷ c ∷ d ∷ packet m in
    run-decode fuel s xs (inr (w, inl (omega (arith, ap length l)))) (omega (arith, enough))
    ∙ decode-whole s a b c d x body (packet m) e w l n short
    ∙ ap settle (handle_packet-took s m good)

-- What is on the wire: the length in four bytes, the highest first, and the packet.
abbrev pub frame : List ℕ → List ℕ
frame xs = 0 ∷ 0 ∷ length xs / 256 ∷ length xs % 256 ∷ xs

-- The packet of a message, of at most 0x8000 bytes and with words below 2 ^ 32, waits behind its length
-- at a socket that is watched and between packets; only `hello` has its code among the events.
-- With fuel for as many calls as there are bytes, the main loop reads it: what the message says is
-- signalled, once and behind what was signalled before, and for `hello` the connection too, whose
-- version is kept. A packet of an unknown type is passed over. The reader is ready for the next
-- length, and but for the packet in its buffer nothing else has changed.
pub run-took :
    (fuel : ℕ) (s : Socket) (m : Message)
    → IsMessage m
    → s.read_watch ≡ true
    → s.read_len_buf ≡ []
    → length (packet m) ≤ 0x8000
    → 4 + length (packet m) ≤ fuel
    → run fuel s (frame (packet m)) ≡ took m (loaded s (packet m))
run-took fuel s m good w l short enough =
    let n = length (packet m) in
    run-took_behind fuel s m 0 0 (n / 256) (n % 256) good w l (omega arith) short enough
