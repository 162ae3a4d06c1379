-- ===== src/Wiring/Packets.antt =====
-- A packet on the wire, from the bytes of the socket to the handlers of the channel.
use libgrilio.Base.{ℕ, ◌+◌, ◌^◌, ◌≤◌, ◌<◌, ◌≡◌, ap, ◌∙◌, true, List, [], ◌∷◌, ◌++◌, arith, length}
use libgrilio.Wire.{bytes_of_word}
use libgrilio.Channel.State.{Channel, Env}
use libgrilio.Channel.Response.{ResponseType, handle_response}
use libgrilio.Socket.State.{Socket}
use libgrilio.Socket.Read.{big_endian}
use libgrilio.Socket.Stream.Messages.{Message, run-took_behind}
use libgrilio.Wiring.{deliver, deliver_all, receive}

-- What follows the length of a response.
abbrev pub response : ℕ → ℕ → List ℕ → List ℕ
response id status data1 = bytes_of_word 0 ++ (bytes_of_word id ++ (bytes_of_word status ++ data1))

-- A response whose bytes wait at a socket that is between packets and has signalled nothing yet has the
-- effect that its handler has with the id, the status and the data of the packet.
pub receive-handle_response :
    (e : Env) (offset fresh : ℕ) (s : Socket) (f : Channel) (a b c d id status : ℕ) (data1 : List ℕ)
    → s.read_watch ≡ true
    → s.read_len_buf ≡ []
    → s.out ≡ []
    → big_endian (a ∷ b ∷ c ∷ d ∷ []) ≡ 12 + length data1
    → 12 + length data1 ≤ 0x8000
    → id < 2 ^ 32
    → status < 2 ^ 32
    → receive e (16 + length data1) offset fresh s (a ∷ b ∷ c ∷ d ∷ response id status data1) f
      ≡ handle_response e ResponseType.solicited id status data1 fresh f
unfolding receive deliver_all deliver
receive-handle_response e offset fresh s f a b c d id status data1 w l o n short i t =
    let same =
      run-took_behind (16 + length data1) s (Message.answer id status data1) a b c d (i, t) w l
        (n ∙ omega arith) (omega (arith, short)) (omega arith) in
    ap (λ r. deliver_all e r.ril_version offset fresh r.out f) same
    ∙ ap
        (λ older.
          handle_response e ResponseType.solicited id status data1 fresh
            (deliver_all e s.ril_version offset fresh older f))
        o
