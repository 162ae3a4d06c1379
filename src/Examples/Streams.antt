-- ===== src/Examples/Streams.antt =====
-- src/grilio_transport_socket.c: a socket that reads an indication of ten bytes.
use libgrilio.Base.{
  replicate, ℕ, ◌≡◌, refl, true, false, inl, inr, List, [], ◌∷◌, ◌++◌, some, none, arith,
}
use libgrilio.Base.Int.{pos}
use libgrilio.Socket.State.{Socket, shutdown}
use libgrilio.Socket.Read.{read_callback, bytes, failure}
use libgrilio.Socket.Stream.{decode}
use libgrilio.Socket.Write.{Device, request_header, write}
use libgrilio.Socket.Write.Flush.{IsSent, flush, flush-IsSent}
use libgrilio.Socket.Write.Unsent.{unsent, write-unsent}
use libgrilio.Socket.Life.{Reach, socket_new, with_sub}
use libgrilio.Socket.Life.Sound.{IsSound}
use libgrilio.Socket.Life.Errors.{Reach-IsSound}
use libgrilio.Socket.Stream.Messages.{Message, frame, packet, took, run-took}
use libgrilio.Socket.Stream.Packets.{loaded}
use libgrilio.Socket.Stream.Run.{run, run-decode}
use libgrilio.Socket.Stream.Calls.{Decodes, read_callback-decode}

abbrev fresh : Socket
fresh = record {
  connected = true;
  ril_version = 13;
  io_channel = true;
  read_watch = true;
  write_watch = false;
  write_error = false;
  disconnected = false;
  sub = [];
  sub_pos = 0;
  send_header = [];
  send_header_pos = 0;
  send_pos = 0;
  send_req = none;
  read_len_buf = [];
  read_len = 0;
  read_buf = [];
  out = [];
}

abbrev indication : List ℕ
indication = 1 ∷ 0 ∷ 0 ∷ 0 ∷ 235 ∷ 3 ∷ 0 ∷ 0 ∷ 42 ∷ 43 ∷ []

-- The same as a message.
abbrev told : Message
told = Message.event 1003 (42 ∷ 43 ∷ [])

run-took_example : run 14 fresh (frame (packet told)) ≡ took told (loaded fresh (packet told))
run-took_example =
    run-took 14 fresh told (omega arith, omega arith) refl refl (omega arith) (omega arith)

read_callback-decode_example :
    Decodes fresh
      (0 ∷ 0 ∷ 0 ∷ 10 ∷ indication)
      (read_callback fresh (bytes (0 ∷ 0 ∷ 0 ∷ 10 ∷ indication)))
read_callback-decode_example =
    read_callback-decode fresh (0 ∷ 0 ∷ 0 ∷ 10 ∷ indication) (refl, inl (omega arith))

-- The rest of a packet whose length and first byte had come, and the packet behind it.
abbrev inside : Socket
inside = record fresh { read_len_buf = 0 ∷ 0 ∷ 0 ∷ 10 ∷ []; read_len = 10; read_buf = 1 ∷ [] }

abbrev incoming : List ℕ
incoming = 0 ∷ 0 ∷ 0 ∷ 235 ∷ 3 ∷ 0 ∷ 0 ∷ 42 ∷ 43 ∷ 0 ∷ 0 ∷ 0 ∷ 10 ∷ indication

run-decode_example : run 30 inside incoming ≡ decode inside incoming
run-decode_example =
    run-decode 30 inside incoming (inr (refl, inr (refl, omega arith))) (omega arith)

-- Two bytes of the subscription have gone; the socket takes two bytes, then five of the header.
abbrev sending : Socket
sending = record fresh {
  sub = 83 ∷ 85 ∷ 66 ∷ 49 ∷ [];
  sub_pos = 2;
  send_header = request_header 20 7 (1 ∷ 2 ∷ []);
  send_req = some (3, 1 ∷ 2 ∷ []);
}

abbrev device : Device
device = record { answers = some 2 ∷ some 5 ∷ []; wire = 83 ∷ 85 ∷ [] }

write-unsent_example :
    (write sending device).device.wire ++ unsent (write sending device).socket
    ≡ device.wire ++ unsent sending
write-unsent_example = write-unsent sending device

-- A subscriber's socket fails when it is read, and is shut down again.
abbrev subscribed : Socket
subscribed = with_sub (some (83 ∷ 85 ∷ 66 ∷ 49 ∷ []))

failed_twice : Reach (shutdown (read_callback subscribed failure).1)
unfolding socket_new
failed_twice =
    Reach.closing
      (Reach.readable failure refl (Reach.made (pos 3) (some (83 ∷ 85 ∷ 66 ∷ 49 ∷ [])) refl))

Reach-IsSound_example : IsSound (shutdown (read_callback subscribed failure).1)
Reach-IsSound_example = Reach-IsSound failed_twice

-- The same, with a socket that takes three bytes of each write at most.
abbrev slow : Device
slow = record { answers = replicate 16 (some 3); wire = 83 ∷ 85 ∷ [] }

flush-IsSent_example : IsSent sending slow 3 (flush 17 sending slow)
flush-IsSent_example =
    flush-IsSent 17 sending 3 (1 ∷ 2 ∷ []) slow refl refl (ground arith) (omega arith) (omega arith)
