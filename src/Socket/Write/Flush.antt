-- ===== src/Socket/Write/Flush.antt =====
-- src/grilio_transport_socket.c: the write callback, called until it takes its watch away.
use libgrilio.Base.{
  ℕ, zero, suc, ◌≤◌, ◌<◌, ◌≡◌, sym, ap, subst, ◌∙◌, inl, inr, Bool, true, false, Option,
  Option-cases, none, some, List, ◌∷◌, ◌++◌, arith, if◌then◌else◌, length, append-nil,
}
use libgrilio.Socket.State.{Socket, Event, emit}
use libgrilio.Socket.Write.{Device, Written, write, write_callback, after_write, raise}
use libgrilio.Socket.Write.Unsent.{unsent, write-unsent}
use libgrilio.Socket.Write.Progress.{write-Pays}
use libgrilio.Socket.Write.Part.{IsEager}

-- The main loop: the callback is called again as long as it wants its watch.
unfoldable pub flush : ℕ → Socket → Device → Socket × Device
flush zero s dev = (s, dev)
flush (suc fuel) s dev =
    let r = write_callback s dev in
    let again = flush fuel r.1 r.2 in if r.0 then again else (r.1, r.2)

-- The request went out: its bytes, the signal, and the place in the transport is free.
pub record IsSent (s : Socket) (dev : Device) (p : ℕ) (r : Socket × Device) : Type 0 where
  pub bytes_out : r.1.wire ≡ dev.wire ++ unsent s
  pub free : r.0.send_req ≡ none
  pub told : r.0.out ≡ Event.signal_request_sent p ∷ s.out

-- The callback by what it tests.
abbrev ended : Bool → Option (ℕ × List ℕ) → Option (ℕ × List ℕ) → Written → Bool × Socket × Device
ended b before after w =
    let t = after_write before after w.socket in
    if b
    then (t.0, t.1, w.device)
    else (false, raise w.error (record w.socket { write_watch = false }), w.device)

callback_done :
    (s : Socket) (dev : Device) (p : ℕ) (body : List ℕ)
    → s.send_req ≡ some (p, body)
    → (write s dev).ok ≡ true
    → (write s dev).socket.send_req ≡ none
    → write_callback s dev ≡ (
      false,
      record (emit (Event.signal_request_sent p) (write s dev).socket) { write_watch = false },
      (write s dev).device,
    )
unfolding write_callback
callback_done s dev p body r ok gone =
    let w = write s dev in
    ap (λ b. ended b s.send_req w.socket.send_req w) ok
    ∙ ap (λ o. ended true o w.socket.send_req w) r
    ∙ ap (λ o. ended true (some (p, body)) o w) gone

callback_more :
    (s : Socket) (dev : Device) (o : ℕ × List ℕ)
    → (write s dev).ok ≡ true
    → (write s dev).socket.send_req ≡ some o
    → write_callback s dev ≡ (true, (write s dev).socket, (write s dev).device)
unfolding write_callback
callback_more s dev o ok more =
    let w = write s dev in
    ap (λ b. ended b s.send_req w.socket.send_req w) ok ∙ ap (λ r. ended true s.send_req r w) more

flush_step :
    (fuel : ℕ) (s : Socket) (dev : Device) (go : Bool) (t : Socket) (d : Device)
    → write_callback s dev ≡ (go, t, d)
    → flush (suc fuel) s dev ≡ (if go then flush fuel t d else (t, d))
unfolding flush
flush_step fuel s dev go t d e =
    ap (λ (r : Bool × Socket × Device). if r.0 then flush fuel r.1 r.2 else (r.1, r.2)) e

-- A connected socket with a request in hand that takes a byte at least of each write, as often as there
-- are bytes to be written: the callbacks come to an end, the request has gone out once and whole behind
-- what was to go before it, this is signalled, and the socket is free for the next one.
pub flush-IsSent :
    (fuel : ℕ) (s : Socket) (p : ℕ) (body : List ℕ) (dev : Device)
    → s.send_req ≡ some (p, body)
    → s.connected ≡ true
    → IsEager dev.answers
    → length (unsent s) ≤ length dev.answers
    → length (unsent s) < fuel
    → IsSent s dev p (flush fuel s dev)
flush-IsSent zero s p body dev r c e n f = absurd (omega (arith, f))
flush-IsSent (suc fuel) s p body dev r c e n f =
    let w = write s dev in
    let m = write-Pays s p body dev r c e n in
    let stream = write-unsent s dev in
    elim (Option-cases w.socket.send_req) [
      | inl gone ↦
          let t : Socket = record (emit (Event.signal_request_sent p) w.socket) {
            write_watch = false;
          } in
          subst (λ x. IsSent s dev p x)
            (sym
              (flush_step fuel s dev false t w.device (callback_done s dev p body r m.fine gone)))
            (record {
              bytes_out =
                  sym (append-nil w.device.wire)
                  ∙ ap (λ l. w.device.wire ++ l) (sym (m.done gone))
                  ∙ stream;
              free = gone;
              told = ap (λ l. Event.signal_request_sent p ∷ l) m.quiet;
            })
      | inr (o, more) ↦
          let less = m.further o more in
          let paid = m.paid in
          let again =
            flush-IsSent fuel w.socket p body w.device (more ∙ sym (m.same o more) ∙ r) (m.up ∙ c)
              m.eager (omega (arith, paid, n)) (omega (arith, less, f)) in
          subst (λ x. IsSent s dev p x)
            (sym (flush_step fuel s dev true w.socket w.device (callback_more s dev o m.fine more)))
            (record {
              bytes_out = again.bytes_out ∙ stream;
              free = again.free;
              told = again.told ∙ ap (λ l. Event.signal_request_sent p ∷ l) m.quiet;
            })
    ]
