-- ===== src/Socket/Life/Errors.antt =====
-- src/grilio_transport_socket.c: errors and the end of a connection over any sequence of calls.
use libgrilio.Base.{
  ℕ, not, ◌∙◌, Bool, true, false, ◌≡◌, refl, Option, none, some, List, if◌then◌else◌, arith,
}
use libgrilio.Socket.State.{Socket}
use libgrilio.Socket.Write.{
  Device, Verdict, send, sent_status, is_free, load, write, stage, finish_sub, finish_header,
  finish_data, write_found, write_request, write_callback, after_write, raise,
}
use libgrilio.Channel.State.{SendStatus}
use libgrilio.Socket.Life.{Reach}
use libgrilio.Socket.Life.Sound.{
  IsSound, socket_new-IsSound, shutdown-IsSound, write_error_cb-IsSound, handle_write_error-IsSound,
}
use libgrilio.Socket.Life.Reading.{read_callback-IsSound}

-- What a write changes is not what soundness is about.
abbrev Keeps : Socket → Socket → Type 0
Keeps s t = (t.io_channel ≡ s.io_channel) × (IsSound s → IsSound t)

finish_data-Keeps :
    (s : Socket) (v : Verdict) (pos : ℕ) (dev : Device) → Keeps s (finish_data s v pos dev).socket
finish_data-Keeps s Verdict.failed pos dev = (refl, λ h. h)
finish_data-Keeps s Verdict.partial pos dev = (refl, λ h. h)
finish_data-Keeps s Verdict.whole pos dev = (refl, λ h. h)

finish_header-Keeps :
    (s : Socket) (body : List ℕ) (v : Verdict) (pos : ℕ) (dev : Device)
    → Keeps s (finish_header s body v pos dev).socket
finish_header-Keeps s body Verdict.failed pos dev = (refl, λ h. h)
finish_header-Keeps s body Verdict.partial pos dev = (refl, λ h. h)
finish_header-Keeps s body Verdict.whole pos dev =
    let st = stage body s.send_pos dev in
    finish_data-Keeps (record s { send_header_pos = pos }) st.verdict st.pos st.device

write_found-Keeps :
    (s : Socket) (r : Option (ℕ × List ℕ)) (dev : Device) → Keeps s (write_found s r dev).socket
write_found-Keeps s none dev = (refl, λ h. h)
write_found-Keeps s (some (p, body)) dev =
    let st = stage s.send_header s.send_header_pos dev in
    finish_header-Keeps s body st.verdict st.pos st.device

write_request-Keeps :
    (b : Bool) (s : Socket) (dev : Device) → Keeps s (write_request b s dev).socket
write_request-Keeps false s dev = (refl, λ h. h)
write_request-Keeps true s dev = write_found-Keeps s s.send_req dev

finish_sub-Keeps :
    (s : Socket) (v : Verdict) (pos : ℕ) (dev : Device) → Keeps s (finish_sub s v pos dev).socket
finish_sub-Keeps s Verdict.failed pos dev = (refl, λ h. h)
finish_sub-Keeps s Verdict.partial pos dev = (refl, λ h. h)
finish_sub-Keeps s Verdict.whole pos dev =
    write_request-Keeps s.connected (record s { sub_pos = pos }) dev

write-Keeps : (s : Socket) (dev : Device) → Keeps s (write s dev).socket
unfolding write
write-Keeps s dev =
    let st = stage s.sub s.sub_pos dev in finish_sub-Keeps s st.verdict st.pos st.device

raise-IsSound : (b : Bool) (s : Socket) → IsSound s → IsSound (raise b s)
raise-IsSound true s v = handle_write_error-IsSound s v
raise-IsSound false s v = v

unwatched-IsSound : (s : Socket) → IsSound s → IsSound (record s { write_watch = false })
unwatched-IsSound s v = ground arith

after_write-IsSound :
    (before after : Option (ℕ × List ℕ)) (s : Socket)
    → IsSound s
    → IsSound (after_write before after s).1
after_write-IsSound before (some r) s v = v
after_write-IsSound (some (p, body)) none s v = ground arith
after_write-IsSound none none s v = unwatched-IsSound s v

write_callback-IsSound : (s : Socket) (dev : Device) → IsSound s → IsSound (write_callback s dev).1
unfolding write_callback
write_callback-IsSound s dev v =
    let w = write s dev in
    let k = (write-Keeps s dev).1 v in
    callback-if w.ok _ _ (after_write-IsSound s.send_req w.socket.send_req w.socket k) (
      raise-IsSound w.error (record w.socket { write_watch = false })
        (unwatched-IsSound w.socket k))
  where
    callback-if :
        (b : Bool) (x y : Bool × Socket × Device)
        → IsSound x.1
        → IsSound y.1
        → IsSound (if b then x else y).1
    callback-if true x y p q = p
    callback-if false x y p q = q

sent_status-IsSound :
    (r : Option (ℕ × List ℕ)) (s : Socket)
    → s.io_channel ≡ true
    → IsSound s
    → IsSound (sent_status r s).1
sent_status-IsSound none s i v = v
sent_status-IsSound (some r) s i v = ground arith

send-IsSound :
    (p code serial : ℕ) (body : List ℕ) (s : Socket) (dev : Device)
    → IsSound s
    → IsSound (send p code serial body s dev).1
unfolding send
send-IsSound p code serial body s dev v =
    let w = write (load p code serial body s) dev in
    let k = write-Keeps (load p code serial body s) dev in
    send-if (not (is_free s.send_req)) s.io_channel w.ok refl _ _ _
      (λ i. sent_status-IsSound w.socket.send_req w.socket (k.0 ∙ i) (k.1 v))
      (raise-IsSound w.error w.socket (k.1 v)) v
  where
    send-if :
        (b i o : Bool)
        → s.io_channel ≡ i
        → (x y z : SendStatus × Socket × Device) → (s.io_channel ≡ true → IsSound x.1)
        → IsSound y.1
        → IsSound z.1
        → IsSound (if b then z else if i then (if o then x else y) else z).1
    send-if true i o e x y z h g f = f
    send-if false false o e x y z h g f = f
    send-if false true false e x y z h g f = g
    send-if false true true e x y z h g f = h e

-- For a socket that has been made, after any sequence of reads, writes, sends, write errors that are
-- signalled and shutdowns, where a callback is called while its source is set: the disconnection has
-- been signalled once if it has come, and else not at all; without an open channel neither the read nor
-- the write watch is set; after the disconnection, and while a write error waits to be signalled, the
-- channel is closed; and a socket that is connected has not been disconnected.
pub Reach-IsSound : {s : Socket} → Reach s → IsSound s
Reach-IsSound (Reach.made fd sub h) = socket_new-IsSound fd sub _ h
Reach-IsSound (Reach.readable input w r) = read_callback-IsSound _ input w (Reach-IsSound r)
Reach-IsSound (Reach.writable dev w r) = write_callback-IsSound _ dev (Reach-IsSound r)
Reach-IsSound (Reach.failing w r) = write_error_cb-IsSound _ w (Reach-IsSound r)
Reach-IsSound (Reach.sending p code serial body dev r) =
    send-IsSound p code serial body _ dev (Reach-IsSound r)
Reach-IsSound (Reach.closing r) = shutdown-IsSound _ (Reach-IsSound r)
