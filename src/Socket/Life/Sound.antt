-- ===== src/Socket/Life/Sound.antt =====
-- src/grilio_transport_socket.c: what holds of a socket at any time, and its errors and shutdown.
use libgrilio.Base.{
  ℕ, suc, Bool, true, false, ◌≡◌, Option, none, some, List, [], ◌∷◌, if◌then◌else◌, arith,
}
use libgrilio.Base.Int.{ℤ}
use libgrilio.Socket.State.{
  Socket, Event, shutdown_io, disconnected, shutdown, handle_read_error, handle_write_error,
  write_error_cb,
}
use libgrilio.Socket.Read.{Input}
use libgrilio.Socket.Life.{socket_new}

-- How often the end of the connection has been signalled.
abbrev pub farewells : List Event → ℕ
farewells [] = 0
farewells (Event.signal_disconnected ∷ l) = suc (farewells l)
farewells (_ ∷ l) = farewells l

pub record IsSoundAt (out : List Event)
    (disconnected io_channel read_watch write_watch write_error connected : Bool) : Type 0 where
  pub told : farewells out ≡ (if disconnected then 1 else 0)
  pub closed : disconnected ≡ true → io_channel ≡ false
  pub broken : write_error ≡ true → io_channel ≡ false
  pub unwatched : io_channel ≡ false → (read_watch ≡ false) × (write_watch ≡ false)
  pub up : connected ≡ true → disconnected ≡ false

abbrev pub IsSound : Socket → Type 0
IsSound s =
    IsSoundAt s.out s.disconnected s.io_channel s.read_watch s.write_watch s.write_error s.connected

pub if-IsSound : (b : Bool) (s t : Socket) → IsSound s → IsSound t → IsSound (if b then s else t)
if-IsSound true s t x y = x
if-IsSound false s t x y = y

pub if-after :
    (b : Bool) (s t : Bool × Socket) → IsSound s.1 → IsSound t.1 → IsSound (if b then s else t).1
if-after true s t x y = x
if-after false s t x y = y

pub if-before :
    (b : Bool) (s t : Bool × Socket × Input)
    → IsSound s.1
    → IsSound t.1
    → IsSound (if b then s else t).1
if-before true s t x y = x
if-before false s t x y = y

pub socket_new-IsSound :
    (fd : ℤ) (sub : Option (List ℕ)) (s : Socket) → socket_new fd sub true ≡ some s → IsSound s
unfolding socket_new
socket_new-IsSound fd none s h = ground arith
socket_new-IsSound fd (some sub) s h = ground arith

pub shutdown-IsSound : (s : Socket) → IsSound s → IsSound (shutdown s)
unfolding shutdown shutdown_io disconnected
shutdown-IsSound s v = ground arith

pub write_error_cb-IsSound :
    (s : Socket) → s.write_error ≡ true → IsSound s → IsSound (write_error_cb s)
unfolding write_error_cb disconnected
write_error_cb-IsSound s w v = ground arith

pub handle_read_error-IsSound : (s : Socket) → IsSound s → IsSound (handle_read_error s)
unfolding handle_read_error shutdown shutdown_io disconnected
handle_read_error-IsSound s v = ground arith

pub handle_write_error-IsSound : (s : Socket) → IsSound s → IsSound (handle_write_error s)
unfolding handle_write_error shutdown_io
handle_write_error-IsSound s v = ground arith
