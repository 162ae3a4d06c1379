-- ===== src/Transport/Signals.antt =====
-- src/grilio_transport.c: the signals of a transport and their handlers. The numbers of the signals stand
-- for their names. GObject is a parameter; an error is a number.
use libgrilio.Base.{
  ℕ, ◌≡◌, refl, ap, ◌∙◌, Option, none, some, List, [], ◌∷◌, ◌++◌, ◌==◌, if◌then◌else◌,
}
use libgrilio.Base.Int.{ℤ}
use libgrilio.Base.Signals.{Signals, IsDocumented, hears}
use libgrilio.Channel.Response.{ResponseType, IndicationType}

-- What the emissions hand over.
pub data Values : Type 0 where
  nothing : Values
  request : ℕ → Values
  error : ℕ → Values
  -- type, serial, status, data
  response : ResponseType → ℕ → ℤ → List ℕ → Values
  -- type, code, data
  indication : IndicationType → ℕ → List ℕ → Values

-- enum grilio_transport_signal
pub data Signal : Type 0 where
  connected disconnected request_sent got_response got_indication read_error write_error : Signal

-- "grilio-transport-connected"
abbrev pub connected_name : List ℕ
connected_name =
    103 ∷ 114 ∷ 105 ∷ 108 ∷ 105 ∷ 111 ∷ 45 ∷ 116 ∷ 114 ∷ 97 ∷ 110 ∷ 115 ∷ 112 ∷ 111 ∷ 114 ∷ 116 ∷ 45
    ∷ 99 ∷ 111 ∷ 110 ∷ 110 ∷ 101 ∷ 99 ∷ 116 ∷ 101 ∷ 100 ∷ []

-- "grilio-transport-disconnected"
abbrev pub disconnected_name : List ℕ
disconnected_name =
    103 ∷ 114 ∷ 105 ∷ 108 ∷ 105 ∷ 111 ∷ 45 ∷ 116 ∷ 114 ∷ 97 ∷ 110 ∷ 115 ∷ 112 ∷ 111 ∷ 114 ∷ 116 ∷ 45
    ∷ 100 ∷ 105 ∷ 115 ∷ 99 ∷ 111 ∷ 110 ∷ 110 ∷ 101 ∷ 99 ∷ 116 ∷ 101 ∷ 100 ∷ []

-- "grilio-transport-request-sent"
abbrev pub request_sent_name : List ℕ
request_sent_name =
    103 ∷ 114 ∷ 105 ∷ 108 ∷ 105 ∷ 111 ∷ 45 ∷ 116 ∷ 114 ∷ 97 ∷ 110 ∷ 115 ∷ 112 ∷ 111 ∷ 114 ∷ 116 ∷ 45
    ∷ 114 ∷ 101 ∷ 113 ∷ 117 ∷ 101 ∷ 115 ∷ 116 ∷ 45 ∷ 115 ∷ 101 ∷ 110 ∷ 116 ∷ []

-- "grilio-transport-response"
abbrev pub response_name : List ℕ
response_name =
    103 ∷ 114 ∷ 105 ∷ 108 ∷ 105 ∷ 111 ∷ 45 ∷ 116 ∷ 114 ∷ 97 ∷ 110 ∷ 115 ∷ 112 ∷ 111 ∷ 114 ∷ 116 ∷ 45
    ∷ 114 ∷ 101 ∷ 115 ∷ 112 ∷ 111 ∷ 110 ∷ 115 ∷ 101 ∷ []

-- "grilio-transport-indication"
abbrev pub indication_name : List ℕ
indication_name =
    103 ∷ 114 ∷ 105 ∷ 108 ∷ 105 ∷ 111 ∷ 45 ∷ 116 ∷ 114 ∷ 97 ∷ 110 ∷ 115 ∷ 112 ∷ 111 ∷ 114 ∷ 116 ∷ 45
    ∷ 105 ∷ 110 ∷ 100 ∷ 105 ∷ 99 ∷ 97 ∷ 116 ∷ 105 ∷ 111 ∷ 110 ∷ []

-- "grilio-transport-read-error"
abbrev pub read_error_name : List ℕ
read_error_name =
    103 ∷ 114 ∷ 105 ∷ 108 ∷ 105 ∷ 111 ∷ 45 ∷ 116 ∷ 114 ∷ 97 ∷ 110 ∷ 115 ∷ 112 ∷ 111 ∷ 114 ∷ 116 ∷ 45
    ∷ 114 ∷ 101 ∷ 97 ∷ 100 ∷ 45 ∷ 101 ∷ 114 ∷ 114 ∷ 111 ∷ 114 ∷ []

-- "grilio-transport-write-error"
abbrev pub write_error_name : List ℕ
write_error_name =
    103 ∷ 114 ∷ 105 ∷ 108 ∷ 105 ∷ 111 ∷ 45 ∷ 116 ∷ 114 ∷ 97 ∷ 110 ∷ 115 ∷ 112 ∷ 111 ∷ 114 ∷ 116 ∷ 45
    ∷ 119 ∷ 114 ∷ 105 ∷ 116 ∷ 101 ∷ 45 ∷ 101 ∷ 114 ∷ 114 ∷ 111 ∷ 114 ∷ []

-- The name that g_signal_new is given.
abbrev pub name : Signal → List ℕ
name Signal.connected = connected_name
name Signal.disconnected = disconnected_name
name Signal.request_sent = request_sent_name
name Signal.got_response = response_name
name Signal.got_indication = indication_name
name Signal.read_error = read_error_name
name Signal.write_error = write_error_name

module _ {H : Type 0} (gobject : Signals H Values) where
  abbrev pub emit : Signal → Values → H → List (ℕ × Values × ℕ)
  emit s v h = gobject.emit (name s) [] v h

  abbrev pub signal_connected : H → List (ℕ × Values × ℕ)
  signal_connected h = emit Signal.connected Values.nothing h

  abbrev pub signal_disconnected : H → List (ℕ × Values × ℕ)
  signal_disconnected h = emit Signal.disconnected Values.nothing h

  abbrev pub signal_request_sent : ℕ → H → List (ℕ × Values × ℕ)
  signal_request_sent p h = emit Signal.request_sent (Values.request p) h

  abbrev pub signal_response : ResponseType → ℕ → ℤ → List ℕ → H → List (ℕ × Values × ℕ)
  signal_response type serial status body h =
      emit Signal.got_response (Values.response type serial status body) h

  abbrev pub signal_indication : IndicationType → ℕ → List ℕ → H → List (ℕ × Values × ℕ)
  signal_indication type code body h =
      emit Signal.got_indication (Values.indication type code body) h

  abbrev pub signal_read_error : ℕ → H → List (ℕ × Values × ℕ)
  signal_read_error e h = emit Signal.read_error (Values.error e) h

  abbrev pub signal_write_error : ℕ → H → List (ℕ × Values × ℕ)
  signal_write_error e h = emit Signal.write_error (Values.error e) h

  -- (G_LIKELY(self) && G_LIKELY(func)) ? g_signal_connect(self, name, func, user_data) : 0
  abbrev pub connect_to : List ℕ → Option ℕ → ℕ → H → ℕ × H
  connect_to name none arg h = (0, h)
  connect_to name (some f) arg h = gobject.connect name f arg h

  abbrev pub add_connected_handler : Option ℕ → ℕ → H → ℕ × H
  add_connected_handler func arg h = connect_to connected_name func arg h

  abbrev pub add_disconnected_handler : Option ℕ → ℕ → H → ℕ × H
  add_disconnected_handler func arg h = connect_to disconnected_name func arg h

  abbrev pub add_request_sent_handler : Option ℕ → ℕ → H → ℕ × H
  add_request_sent_handler func arg h = connect_to request_sent_name func arg h

  abbrev pub add_response_handler : Option ℕ → ℕ → H → ℕ × H
  add_response_handler func arg h = connect_to response_name func arg h

  abbrev pub add_indication_handler : Option ℕ → ℕ → H → ℕ × H
  add_indication_handler func arg h = connect_to indication_name func arg h

  abbrev pub add_read_error_handler : Option ℕ → ℕ → H → ℕ × H
  add_read_error_handler func arg h = connect_to read_error_name func arg h

  abbrev pub add_write_error_handler : Option ℕ → ℕ → H → ℕ × H
  add_write_error_handler func arg h = connect_to write_error_name func arg h

  -- `grilio_transport_remove_handler`
  abbrev pub remove_handler : ℕ → H → H
  remove_handler id h = if id == 0 then h else gobject.disconnect id h

  -- The function that adds a handler of a signal.
  abbrev pub add_handler : Signal → Option ℕ → ℕ → H → ℕ × H
  add_handler Signal.connected = add_connected_handler
  add_handler Signal.disconnected = add_disconnected_handler
  add_handler Signal.request_sent = add_request_sent_handler
  add_handler Signal.got_response = add_response_handler
  add_handler Signal.got_indication = add_indication_handler
  add_handler Signal.read_error = add_read_error_handler
  add_handler Signal.write_error = add_write_error_handler

abbrev pub position : Signal → ℕ
position Signal.connected = 0
position Signal.disconnected = 1
position Signal.request_sent = 2
position Signal.got_response = 3
position Signal.got_indication = 4
position Signal.read_error = 5
position Signal.write_error = 6

-- The names tell the signals apart.
name-hears : (s t : Signal) → hears (name s) (name t) [] ≡ (position s == position t)
name-hears Signal.connected Signal.connected = refl
name-hears Signal.connected Signal.disconnected = refl
name-hears Signal.connected Signal.request_sent = refl
name-hears Signal.connected Signal.got_response = refl
name-hears Signal.connected Signal.got_indication = refl
name-hears Signal.connected Signal.read_error = refl
name-hears Signal.connected Signal.write_error = refl
name-hears Signal.disconnected Signal.connected = refl
name-hears Signal.disconnected Signal.disconnected = refl
name-hears Signal.disconnected Signal.request_sent = refl
name-hears Signal.disconnected Signal.got_response = refl
name-hears Signal.disconnected Signal.got_indication = refl
name-hears Signal.disconnected Signal.read_error = refl
name-hears Signal.disconnected Signal.write_error = refl
name-hears Signal.request_sent Signal.connected = refl
name-hears Signal.request_sent Signal.disconnected = refl
name-hears Signal.request_sent Signal.request_sent = refl
name-hears Signal.request_sent Signal.got_response = refl
name-hears Signal.request_sent Signal.got_indication = refl
name-hears Signal.request_sent Signal.read_error = refl
name-hears Signal.request_sent Signal.write_error = refl
name-hears Signal.got_response Signal.connected = refl
name-hears Signal.got_response Signal.disconnected = refl
name-hears Signal.got_response Signal.request_sent = refl
name-hears Signal.got_response Signal.got_response = refl
name-hears Signal.got_response Signal.got_indication = refl
name-hears Signal.got_response Signal.read_error = refl
name-hears Signal.got_response Signal.write_error = refl
name-hears Signal.got_indication Signal.connected = refl
name-hears Signal.got_indication Signal.disconnected = refl
name-hears Signal.got_indication Signal.request_sent = refl
name-hears Signal.got_indication Signal.got_response = refl
name-hears Signal.got_indication Signal.got_indication = refl
name-hears Signal.got_indication Signal.read_error = refl
name-hears Signal.got_indication Signal.write_error = refl
name-hears Signal.read_error Signal.connected = refl
name-hears Signal.read_error Signal.disconnected = refl
name-hears Signal.read_error Signal.request_sent = refl
name-hears Signal.read_error Signal.got_response = refl
name-hears Signal.read_error Signal.got_indication = refl
name-hears Signal.read_error Signal.read_error = refl
name-hears Signal.read_error Signal.write_error = refl
name-hears Signal.write_error Signal.connected = refl
name-hears Signal.write_error Signal.disconnected = refl
name-hears Signal.write_error Signal.request_sent = refl
name-hears Signal.write_error Signal.got_response = refl
name-hears Signal.write_error Signal.got_indication = refl
name-hears Signal.write_error Signal.read_error = refl
name-hears Signal.write_error Signal.write_error = refl

add_handler-connect :
    {H : Type 0} (gobject : Signals H Values) (s : Signal) (f arg : ℕ) (h : H)
    → add_handler gobject s (some f) arg h ≡ gobject.connect (name s) f arg h
add_handler-connect gobject Signal.connected f arg h = refl
add_handler-connect gobject Signal.disconnected f arg h = refl
add_handler-connect gobject Signal.request_sent f arg h = refl
add_handler-connect gobject Signal.got_response f arg h = refl
add_handler-connect gobject Signal.got_indication f arg h = refl
add_handler-connect gobject Signal.read_error f arg h = refl
add_handler-connect gobject Signal.write_error f arg h = refl

-- Where signals do as documented: after the function that adds a handler of a signal, an emission calls
-- the handlers that it called before, and then the new one, with what it hands over, exactly when it is
-- an emission of that signal.
pub emit-add_handler :
    {H : Type 0} (gobject : Signals H Values) (s t : Signal) (f arg : ℕ) (v : Values) (h : H)
    → IsDocumented gobject
    → emit gobject t v (add_handler gobject s (some f) arg h).1
      ≡ emit gobject t v h ++ (if position s == position t then (f, v, arg) ∷ [] else [])
emit-add_handler gobject s t f arg v h g =
    ap (λ (x : ℕ × _). emit gobject t v x.1) (add_handler-connect gobject s f arg h)
    ∙ g.called (name s) (name t) [] v f arg h
    ∙ ap (λ b. emit gobject t v h ++ (if b then (f, v, arg) ∷ [] else [])) (name-hears s t)
