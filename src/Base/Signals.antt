-- ===== src/Base/Signals.antt =====
-- What GObject does for signals, as src/grilio_channel.c and src/grilio_transport.c use it: a handler is
-- connected under the name of a signal, with a detail behind two colons or without, and an emission calls
-- the handlers of the signal. A text is the list of its characters.
use libgrilio.Base.{
  ℕ, ◌≡◌, ◌≢◌, refl, Bool, true, false, ◌||◌, List, [], ◌∷◌, ◌++◌, arith, ◌==◌, ==_refl,
  if◌then◌else◌,
}

-- What GObject offers, over the handlers that an object has; `V` is what an emission hands over.
pub record Signals (H V : Type 0) : Type 0 where
  -- g_signal_connect(self, name, func, arg)
  pub connect : List ℕ → ℕ → ℕ → H → ℕ × H
  -- g_signal_handler_disconnect(self, id)
  pub disconnect : ℕ → H → H
  -- g_signal_emit(self, signal, detail, ...): the handlers that are called, in their order, each with
  -- the values and its own argument. No detail is the empty one.
  pub emit : List ℕ → List ℕ → V → H → List (ℕ × V × ℕ)

-- strcmp(...) == 0
abbrev pub same : List ℕ → List ℕ → Bool
same [] [] = true
same [] (y ∷ ys) = false
same (x ∷ xs) [] = false
same (x ∷ xs) (y ∷ ys) = if x == y then same xs ys else false

pub same_refl : (xs : List ℕ) → same xs xs ≡ true
same_refl [] = refl
same_refl (x ∷ xs) = rw (==_refl x) (same_refl xs)

pub same_sound : (xs ys : List ℕ) → same xs ys ≡ true → xs ≡ ys
same_sound [] [] h = refl
same_sound [] (y ∷ ys) h = cc
same_sound (x ∷ xs) [] h = cc
same_sound (x ∷ xs) (y ∷ ys) h = ground (arith, same_sound xs ys)

-- A handler hears a signal under its name, and with its detail under the name, two colons and the detail.
abbrev pub hears : List ℕ → List ℕ → List ℕ → Bool
hears name signal detail = same name signal || same name (signal ++ (58 ∷ 58 ∷ detail))

-- What GObject documents: a handler that is connected is called last; its id is not 0, and once it is
-- disconnected by that the emissions are what they were.
pub record IsDocumented {H V : Type 0} (gobject : Signals H V) : Type 0 where
  pub called :
      (name signal detail : List ℕ) (v : V) (f arg : ℕ) (h : H)
      → gobject.emit signal detail v (gobject.connect name f arg h).1
        ≡ gobject.emit signal detail v h
          ++ (if hears name signal detail then (f, v, arg) ∷ [] else [])
  pub id : (name : List ℕ) (f arg : ℕ) (h : H) → (gobject.connect name f arg h).0 ≢ 0
  pub gone :
      (name signal detail : List ℕ) (v : V) (f arg : ℕ) (h : H)
      → gobject.emit signal detail v
          (gobject.disconnect (gobject.connect name f arg h).0 (gobject.connect name f arg h).1)
        ≡ gobject.emit signal detail v h
