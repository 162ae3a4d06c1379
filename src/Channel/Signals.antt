-- ===== src/Channel/Signals.antt =====
-- src/grilio_channel.c: the handlers of a channel's signals. The numbers of the signals stand for their
-- names. GObject and the conversion of snprintf are parameters.
use libgrilio.Base.{
  ℕ, zero, suc, ◌≤◌, ◌<◌, ◌^◌, ◌≡◌, ◌≢◌, refl, sym, ap, ◌∙◌, inl, inr, false, ◌||◌, Option, none,
  some, List, [], ◌∷◌, ◌++◌, arith, ◌==◌, ==_refl, if◌then◌else◌, length, take, Bool-cases,
}
use libgrilio.Base.Signals.{Signals, IsDocumented, same, same_refl, same_sound, hears}

-- "grilio-connected"
abbrev pub connected_name : List ℕ
connected_name =
    103 ∷ 114 ∷ 105 ∷ 108 ∷ 105 ∷ 111 ∷ 45 ∷ 99 ∷ 111 ∷ 110 ∷ 110 ∷ 101 ∷ 99 ∷ 116 ∷ 101 ∷ 100 ∷ []

-- "grilio-unsol-event"
abbrev pub unsol_event_name : List ℕ
unsol_event_name =
    103 ∷ 114 ∷ 105 ∷ 108 ∷ 105 ∷ 111 ∷ 45 ∷ 117 ∷ 110 ∷ 115 ∷ 111 ∷ 108 ∷ 45 ∷ 101 ∷ 118 ∷ 101
    ∷ 110 ∷ 116 ∷ []

-- "grilio-error"
abbrev pub error_name : List ℕ
error_name = 103 ∷ 114 ∷ 105 ∷ 108 ∷ 105 ∷ 111 ∷ 45 ∷ 101 ∷ 114 ∷ 114 ∷ 111 ∷ 114 ∷ []

-- "grilio-eof"
abbrev pub eof_name : List ℕ
eof_name = 103 ∷ 114 ∷ 105 ∷ 108 ∷ 105 ∷ 111 ∷ 45 ∷ 101 ∷ 111 ∷ 102 ∷ []

-- "grilio-owner"
abbrev pub owner_name : List ℕ
owner_name = 103 ∷ 114 ∷ 105 ∷ 108 ∷ 105 ∷ 111 ∷ 45 ∷ 111 ∷ 119 ∷ 110 ∷ 101 ∷ 114 ∷ []

-- "grilio-pending"
abbrev pub pending_name : List ℕ
pending_name = 103 ∷ 114 ∷ 105 ∷ 108 ∷ 105 ∷ 111 ∷ 45 ∷ 112 ∷ 101 ∷ 110 ∷ 100 ∷ 105 ∷ 110 ∷ 103 ∷ []

module _ {H : Type 0} (gobject : Signals H (ℕ × List ℕ)) where
  -- (G_LIKELY(self) && G_LIKELY(func)) ? g_signal_connect(self, name, func, arg) : 0
  abbrev pub connect_to : List ℕ → Option ℕ → ℕ → H → ℕ × H
  connect_to name none arg h = (0, h)
  connect_to name (some f) arg h = gobject.connect name f arg h

  abbrev pub add_connected_handler : Option ℕ → ℕ → H → ℕ × H
  add_connected_handler func arg h = connect_to connected_name func arg h

  abbrev pub add_disconnected_handler : Option ℕ → ℕ → H → ℕ × H
  add_disconnected_handler func arg h = connect_to eof_name func arg h

  abbrev pub add_error_handler : Option ℕ → ℕ → H → ℕ × H
  add_error_handler func arg h = connect_to error_name func arg h

  abbrev pub add_owner_changed_handler : Option ℕ → ℕ → H → ℕ × H
  add_owner_changed_handler func arg h = connect_to owner_name func arg h

  abbrev pub add_pending_changed_handler : Option ℕ → ℕ → H → ℕ × H
  add_pending_changed_handler func arg h = connect_to pending_name func arg h

  -- `grilio_channel_remove_handler`
  abbrev pub remove_handler : ℕ → H → H
  remove_handler id h = if id == 0 then h else gobject.disconnect id h

  module _ (hex : ℕ → List ℕ) where
    -- snprintf(signame, sizeof(signame), "%x", code): `signame` has 9 places.
    abbrev pub detail : ℕ → List ℕ
    detail code = take 8 (hex code)

    -- `grilio_channel_emit_unsol_event`; the length comes with the data.
    abbrev pub emit_unsol_event : ℕ → List ℕ → H → List (ℕ × (ℕ × List ℕ) × ℕ)
    emit_unsol_event code body h = gobject.emit unsol_event_name (detail code) (code, body) h

    -- snprintf(buf, sizeof(buf), "%s::%x", ...): `buf` has 19 + 2 + 8 places.
    abbrev pub signal_name : ℕ → List ℕ
    signal_name code =
        if code == 0 then unsol_event_name else take 28 (unsol_event_name ++ (58 ∷ 58 ∷ hex code))

    -- `grilio_channel_add_unsol_event_handler`
    abbrev pub add_unsol_event_handler : Option ℕ → ℕ → ℕ → H → ℕ × H
    add_unsol_event_handler func code arg h = connect_to (signal_name code) func arg h

-- What the C library documents of "%x": of numbers of 32 bits there are at most eight digits, and
-- different numbers have different ones.
pub record IsHex (hex : ℕ → List ℕ) : Type 0 where
  pub short : (n : ℕ) → n < 2 ^ 32 → length (hex n) ≤ 8
  pub injective : (m n : ℕ) → m < 2 ^ 32 → n < 2 ^ 32 → hex m ≡ hex n → m ≡ n

take_all : (n : ℕ) (xs : List ℕ) → length xs ≤ n → take n xs ≡ xs
take_all zero [] h = refl
take_all zero (x ∷ xs) h = absurd (omega arith)
take_all (suc n) [] h = refl
take_all (suc n) (x ∷ xs) h = ap (λ l. x ∷ l) (take_all n xs (omega arith))

same-hex :
    (hex : ℕ → List ℕ) (m n : ℕ)
    → IsHex hex
    → m < 2 ^ 32
    → n < 2 ^ 32
    → same (hex m) (hex n) ≡ (m == n)
same-hex hex m n x a b = elim (Bool-cases (m == n)) [
  | inl equal ↦
      let e : m ≡ n = ground arith in
      rw equal (ap (λ k. same (hex m) (hex k)) (sym e) ∙ same_refl (hex m))
  | inr other ↦ elim (Bool-cases (same (hex m) (hex n))) [
    | inl s ↦
        let e : m ≡ n = x.injective m n a b (same_sound (hex m) (hex n) s) in
        ground (arith, ==_refl n)
    | inr s ↦ rw (s, other) refl
  ]
]

-- The buffers hold the whole name, and the names tell the codes apart.
signal_name-hears :
    (hex : ℕ → List ℕ) (code event : ℕ)
    → IsHex hex
    → code < 2 ^ 32
    → event < 2 ^ 32
    → hears
        (if code == 0 then unsol_event_name else take 28 (unsol_event_name ++ (58 ∷ 58 ∷ hex code)))
        unsol_event_name
        (take 8 (hex event))
      ≡ (code == 0 || code == event)
signal_name-hears hex code event x a b =
    let whole : take 8 (hex event) ≡ hex event = take_all 8 (hex event) (x.short event b) in
    let full : take 8 (hex code) ≡ hex code = take_all 8 (hex code) (x.short code a) in
    elim (Bool-cases (code == 0)) [
      | inl zero_code ↦ rw zero_code refl
      | inr other ↦ rw (other, whole, full) (same-hex hex code event x a b)
    ]

-- Where signals and the conversion do as documented, for codes of 32 bits: an event calls the handlers
-- that it called before, and then a handler that was added for a code, exactly when this is 0 or the
-- code of the event. The handler gets an id that is not 0, and when it is removed by that, an event
-- calls the handlers that it called before.
pub emit_unsol_event-add_unsol_event_handler :
    {H : Type 0} (gobject : Signals H (ℕ × List ℕ)) (hex : ℕ → List ℕ) (f code arg event : ℕ)
    (body : List ℕ) (h : H)
    → IsDocumented gobject
    → IsHex hex
    → code < 2 ^ 32
    → event < 2 ^ 32
    → (emit_unsol_event gobject hex event body
          (add_unsol_event_handler gobject hex (some f) code arg h).1
        ≡ emit_unsol_event gobject hex event body h
          ++ (if code == 0 || code == event then (f, (event, body), arg) ∷ [] else []))
      × ((add_unsol_event_handler gobject hex (some f) code arg h).0 ≢ 0)
      × (emit_unsol_event gobject hex event body (
            remove_handler gobject
              (add_unsol_event_handler gobject hex (some f) code arg h).0
              (add_unsol_event_handler gobject hex (some f) code arg h).1)
          ≡ emit_unsol_event gobject hex event body h)
emit_unsol_event-add_unsol_event_handler gobject hex f code arg event body h g x a b =
    let name = signal_name gobject hex code in
    let old = emit_unsol_event gobject hex event body h in
    let positive = g.id name f arg h in
    let zero_id : ((gobject.connect name f arg h).0 == 0) ≡ false = ground (arith, positive) in
    (
      g.called name unsol_event_name (take 8 (hex event)) (event, body) f arg h
          ∙ ap (λ t. old ++ (if t then (f, (event, body), arg) ∷ [] else []))
              (signal_name-hears hex code event x a b),
      positive,
      rw zero_id (g.gone name unsol_event_name (take 8 (hex event)) (event, body) f arg h),
    )
