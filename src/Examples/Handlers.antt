-- ===== src/Examples/Handlers.antt =====
-- The handlers of signals, kept by a list, the newest first, and the eight digits of a number.
use libgrilio.Base.{
  ℕ, ◌/◌, ◌%◌, ◌<◌, ◌^◌, ◌≡◌, ◌≢◌, refl, ap, ◌||◌, some, List, [], ◌∷◌, ◌++◌, arith, ◌==◌,
  if◌then◌else◌, get_or,
}
use libgrilio.Base.Signals.{Signals, IsDocumented, hears}
use libgrilio.Channel.Signals.{
  IsHex, emit_unsol_event, add_unsol_event_handler, remove_handler,
  emit_unsol_event-add_unsol_event_handler,
}
use libgrilio.Transport.Signals.{Values, Signal, emit, add_handler, position, emit-add_handler}

abbrev call : {V : Type 0} → List ℕ → List ℕ → V → List (List ℕ × ℕ × ℕ) → List (ℕ × V × ℕ)
call signal detail v [] = []
call signal detail v ((name, f, arg) ∷ h) =
    call signal detail v h ++ (if hears name signal detail then (f, v, arg) ∷ [] else [])

abbrev without_newest : List (List ℕ × ℕ × ℕ) → List (List ℕ × ℕ × ℕ)
without_newest [] = []
without_newest (x ∷ h) = h

abbrev kept_by_list : {V : Type 0} → Signals (List (List ℕ × ℕ × ℕ)) V
kept_by_list = record {
  connect = λ name f arg h. (1, (name, f, arg) ∷ h);
  disconnect = λ id h. without_newest h;
  emit = λ signal detail v h. call signal detail v h;
}

kept_by_list-IsDocumented : {V : Type 0} → IsDocumented {V = V} kept_by_list
kept_by_list-IsDocumented {V} = record {
  called = λ name signal detail v f arg h. refl;
  id = λ name f arg h. omega arith;
  gone = λ name signal detail v f arg h. refl;
}

abbrev eight_digits : ℕ → List ℕ
eight_digits n =
    n / 268435456 % 16
    ∷ n / 16777216 % 16
    ∷ n / 1048576 % 16
    ∷ n / 65536 % 16
    ∷ n / 4096 % 16
    ∷ n / 256 % 16
    ∷ n / 16 % 16
    ∷ n % 16
    ∷ []

eight_digits_injective :
    (m n : ℕ) → m < 2 ^ 32 → n < 2 ^ 32 → eight_digits m ≡ eight_digits n → m ≡ n
eight_digits_injective m n a b e = omega (
  arith,
  ap (λ l. get_or l 0 0) e,
  ap (λ l. get_or l 1 0) e,
  ap (λ l. get_or l 2 0) e,
  ap (λ l. get_or l 3 0) e,
  ap (λ l. get_or l 4 0) e,
  ap (λ l. get_or l 5 0) e,
  ap (λ l. get_or l 6 0) e,
  ap (λ l. get_or l 7 0) e,
)

eight_digits-IsHex : IsHex eight_digits
eight_digits-IsHex = record { short = λ n h. omega arith; injective = eight_digits_injective }

-- A handler of event 1000 is added; event 1001 comes, and then event 1000.
emit_unsol_event-add_unsol_event_handler_example :
    (emit_unsol_event kept_by_list eight_digits 1000
        (7 ∷ [])
        (add_unsol_event_handler kept_by_list eight_digits (some 5) 1000 9 []).1
      ≡ emit_unsol_event kept_by_list eight_digits 1000 (7 ∷ []) []
        ++ (if 1000 == 0 || 1000 == 1000 then (5, (1000, 7 ∷ []), 9) ∷ [] else []))
    × ((add_unsol_event_handler kept_by_list eight_digits (some 5) 1000 9 []).0 ≢ 0)
    × (emit_unsol_event kept_by_list eight_digits 1000 (7 ∷ []) (
          remove_handler kept_by_list
            (add_unsol_event_handler kept_by_list eight_digits (some 5) 1000 9 []).0
            (add_unsol_event_handler kept_by_list eight_digits (some 5) 1000 9 []).1)
        ≡ emit_unsol_event kept_by_list eight_digits 1000 (7 ∷ []) [])
emit_unsol_event-add_unsol_event_handler_example =
    emit_unsol_event-add_unsol_event_handler kept_by_list eight_digits 5 1000 9 1000 (7 ∷ []) []
      kept_by_list-IsDocumented eight_digits-IsHex (omega arith) (omega arith)

emit-add_handler_example :
    emit kept_by_list Signal.read_error
      (Values.error 4)
      (add_handler kept_by_list Signal.read_error (some 5) 9 []).1
    ≡ emit kept_by_list Signal.read_error (Values.error 4) []
      ++ (if position Signal.read_error == position Signal.read_error
          then (5, Values.error 4, 9) ∷ []
          else [])
emit-add_handler_example =
    emit-add_handler kept_by_list Signal.read_error Signal.read_error 5 9 (Values.error 4) []
      kept_by_list-IsDocumented
