-- ===== src/Channel/Injects.antt =====
-- src/grilio_channel.c, injected events: they wait in a queue until the channel may signal them.
use libgrilio.Base.{ℕ, ◌≡◌, refl, sym, ap, ◌∙◌, List, [], ◌∷◌, ◌++◌, append_assoc, append-nil}
use libgrilio.Channel.State.{Channel, Event}
use libgrilio.Channel.Response.{
  inject_events, process_injects, process_injects_cb, inject_unsol_event,
}

-- Events injected one after the other.
unfoldable pub inject_all : List (ℕ × List ℕ) → Channel → Channel
inject_all [] c = c
inject_all ((code, body) ∷ l) c = inject_all l (inject_unsol_event code body c)

-- The signals of events, the last one in front.
abbrev pub signals : List (ℕ × List ℕ) → List Event
signals [] = []
signals ((code, body) ∷ l) = signals l ++ (Event.signal_unsol code body ∷ [])

inject_events-signals :
    (l : List (ℕ × List ℕ)) (out : List Event) → inject_events l out ≡ signals l ++ out
unfolding inject_events
inject_events-signals [] out = refl
inject_events-signals ((code, body) ∷ l) out =
    inject_events-signals l (Event.signal_unsol code body ∷ out)
    ∙ sym (append_assoc (signals l) (Event.signal_unsol code body ∷ []) out)

inject_all-injects :
    (l : List (ℕ × List ℕ)) (c : Channel)
    → ((inject_all l c).injects ≡ c.injects ++ l) × ((inject_all l c).out ≡ c.out)
unfolding inject_all inject_unsol_event
inject_all-injects [] c = (sym (append-nil c.injects), refl)
inject_all-injects ((code, body) ∷ l) c =
    let rest = inject_all-injects l (inject_unsol_event code body c) in
    (rest.0 ∙ append_assoc c.injects ((code, body) ∷ []) l, rest.1)

-- Events that are injected while none wait are signalled in the order in which they were injected,
-- each once, when the idle source fires, and then none wait.
pub process_injects_cb-inject_all :
    (l : List (ℕ × List ℕ)) (c : Channel)
    → c.injects ≡ []
    → ((process_injects_cb (inject_all l c)).out ≡ signals l ++ c.out)
      × ((process_injects_cb (inject_all l c)).injects ≡ [])
unfolding process_injects_cb process_injects
process_injects_cb-inject_all l c h =
    let waiting = inject_all-injects l c in
    (
      inject_events-signals (inject_all l c).injects (inject_all l c).out
          ∙ ap (λ i. signals i ++ (inject_all l c).out) (waiting.0 ∙ ap (λ i. i ++ l) h)
          ∙ ap (λ o. signals l ++ o) waiting.1,
      refl,
    )
