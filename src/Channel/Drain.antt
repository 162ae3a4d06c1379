-- ===== src/Channel/Drain.antt =====
-- src/grilio_channel.c, grilio_channel_schedule_write: its loop ends, and what may be sent is sent.
use libgrilio.Base.{
  ℕ, zero, suc, ◌<◌, ◌≡◌, refl, sym, ap, ◌∙◌, ◌⊎◌, inl, inr, Bool, true, false, not, Option, none,
  some, List, [], ◌∷◌, ◌++◌, arith, if◌then◌else◌, Bool-cases, Option-cases, length, length-append,
}
use libgrilio.Base.Int.{ℤ}
use libgrilio.Channel.State.{Channel, Env, Event, SendStatus, emit}
use libgrilio.Channel.Send.{
  unlink, pick, start_sending, track_pending, take_request, dequeue_request, request_sent,
}
use libgrilio.Channel.Write.{
  is_null, set_block, leave_queue, request_timeout, set_deadline, prepare, finish_send, submit,
  send_taken, send_next_request, write_loop, schedule_write,
}
use libgrilio.Channel.Frame.{send_next_request-frame}
use libgrilio.Channel.Policy.{pick_sound, IsNext}

-- What the write is about: the request in the transport's hands, and the chain.
abbrev outgoing : Channel → Option ℕ × List ℕ
outgoing c = (c.send_req, c.first_req)

outgoing-if :
    (b : Bool) (c d : Channel) (x : Option ℕ × List ℕ)
    → outgoing c ≡ x
    → outgoing d ≡ x
    → outgoing (if b then c else d) ≡ x
outgoing-if true c d x p q = p
outgoing-if false c d x p q = q

track_pending-outgoing :
    (e : Env) (p : ℕ) (c : Channel) → outgoing (track_pending e p c) ≡ outgoing c
unfolding track_pending
track_pending-outgoing e p c = outgoing-if _ c _ _ refl refl

set_block-outgoing : (p : ℕ) (c : Channel) → outgoing (set_block p c) ≡ outgoing c
unfolding set_block
set_block-outgoing p c = outgoing-if _ _ c _ refl refl

leave_queue-outgoing : (p : ℕ) (c : Channel) → outgoing (leave_queue p c) ≡ outgoing c
unfolding leave_queue
leave_queue-outgoing p c = outgoing-if _ _ c _ refl refl

set_deadline-outgoing :
    (e : Env) (p : ℕ) (ms : ℤ) (c : Channel) → outgoing (set_deadline e p ms c) ≡ outgoing c
unfolding set_deadline
set_deadline-outgoing e p ms c = ground arith

prepare-outgoing : (e : Env) (p : ℕ) (c : Channel) → outgoing (prepare e p c) ≡ outgoing c
unfolding prepare
prepare-outgoing e p c =
    let d = leave_queue p (set_block p c) in
    set_deadline-outgoing e p (request_timeout d (d.reqs p)) d
    ∙ leave_queue-outgoing p (set_block p c)
    ∙ set_block-outgoing p c

request_sent-first_req : (p : ℕ) (c : Channel) → (request_sent p c).first_req ≡ c.first_req
unfolding request_sent
request_sent-first_req p c = ground arith

-- Nothing more can be sent: the transport has a request, or nothing in the chain may go.
abbrev pub IsQuiet : Channel → Type 0
IsQuiet c = ((p : ℕ) × (c.send_req ≡ some p)) ⊎ (pick c (not (is_null c.block_req)) ≡ none)

finish_send-IsQuiet :
    (s : SendStatus) (p : ℕ) (c : Channel)
    → c.send_req ≡ some p
    → (finish_send s p c).0 ≡ false
    → IsQuiet (finish_send s p c).1
finish_send-IsQuiet SendStatus.ok p c h stop = cc
finish_send-IsQuiet SendStatus.error p c h stop = inl (p, h)
finish_send-IsQuiet SendStatus.pending p c h stop = inl (p, h)

finish_send-first_req :
    (s : SendStatus) (p : ℕ) (c : Channel) → (finish_send s p c).1.first_req ≡ c.first_req
finish_send-first_req SendStatus.ok p c = request_sent-first_req p c
finish_send-first_req SendStatus.error p c = refl
finish_send-first_req SendStatus.pending p c = refl

same_send_req : (c : Channel) → c.send_req ≡ none → record c { send_req = none } ≡ c
same_send_req c h = ap (λ o. record c { send_req = o }) (sym h)

-- What a round does, by the choice that it finds.
send_none :
    (e : Env) (c : Channel) (io : Bool)
    → c.send_req ≡ none
    → pick c io ≡ none
    → send_taken e (dequeue_request e io c) ≡ (false, c)
unfolding send_taken dequeue_request take_request
send_none e c io idle nothing = rw nothing (ap (λ d. (false, d)) (same_send_req c idle))

abbrev handed : Env → ℕ → Channel → Channel
handed e p c = record (take_request e (some p) c).1 { send_req = some p }

send_some :
    (e : Env) (c : Channel) (io : Bool) (p : ℕ)
    → pick c io ≡ some p
    → send_taken e (dequeue_request e io c) ≡ submit e p (prepare e p (handed e p c))
unfolding send_taken dequeue_request take_request
send_some e c io p found = rw found

submit-IsQuiet :
    (e : Env) (p : ℕ) (c : Channel)
    → c.send_req ≡ some p
    → (submit e p c).0 ≡ false
    → IsQuiet (submit e p c).1
unfolding submit
submit-IsQuiet e p c h stop = finish_send-IsQuiet (e.send p) p _ h stop

prepared-send_req : (e : Env) (p : ℕ) (c : Channel) → (prepare e p (handed e p c)).send_req ≡ some p
prepared-send_req e p c = ap (λ o. o.0) (prepare-outgoing e p (handed e p c))

prepared-first_req :
    (e : Env) (p : ℕ) (c : Channel)
    → (submit e p (prepare e p (handed e p c))).1.first_req ≡ unlink p c.first_req
unfolding submit take_request start_sending
prepared-first_req e p c =
    finish_send-first_req (e.send p) p (emit (Event.submitted p _) (prepare e p (handed e p c)))
    ∙ ap (λ o. o.1) (prepare-outgoing e p (handed e p c))
    ∙ ap (λ o. o.1) (track_pending-outgoing e p (start_sending e p c))

-- A round with the transport free takes what `pick` finds.
send_next_request-free :
    (e : Env) (c : Channel)
    → c.connected ≡ true
    → c.send_req ≡ none
    → send_next_request e c ≡ send_taken e (dequeue_request e (not (is_null c.block_req)) c)
unfolding send_next_request
send_next_request-free e c up idle = ground arith

send_next_request-busy :
    (e : Env) (c : Channel) (p : ℕ) → c.send_req ≡ some p → send_next_request e c ≡ (false, c)
unfolding send_next_request
send_next_request-busy e c p busy = ground arith

-- A round that is the last one leaves a quiet channel.
stop-IsQuiet :
    (e : Env) (c : Channel)
    → c.connected ≡ true
    → (send_next_request e c).0 ≡ false
    → IsQuiet (send_next_request e c).1
stop-IsQuiet e c up stop = elim (Option-cases c.send_req) [
  | inr (p, busy) ↦ rw (send_next_request-busy e c p busy) (inl (p, busy))
  | inl idle ↦
      let io : Bool = not (is_null c.block_req) in
      let free = send_next_request-free e c up idle in
      elim (Option-cases (pick c io)) [
        | inl nothing ↦ rw (free, send_none e c io idle nothing) (inr nothing)
        | inr (p, found) ↦
            let step = free ∙ send_some e c io p found in
            rw step (
              submit-IsQuiet e p (prepare e p (handed e p c)) (prepared-send_req e p c)
                (rw step at stop))
      ]
]

length-unlink : (p : ℕ) (l m : List ℕ) → length (unlink p (l ++ (p ∷ m))) < length (l ++ (p ∷ m))
unfolding unlink
length-unlink p [] m = ground arith
length-unlink p (q ∷ l) m = ground (arith, length-unlink p l m, length-append l (p ∷ m))

-- Any other round shortens the chain.
more-shorter :
    (e : Env) (c : Channel)
    → c.connected ≡ true
    → (send_next_request e c).0 ≡ true
    → length (send_next_request e c).1.first_req < length c.first_req
more-shorter e c up more = elim (Option-cases c.send_req) [
  | inr (p, busy) ↦ cc (rw (send_next_request-busy e c p busy) at more)
  | inl idle ↦
      let io : Bool = not (is_null c.block_req) in
      let free = send_next_request-free e c up idle in
      elim (Option-cases (pick c io)) [
        | inl nothing ↦ cc (rw (free, send_none e c io idle nothing) at more)
        | inr (p, found) ↦
            let next : IsNext c p = (pick_sound c io p found).1 in
            rw (free, send_some e c io p found, prepared-first_req e p c, next.split)
              (length-unlink p next.before next.after)
      ]
]

write_loop-IsQuiet :
    (fuel : ℕ) (e : Env) (c : Channel)
    → c.connected ≡ true
    → length c.first_req < fuel
    → IsQuiet (write_loop fuel e c)
unfolding write_loop
write_loop-IsQuiet zero e c up enough = absurd (omega arith)
write_loop-IsQuiet (suc fuel) e c up enough = elim (Bool-cases (send_next_request e c).0) [
  | inl more ↦ rw more (
      write_loop-IsQuiet fuel e (send_next_request e c).1
        (ap (λ f. f.connected) (send_next_request-frame e c) ∙ up)
        (omega (arith, more-shorter e c up more)))
  | inr stop ↦ rw stop (stop-IsQuiet e c up stop)
]

schedule_write-connected :
    (e : Env) (c : Channel)
    → c.connected ≡ true
    → schedule_write e c ≡ write_loop (suc (length c.first_req)) e c
unfolding schedule_write
schedule_write-connected e c up = ground arith

-- On a connected channel the loop of a write ends before its fuel does, and it leaves the channel
-- quiet: a request is in the transport's hands, or the dequeue would find nothing that may go.
pub schedule_write-IsQuiet :
    (e : Env) (c : Channel) → c.connected ≡ true → IsQuiet (schedule_write e c)
schedule_write-IsQuiet e c up =
    rw (schedule_write-connected e c up)
      (write_loop-IsQuiet (suc (length c.first_req)) e c up (omega arith))
