-- ===== src/Channel/Life/Sending.antt =====
-- src/grilio_channel.c, grilio_channel_schedule_write and all below it, and the lists.
use libgrilio.Base.{
  ℕ, zero, suc, ◌≡◌, refl, sym, ap, subst, inl, inr, Bool, true, false, not, Option, none, some,
  List, arith, ◌==◌, if◌then◌else◌, Bool-cases, length,
}
use libgrilio.Request.{Status, status_eq}
use libgrilio.Channel.State.{
  Channel, Env, Event, SendStatus, PacketType, modify, update, unref, emit,
}
use libgrilio.Channel.Send.{
  elem, pick, start_sending, track_pending, take_request, dequeue_request, request_sent, mark_sent,
  ptr_eq, payload,
}
use libgrilio.Channel.Log.{log}
use libgrilio.Channel.Write.{
  is_null, prepare, finish_send, submit, send_taken, send_next_request, write_loop, schedule_write,
}
use libgrilio.Channel.Frame.{schedule_write-frame, request_sent-frame}
use libgrilio.Channel.Life.Index.{
  Mark, Index, IsConsistent, mark, index, index-marks, modify-index, unref-index,
}
use libgrilio.Channel.Life.Filing.{kept-IsFiledIn}
use libgrilio.Channel.Life.Steps.{with_mark-IsConsistent}
use libgrilio.Channel.Life.Holding.{
  holding, Holds, Holds-index, Holds-own, Holds-if, status-IsLoose,
}
use libgrilio.Channel.Life.Taking.{pick-elem, Sending, take-Sending, prepare-Holds}

-- The transport may say of any request that it was sent.
sent_mark : Mark → Mark
sent_mark m = record m {
  status = if status_eq m.status Status.sending then Status.sent else m.status;
}

is_sending : (s : Status) → status_eq s Status.sending ≡ true → s ≡ Status.sending
is_sending Status.sending h = refl
is_sending Status.invalid h = cc
is_sending Status.new h = cc
is_sending Status.queued h = cc
is_sending Status.sent h = cc
is_sending Status.cancelled h = cc
is_sending Status.done h = cc
is_sending Status.retry h = cc

sent_mark-Holds :
    (w : List ℕ) (p : ℕ) (c : Channel) → Sending w p c → Holds w (modify p mark_sent c)
sent_mark-Holds w p c s =
    let k : Index = holding w (index c) in
    let m : Mark = mark (c.reqs p) in
    let after : (sent_mark m).status ≡ Status.sent = unfold sent_mark in rw (s.status) refl in
    subst (λ i. IsConsistent (holding w i))
      (sym (modify-index p mark_sent sent_mark c (λ r. unfold sent_mark in refl)))
      (with_mark-IsConsistent p sent_mark k
        (status-IsLoose w p c s.holds (rw (s.status) refl) (rw (s.status) refl))
        (λ i. cc (after, i))
        (kept-IsFiledIn k.marks p sent_mark k.table
          (λ j i. (unfold sent_mark in i.0, rw after refl)) s.holds.filed)
        s.holds)

mark_sent-Holds : (w : List ℕ) (p : ℕ) (c : Channel) → Holds w c → Holds w (modify p mark_sent c)
mark_sent-Holds w p c v = elim (Bool-cases (status_eq (c.reqs p).status Status.sending)) [
  | inl yet ↦
      sent_mark-Holds w p c (record { holds = v; status = is_sending (c.reqs p).status yet })
  | inr other ↦
      Holds-index w c (modify p mark_sent c)
        (unfold modify update in
          (index-marks (modify p mark_sent c) (index c).marks λ q. elim (Bool-cases (q == p)) [
            | inl same ↦
                let equal : p ≡ q = ground arith in
                rw same (
                  ap
                    (λ b. record (mark (c.reqs q)) {
                      status = if b then Status.sent else (c.reqs q).status;
                    })
                    (subst (λ r. status_eq (c.reqs r).status Status.sending ≡ false) equal other))
            | inr different ↦ rw different refl
          ]))
        v
]

request_sent-Holds : (w : List ℕ) (p : ℕ) (c : Channel) → Holds w c → Holds w (request_sent p c)
unfolding request_sent
request_sent-Holds w p c v =
    let d = modify p mark_sent c in
    let r = d.reqs p in
    let f = log PacketType.req r.current_id r.code (payload r.bytes) d in
    let done : Channel = record f { send_req = none } in
    let logged : index f ≡ index d = unfold log in refl in
    let s : Holds w f = Holds-index w d f logged (mark_sent-Holds w p c v) in
    Holds-if w (ptr_eq f.send_req (some p)) (unref (some p) done) f
      (Holds-index w f (unref (some p) done) (unref-index (some p) done) s) s

finish_send-Holds :
    (w : List ℕ) (s : SendStatus) (p : ℕ) (c : Channel) → Holds w c → Holds w (finish_send s p c).1
finish_send-Holds w SendStatus.ok p c v = request_sent-Holds w p c v
finish_send-Holds w SendStatus.error p c v = v
finish_send-Holds w SendStatus.pending p c v = v

-- What was taken off the queue is handed to the transport.
send_taken-Holds :
    (e : Env) (w : List ℕ) (o : Option ℕ) (c : Channel)
    → ((p : ℕ) → o ≡ some p → elem p c.first_req ≡ true)
    → Holds w c
    → Holds w (send_taken e (take_request e o c)).1
unfolding send_taken take_request submit
send_taken-Holds e w none c h v = v
send_taken-Holds e w (some p) c h v =
    let s = take-Sending e w p c (h p refl) v in
    let t = track_pending e p (start_sending e p c) in
    let d : Channel = record t { send_req = some p } in
    let f = prepare e p d in
    finish_send-Holds w (e.send p) p (emit (Event.submitted p (f.reqs p).code) f)
      (prepare-Holds e w p d (record { holds = s.holds; status = s.status }))

if-Holds :
    (w : List ℕ) (b : Bool) (s t : Bool × Channel)
    → Holds w s.1
    → Holds w t.1
    → Holds w (if b then s else t).1
if-Holds w true s t x y = x
if-Holds w false s t x y = y

send_next_request-Holds :
    (e : Env) (w : List ℕ) (c : Channel) → Holds w c → Holds w (send_next_request e c).1
unfolding send_next_request dequeue_request
send_next_request-Holds e w c v =
    let io = not (is_null c.block_req) in
    if-Holds w (not c.connected) (false, c) _ v
      (if-Holds w (not (is_null c.send_req)) (false, c) _ v
        (send_taken-Holds e w (pick c io) c (pick-elem c io) v))

write_loop-Holds :
    (fuel : ℕ) (e : Env) (w : List ℕ) (c : Channel) → Holds w c → Holds w (write_loop fuel e c)
unfolding write_loop
write_loop-Holds zero e w c v = v
write_loop-Holds (suc fuel) e w c v =
    let s = send_next_request e c in
    let one = send_next_request-Holds e w c v in
    Holds-if w s.0 (write_loop fuel e s.1) s.1 (write_loop-Holds fuel e w s.1 one) one

-- A write keeps the lists consistent, whatever part of the retry queue is in other hands.
pub schedule_write-Holds :
    (e : Env) (w : List ℕ) (c : Channel) → Holds w c → Holds w (schedule_write e c)
unfolding schedule_write
schedule_write-Holds e w c v =
    Holds-if w c.connected _ c (write_loop-Holds (suc (length c.first_req)) e w c v) v

pub schedule_write-IsConsistent :
    (e : Env) (c : Channel) → IsConsistent (index c) → IsConsistent (index (schedule_write e c))
schedule_write-IsConsistent e c v =
    Holds-own c.retry_req (schedule_write e c) (ap (λ f. f.retry_req) (schedule_write-frame e c))
      (schedule_write-Holds e c.retry_req c v)

pub request_sent-IsConsistent :
    (p : ℕ) (c : Channel) → IsConsistent (index c) → IsConsistent (index (request_sent p c))
request_sent-IsConsistent p c v =
    Holds-own c.retry_req (request_sent p c) (ap (λ f. f.retry_req) (request_sent-frame p c))
      (request_sent-Holds c.retry_req p c v)
