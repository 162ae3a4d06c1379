-- ===== src/Queue/Shrinking.antt =====
-- src/grilio_channel.c and src/grilio_queue.c: a write takes requests off their queues and puts none
-- there.
use libgrilio.Base.{
  ℕ, zero, suc, ◌≤◌, ◌≡◌, refl, ap, Bool, true, false, not, Option, none, some, List, [], ◌∷◌,
  arith, if◌then◌else◌, length,
}
use libgrilio.Base.Int.{ℤ}
use libgrilio.Channel.State.{Channel, Env, Event, SendStatus, emit}
use libgrilio.Channel.Send.{
  unlink, unlink_from, queue_remove, pick, start_sending, track_pending, take_request,
  dequeue_request, request_sent,
}
use libgrilio.Channel.Write.{
  is_null, is_forgotten, set_block, leave_queue, request_timeout, set_deadline, prepare,
  finish_send, submit, send_taken, send_next_request, write_loop, schedule_write,
}

-- No queue is longer afterwards.
abbrev pub Shrinks : Channel → Channel → Type 0
Shrinks c d = (q : ℕ) → length (d.queues q) ≤ length (c.queues q)

pub Shrinks-same : (c d : Channel) → d.queues ≡ c.queues → Shrinks c d
Shrinks-same c d e q = let same = ap (λ f. length (f q)) e in omega (arith, same)

pub Shrinks-trans : (c d f : Channel) → Shrinks c d → Shrinks d f → Shrinks c f
Shrinks-trans c d f x y q = let i = x q in let j = y q in omega (arith, i, j)

pub Shrinks-if :
    (b : Bool) (c d f : Channel) → Shrinks f c → Shrinks f d → Shrinks f (if b then c else d)
Shrinks-if true c d f p q = p
Shrinks-if false c d f p q = q

Shrinks-if_pair :
    (b : Bool) (s t : Bool × Channel) (f : Channel)
    → Shrinks f s.1
    → Shrinks f t.1
    → Shrinks f (if b then s else t).1
Shrinks-if_pair true s t f p q = p
Shrinks-if_pair false s t f p q = q

queues-if :
    (b : Bool) (c d f : Channel)
    → c.queues ≡ f.queues
    → d.queues ≡ f.queues
    → (if b then c else d).queues ≡ f.queues
queues-if true c d f p q = p
queues-if false c d f p q = q

length-unlink : (p : ℕ) (l : List ℕ) → length (unlink p l) ≤ length l
unfolding unlink
length-unlink p [] = omega arith
length-unlink p (x ∷ l) = ground (arith, length-unlink p l)

length-unlink_from :
    (p : ℕ) (o : Option ℕ) (queues : ℕ → List ℕ) (q : ℕ)
    → length (unlink_from p o queues q) ≤ length (queues q)
length-unlink_from p none queues q = omega arith
length-unlink_from p (some k) queues q = ground (arith, length-unlink p (queues q))

pub queue_remove-Shrinks : (p : ℕ) (c : Channel) → Shrinks c (queue_remove p c)
unfolding queue_remove
queue_remove-Shrinks p c = length-unlink_from p (c.reqs p).queue c.queues

track_pending-queues : (e : Env) (p : ℕ) (c : Channel) → (track_pending e p c).queues ≡ c.queues
unfolding track_pending
track_pending-queues e p c = queues-if _ _ _ c refl refl

take_request-Shrinks : (e : Env) (o : Option ℕ) (c : Channel) → Shrinks c (take_request e o c).1
unfolding take_request start_sending
take_request-Shrinks e none c = λ q. omega arith
take_request-Shrinks e (some p) c =
    let d = start_sending e p c in Shrinks-same c (track_pending e p d) (track_pending-queues e p d)

dequeue_request-Shrinks : (e : Env) (io : Bool) (c : Channel) → Shrinks c (dequeue_request e io c).1
unfolding dequeue_request
dequeue_request-Shrinks e io c = take_request-Shrinks e (pick c io) c

request_sent-queues : (p : ℕ) (c : Channel) → (request_sent p c).queues ≡ c.queues
unfolding request_sent
request_sent-queues p c = queues-if _ _ _ c refl refl

set_block-queues : (p : ℕ) (c : Channel) → (set_block p c).queues ≡ c.queues
unfolding set_block
set_block-queues p c = queues-if _ _ _ c refl refl

leave_queue-Shrinks : (p : ℕ) (c : Channel) → Shrinks c (leave_queue p c)
unfolding leave_queue
leave_queue-Shrinks p c =
    Shrinks-if (is_forgotten (c.reqs p)) (queue_remove p c) c c (queue_remove-Shrinks p c)
      (λ q. omega arith)

set_deadline-queues :
    (e : Env) (p : ℕ) (ms : ℤ) (c : Channel) → (set_deadline e p ms c).queues ≡ c.queues
unfolding set_deadline
set_deadline-queues e p ms c = ground arith

prepare-Shrinks : (e : Env) (p : ℕ) (c : Channel) → Shrinks c (prepare e p c)
unfolding prepare
prepare-Shrinks e p c =
    let b = set_block p c in
    let d = leave_queue p b in
    Shrinks-trans c b (prepare e p c) (Shrinks-same c b (set_block-queues p c)) (
      Shrinks-trans b d (prepare e p c) (leave_queue-Shrinks p b)
        (Shrinks-same d (prepare e p c) (set_deadline-queues e p (request_timeout d (d.reqs p)) d)))

finish_send-Shrinks : (s : SendStatus) (p : ℕ) (c : Channel) → Shrinks c (finish_send s p c).1
finish_send-Shrinks SendStatus.ok p c = Shrinks-same c (request_sent p c) (request_sent-queues p c)
finish_send-Shrinks SendStatus.error p c = λ q. omega arith
finish_send-Shrinks SendStatus.pending p c = λ q. omega arith

submit-Shrinks : (e : Env) (p : ℕ) (c : Channel) → Shrinks c (submit e p c).1
unfolding submit
submit-Shrinks e p c = finish_send-Shrinks (e.send p) p (emit (Event.submitted p (c.reqs p).code) c)

send_taken-Shrinks : (e : Env) (t : Option ℕ × Channel) → Shrinks t.1 (send_taken e t).1
unfolding send_taken
send_taken-Shrinks e (none, c) = λ q. omega arith
send_taken-Shrinks e (some p, c) =
    let d : Channel = record c { send_req = some p } in
    let f = prepare e p d in
    Shrinks-trans d f (submit e p f).1 (prepare-Shrinks e p d) (submit-Shrinks e p f)

send_next_request-Shrinks : (e : Env) (c : Channel) → Shrinks c (send_next_request e c).1
unfolding send_next_request
send_next_request-Shrinks e c =
    let t = dequeue_request e (not (is_null c.block_req)) c in
    let stays : Shrinks c c = λ q. omega arith in
    Shrinks-if_pair (not c.connected) (false, c) _ c stays
      (Shrinks-if_pair (not (is_null c.send_req)) (false, c) (send_taken e t) c stays
        (Shrinks-trans c t.1 (send_taken e t).1
          (dequeue_request-Shrinks e (not (is_null c.block_req)) c) (send_taken-Shrinks e t)))

write_loop-Shrinks : (fuel : ℕ) (e : Env) (c : Channel) → Shrinks c (write_loop fuel e c)
unfolding write_loop
write_loop-Shrinks zero e c = λ q. omega arith
write_loop-Shrinks (suc fuel) e c =
    let d = (send_next_request e c).1 in
    let once = send_next_request-Shrinks e c in
    Shrinks-if (send_next_request e c).0 (write_loop fuel e d) d c
      (Shrinks-trans c d (write_loop fuel e d) once (write_loop-Shrinks fuel e d)) once

pub schedule_write-Shrinks : (e : Env) (c : Channel) → Shrinks c (schedule_write e c)
unfolding schedule_write
schedule_write-Shrinks e c =
    Shrinks-if c.connected (write_loop (suc (length c.first_req)) e c) c c
      (write_loop-Shrinks (suc (length c.first_req)) e c) (λ q. omega arith)
