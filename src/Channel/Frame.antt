-- ===== src/Channel/Frame.antt =====
-- What sending leaves alone: src/grilio_channel.c, grilio_channel_schedule_write and all below it.
use libgrilio.Base.{
  ℕ, zero, suc, ◌≡◌, refl, ◌∙◌, length, Bool, true, false, not, Option, none, some, List,
  if◌then◌else◌,
}
use libgrilio.Base.Int.{ℤ}
use libgrilio.Channel.State.{Channel, Env, Logger, Event, SendStatus, emit}
use libgrilio.Channel.Send.{
  pick, start_sending, track_pending, take_request, dequeue_request, request_sent,
}
use libgrilio.Channel.Write.{
  is_null, set_block, leave_queue, request_timeout, set_deadline, prepare, finish_send, submit,
  send_taken, send_next_request, write_loop, schedule_write,
}

-- The fields that no write changes.
pub record Frame : Type 0 where
  pub connected : Bool
  pub last_req_id : ℕ
  pub req_table : List (ℕ × ℕ)
  pub pending_timeout : ℕ
  pub log_list : List Logger
  pub block_ids : List (ℕ × ℕ)
  pub owner : Option ℕ
  pub owner_queue : List ℕ
  pub timeout : ℤ
  pub retry_req : List ℕ
  pub injects : List (ℕ × List ℕ)
  pub processing_injects : Bool

abbrev pub frame : Channel → Frame
frame c = record {
  connected = c.connected;
  last_req_id = c.last_req_id;
  req_table = c.req_table;
  pending_timeout = c.pending_timeout;
  log_list = c.log_list;
  block_ids = c.block_ids;
  owner = c.owner;
  owner_queue = c.owner_queue;
  timeout = c.timeout;
  retry_req = c.retry_req;
  injects = c.injects;
  processing_injects = c.processing_injects;
}

-- The conditional of two states with one frame has it too.
frame-if :
    (b : Bool) (c d f : Channel)
    → frame c ≡ frame f
    → frame d ≡ frame f
    → frame (if b then c else d) ≡ frame f
frame-if true c d f p q = p
frame-if false c d f p q = q

frame-if_pair :
    (b : Bool) (s t : Bool × Channel) (f : Channel)
    → frame s.1 ≡ frame f
    → frame t.1 ≡ frame f
    → frame (if b then s else t).1 ≡ frame f
frame-if_pair true s t f p q = p
frame-if_pair false s t f p q = q

track_pending-frame : (e : Env) (p : ℕ) (c : Channel) → frame (track_pending e p c) ≡ frame c
unfolding track_pending
track_pending-frame e p c = frame-if _ c _ c refl refl

take_request-frame : (e : Env) (o : Option ℕ) (c : Channel) → frame (take_request e o c).1 ≡ frame c
unfolding take_request start_sending
take_request-frame e none c = refl
take_request-frame e (some p) c = track_pending-frame e p (start_sending e p c)

dequeue_request-frame :
    (e : Env) (io : Bool) (c : Channel) → frame (dequeue_request e io c).1 ≡ frame c
unfolding dequeue_request
dequeue_request-frame e io c = take_request-frame e (pick c io) c

pub request_sent-frame : (p : ℕ) (c : Channel) → frame (request_sent p c) ≡ frame c
unfolding request_sent
request_sent-frame p c = frame-if _ _ _ c refl refl

set_block-frame : (p : ℕ) (c : Channel) → frame (set_block p c) ≡ frame c
unfolding set_block
set_block-frame p c = frame-if _ _ _ c refl refl

leave_queue-frame : (p : ℕ) (c : Channel) → frame (leave_queue p c) ≡ frame c
unfolding leave_queue
leave_queue-frame p c = frame-if _ _ _ c refl refl

set_deadline-frame :
    (e : Env) (p : ℕ) (ms : ℤ) (c : Channel) → frame (set_deadline e p ms c) ≡ frame c
unfolding set_deadline
set_deadline-frame e p ms c = frame-if _ _ _ c (frame-if _ _ _ c refl refl) refl

prepare-frame : (e : Env) (p : ℕ) (c : Channel) → frame (prepare e p c) ≡ frame c
unfolding prepare
prepare-frame e p c =
    let d = leave_queue p (set_block p c) in
    set_deadline-frame e p (request_timeout d (d.reqs p)) d
    ∙ leave_queue-frame p (set_block p c)
    ∙ set_block-frame p c

finish_send-frame : (s : SendStatus) (p : ℕ) (c : Channel) → frame (finish_send s p c).1 ≡ frame c
finish_send-frame SendStatus.ok p c = request_sent-frame p c
finish_send-frame SendStatus.error p c = refl
finish_send-frame SendStatus.pending p c = refl

submit-frame : (e : Env) (p : ℕ) (c : Channel) → frame (submit e p c).1 ≡ frame c
unfolding submit
submit-frame e p c = finish_send-frame (e.send p) p (emit (Event.submitted p (c.reqs p).code) c)

send_taken-frame : (e : Env) (t : Option ℕ × Channel) → frame (send_taken e t).1 ≡ frame t.1
unfolding send_taken
send_taken-frame e (none, c) = refl
send_taken-frame e (some p, c) =
    let d : Channel = record c { send_req = some p } in
    submit-frame e p (prepare e p d) ∙ prepare-frame e p d

pub send_next_request-frame : (e : Env) (c : Channel) → frame (send_next_request e c).1 ≡ frame c
unfolding send_next_request
send_next_request-frame e c =
    let t = dequeue_request e (not (is_null c.block_req)) c in
    frame-if_pair (not c.connected) (false, c) _ c refl
      (frame-if_pair (not (is_null c.send_req)) (false, c) (send_taken e t) c refl
        (send_taken-frame e t ∙ dequeue_request-frame e _ c))

write_loop-frame : (fuel : ℕ) (e : Env) (c : Channel) → frame (write_loop fuel e c) ≡ frame c
unfolding write_loop
write_loop-frame zero e c = refl
write_loop-frame (suc fuel) e c =
    frame-if (send_next_request e c).0 _ _ c
      (write_loop-frame fuel e (send_next_request e c).1 ∙ send_next_request-frame e c)
      (send_next_request-frame e c)

-- A write changes neither the tables of ids, the retry queue, the owner nor the settings.
pub schedule_write-frame : (e : Env) (c : Channel) → frame (schedule_write e c) ≡ frame c
unfolding schedule_write
schedule_write-frame e c =
    frame-if c.connected (write_loop (suc (length c.first_req)) e c) c c
      (write_loop-frame (suc (length c.first_req)) e c) refl
