-- ===== src/Examples/Scheduling.antt =====
-- src/grilio_channel.c: a connected channel on which a blocking request waits behind a plain one, and
-- one on which a transaction is under way.
use libgrilio.Base.{
  ℕ, ◌*◌, ◌^◌, ◌<◌, ◌≡◌, ◌≢◌, refl, inr, true, false, some, List, [], ◌∷◌, ◌==◌, if◌then◌else◌,
  arith,
}
use libgrilio.Base.Table.{contains, lookup}
use libgrilio.Request.{Request, request_new, sized_new, Status}
use libgrilio.Channel.State.{Channel, Env, SendStatus}
use libgrilio.Channel.Api.{init}
use libgrilio.Channel.Send.{pick, pick_head, pick_regular, unlink, elem}
use libgrilio.Channel.Write.{schedule_write}
use libgrilio.Channel.Transaction.{
  TransactionState, add_waiter, transaction_start, transaction_state, transaction_finish,
}
use libgrilio.Channel.Ids.{generate_id, generate_id_free}
use libgrilio.Channel.Frame.{frame, schedule_write-frame}
use libgrilio.Channel.Ownership.{
  IsLine, line, place, transaction_start-line, transaction_finish-line,
}
use libgrilio.Channel.Policy.{IsAllowed, IsNext, pick_sound}
use libgrilio.Channel.Response.{ResponseType, handle_response}
use libgrilio.Channel.Delivery.{IsGone, handle_response-contains}
use libgrilio.Channel.Retry.{due_retries}
use libgrilio.Channel.Order.{Parts, due_retries-Parts}
use libgrilio.Channel.Timers.{reset_timeout}
use libgrilio.Channel.Deadlines.{IsArmed, SeesAll, armed_for, reset_timeout-SeesAll}
use libgrilio.Channel.Drain.{IsQuiet, schedule_write-IsQuiet}

abbrev always : Env
always = record { now = 5000; send = λ p. SendStatus.ok }

abbrev two_requests : ℕ → Request
two_requests p =
    let r : Request = record request_new { status = Status.queued; id = p; current_id = p } in
    if p == 2 then record r { blocking = true } else r

abbrev no_queues : ℕ → List ℕ
no_queues q = []

abbrev waiting : Channel
waiting = record (init two_requests no_queues) {
  connected = true;
  req_table = (1, 1) ∷ (2, 2) ∷ [];
  last_req_id = 2;
  first_req = 1 ∷ 2 ∷ [];
}

pick_sound_example : IsAllowed waiting false 1 × IsNext waiting 1
unfolding pick pick_head pick_regular init sized_new
pick_sound_example = pick_sound waiting false 1 refl

waiting_up : waiting.connected ≡ true
unfolding init
waiting_up = refl

schedule_write-IsQuiet_example : IsQuiet (schedule_write always waiting)
schedule_write-IsQuiet_example = schedule_write-IsQuiet always waiting waiting_up

schedule_write-frame_example : frame (schedule_write always waiting) ≡ frame waiting
schedule_write-frame_example = schedule_write-frame always waiting

-- Queue 7 owns the channel, 8 and 9 wait.
abbrev in_transaction : Channel
in_transaction = record (init two_requests no_queues) { owner = some 7; owner_queue = 8 ∷ 9 ∷ [] }

in_transaction-IsLine : IsLine in_transaction
unfolding init elem
in_transaction-IsLine = record { owned = tt; once = refl }

transaction_start-line_example :
    (line (transaction_start 5 in_transaction).1 ≡ add_waiter 5 (line in_transaction))
    × ((transaction_start 5 in_transaction).0
        ≡ place 5 (line (transaction_start 5 in_transaction).1))
    × IsLine (transaction_start 5 in_transaction).1
transaction_start-line_example = transaction_start-line 5 in_transaction in_transaction-IsLine

transaction_finish-line_example :
    (line (transaction_finish always 7 in_transaction) ≡ unlink 7 (line in_transaction))
    × (transaction_state 7 (transaction_finish always 7 in_transaction)
        ≡ TransactionState.no_transaction)
    × IsLine (transaction_finish always 7 in_transaction)
transaction_finish-line_example =
    transaction_finish-line always 7 in_transaction in_transaction-IsLine

-- The counter stands at the last id and the first one is in use.
abbrev in_use : List (ℕ × ℕ)
in_use = (1, 1) ∷ (2, 2) ∷ []

generate_id_free_example :
    (generate_id in_use 4294967295 ≢ 0)
    × (contains (generate_id in_use 4294967295) in_use ≡ false)
    × (generate_id in_use 4294967295 < 2 ^ 32)
generate_id_free_example = generate_id_free in_use 4294967295 (omega arith)

-- Request 1 was sent first and then again, as 3; the answer to the second try comes.
abbrev retried : ℕ → Request
retried p = record request_new { status = Status.sent; id = 1; current_id = 3; refcount = 3 }

abbrev answered : Channel
answered = record waiting {
  reqs = retried;
  req_table = (3, 1) ∷ (1, 1) ∷ [];
  pending = (3, 1) ∷ [];
  first_req = [];
}

handle_response-contains_example :
    IsGone 3 1 (handle_response always ResponseType.solicited_ack_exp 3 0 [] 9 answered)
unfolding sized_new lookup
handle_response-contains_example =
    handle_response-contains always ResponseType.solicited_ack_exp 3 0 [] 9 1 answered
      (ground arith) (omega arith) refl refl refl

-- Two requests wait for a retry, at 20000 and 40000; request 3 is put between them.
abbrev resting : ℕ → Request
resting p = record request_new { id = p; current_id = p; deadline = p * 10000; retry_period = 25 }

abbrev later : Channel
later = record waiting {
  reqs = resting;
  req_table = (3, 3) ∷ [];
  retry_req = 2 ∷ 4 ∷ [];
  first_req = [];
  next_deadline = 25000;
  timeout_id = some 25400;
}

due_retries-Parts_example :
    Parts resting 30000 (2 ∷ 4 ∷ []) (due_retries resting 30000 (2 ∷ 4 ∷ []))
unfolding sized_new
due_retries-Parts_example = due_retries-Parts resting 30000 (2 ∷ 4 ∷ []) (ground arith)

later-IsArmed : IsArmed 5000 later
later-IsArmed = inr (25400, refl, ground arith)

reset_timeout-SeesAll_example :
    IsArmed 5000 (reset_timeout always later)
    × SeesAll later (
        armed_for
          (reset_timeout always later).timeout_id
          (reset_timeout always later).next_deadline)
unfolding sized_new init
reset_timeout-SeesAll_example =
    reset_timeout-SeesAll always later later-IsArmed (ground arith) (ground arith)
