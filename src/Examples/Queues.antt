-- ===== src/Examples/Queues.antt =====
-- src/grilio_queue.c: a queue with two requests, 1 and 2.
use libgrilio.Base.{
  ℕ, ◌≡◌, true, refl, Option, none, some, List, [], ◌∷◌, ◌++◌, ◌==◌, if◌then◌else◌, arith,
}
use libgrilio.Request.{Request, Status, request_new}
use libgrilio.Channel.State.{Channel, Env, SendStatus}
use libgrilio.Channel.Api.{init}
use libgrilio.Channel.Transaction.{TransactionState, transaction_state}
use libgrilio.Channel.Ownership.{IsLine, line}
use libgrilio.Queue.{queue_cancel_all, queue_free}
use libgrilio.Queue.Freed.{queue_free-line}
use libgrilio.Queue.Emptied.{queue_cancel_all-queues}
use libgrilio.Channel.Send.{elem, unlink}
use libgrilio.Queue.Links.{Links, add, remove}
use libgrilio.Queue.Chain.{IsQueue, add-IsQueue}
use libgrilio.Queue.Removal.{remove-IsQueue}

abbrev next_of : ℕ → Option ℕ
next_of p = if p == 1 then some 2 else none

abbrev pointers : Links
pointers = record { first_req = some 1; last_req = some 2; qnext = next_of }

abbrev queued : List ℕ
queued = 1 ∷ 2 ∷ []

pointers-IsQueue : IsQueue pointers queued
unfolding elem
pointers-IsQueue = record { chained = (refl, (refl, refl)); ended = refl; once = refl }

add-IsQueue_example : IsQueue (add 3 pointers) (queued ++ (3 ∷ []))
unfolding elem
add-IsQueue_example = add-IsQueue 3 pointers queued pointers-IsQueue refl refl

remove-IsQueue_example : IsQueue (remove 2 2 pointers) (unlink 2 queued)
unfolding elem
remove-IsQueue_example = remove-IsQueue 2 2 pointers queued pointers-IsQueue (omega arith) refl

-- A channel whose queue 7 has the requests 1 and 2, which wait to be sent.
abbrev one_queue : ℕ → List ℕ
one_queue q = if q == 7 then queued else []

abbrev held : ℕ → Request
held p = record request_new { status = Status.queued; id = p; current_id = p; queue = some 7 }

abbrev busy : Channel
busy = record (init held one_queue) {
  req_table = (1, 1) ∷ (2, 2) ∷ [];
  last_req_id = 2;
  first_req = queued;
}

abbrev offline : Env
offline = record { now = 5000; send = λ p. SendStatus.ok }

queue_cancel_all-queues_example : (queue_cancel_all offline 7 true busy).queues 7 ≡ []
queue_cancel_all-queues_example = queue_cancel_all-queues offline 7 true busy

-- Queue 7 owns the channel when it is freed, and 8 waits.
abbrev owned : Channel
owned = record busy { owner = some 7; owner_queue = 8 ∷ [] }

owned-IsLine : IsLine owned
unfolding init elem
owned-IsLine = record { owned = tt; once = refl }

queue_free-line_example :
    (line (queue_free offline 7 owned) ≡ unlink 7 (line owned))
    × (transaction_state 7 (queue_free offline 7 owned) ≡ TransactionState.no_transaction)
    × IsLine (queue_free offline 7 owned)
queue_free-line_example = queue_free-line offline 7 owned owned-IsLine
