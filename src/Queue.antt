-- ===== src/Queue.antt =====
-- src/grilio_queue.c: request queues. The chain of a queue is a list in the channel's store (Links has
-- the pointers), and its channel is the one that is passed in. References on a queue are counted by
-- number. Calls with a NULL queue are left out, but for those on transactions. grilio_queue_remove is in
-- Channel.Send.
pub mod Links
pub mod Chain
pub mod Removal
pub mod Shrinking
pub mod Emptied
pub mod Freed
use libgrilio.Base.{
  ℕ, zero, suc, ◌+◌, ◌-◌, Bool, false, Option, none, some, List, [], ◌∷◌, ◌++◌, ◌==◌, if◌then◌else◌,
  length,
}
use libgrilio.Request.{Request, Status, status_eq, request_new}
use libgrilio.Channel.State.{Channel, Env, modify, unref}
use libgrilio.Channel.Send.{ptr_eq}
use libgrilio.Channel.Transaction.{
  TransactionState, transaction_start, transaction_state, transaction_finish,
}
use libgrilio.Channel.Api.{send_request_full, get_request, cancel_request}

-- A write to the chain of a queue.
abbrev pub set_chain : ℕ → List ℕ → (ℕ → List ℕ) → ℕ → List ℕ
set_chain q l queues k = if k == q then l else queues k

-- `grilio_queue_add`
unfoldable pub queue_add : ℕ → ℕ → Channel → Channel
unfolding modify
queue_add q p c =
    modify p (λ r. record r { queue = some q })
      (record c { queues = set_chain q (c.queues q ++ (p ∷ [])) c.queues })

-- `grilio_queue_send_request_full`, of a request or of NULL, for which `fresh` is allocated.
unfoldable pub queue_send_request_full :
    Env → ℕ → Option ℕ → ℕ → ℕ → Option ℕ → Option ℕ → ℕ → Channel → ℕ × Channel
queue_send_request_full e q (some p) fresh code response destroy user_data c =
    if status_eq (c.reqs p).status Status.new
    then send_request_full e (some p) fresh code response destroy user_data (queue_add q p c)
    else (0, c)
queue_send_request_full e q none fresh code response destroy user_data c =
    let added = queue_add q fresh (modify fresh (λ _. request_new) c) in
    let (id, d) = send_request_full e (some fresh) fresh code response destroy user_data added in
    (id, unref (some fresh) d)

-- `grilio_queue_send_request`
unfoldable pub queue_send_request : Env → ℕ → Option ℕ → ℕ → ℕ → Channel → ℕ × Channel
queue_send_request e q req fresh code c = queue_send_request_full e q req fresh code none none 0 c

-- if (req && req->queue == self)
abbrev pub cancel_own : Env → ℕ → ℕ → Bool → Option ℕ → Channel → Bool × Channel
cancel_own e q id notify none c = (false, c)
cancel_own e q id notify (some p) c =
    if ptr_eq (c.reqs p).queue (some q) then cancel_request e id notify c else (false, c)

-- `grilio_queue_cancel_request`
unfoldable pub queue_cancel_request : Env → ℕ → ℕ → Bool → Channel → Bool × Channel
queue_cancel_request e q id notify c =
    if id == 0 then (false, c) else cancel_own e q id notify (get_request id c) c

-- A round of `grilio_queue_cancel_all`: the first request is taken off the chain and cancelled.
unfoldable pub cancel_head : Env → ℕ → Bool → ℕ → List ℕ → Channel → Channel
unfolding modify
cancel_head e q notify p rest c =
    let d =
      modify p (λ r. record r { queue = none }) (record c { queues = set_chain q rest c.queues }) in
    (cancel_request e (d.reqs p).id notify d).1

-- The chain is read again in each round, since a cancellation may send what comes next.
abbrev pub cancel_round : (Channel → Channel) → Env → ℕ → Bool → List ℕ → Channel → Channel
cancel_round again e q notify [] c = c
cancel_round again e q notify (p ∷ rest) c = again (cancel_head e q notify p rest c)

unfoldable pub cancel_loop : ℕ → Env → ℕ → Bool → Channel → Channel
cancel_loop zero e q notify c = c
cancel_loop (suc fuel) e q notify c =
    cancel_round (λ d. cancel_loop fuel e q notify d) e q notify (c.queues q) c

-- `grilio_queue_cancel_all`
unfoldable pub queue_cancel_all : Env → ℕ → Bool → Channel → Channel
queue_cancel_all e q notify c = cancel_loop (length (c.queues q)) e q notify c

-- The requests of a queue that goes away belong to no queue.
unfoldable pub disown : List ℕ → Channel → Channel
disown [] c = c
disown (p ∷ l) c = disown l (modify p (λ r. record r { queue = none }) c)

-- `grilio_queue_free`
unfoldable pub queue_free : Env → ℕ → Channel → Channel
queue_free e q c =
    let d = disown (c.queues q) c in
    transaction_finish e q (record d { queues = set_chain q [] d.queues })

-- The references on the queues, with the channel that they belong to.
pub record Refs : Type 0 where
  pub refcount : ℕ → ℕ
  pub channel : Channel

abbrev count_at : ℕ → ℕ → (ℕ → ℕ) → ℕ → ℕ
count_at q n refs k = if k == q then n else refs k

-- `grilio_queue_new`, at a number that no queue has.
unfoldable pub queue_new : ℕ → Refs → Refs
queue_new q s = record {
  refcount = count_at q 1 s.refcount;
  channel = record s.channel { queues = set_chain q [] s.channel.queues };
}

-- `grilio_queue_ref`
unfoldable pub queue_ref : ℕ → Refs → Refs
queue_ref q s = record s { refcount = count_at q (s.refcount q + 1) s.refcount }

-- `grilio_queue_unref`
unfoldable pub queue_unref : Env → ℕ → Refs → Refs
queue_unref e q s = record {
  refcount = count_at q (s.refcount q - 1) s.refcount;
  channel = if s.refcount q == 1 then queue_free e q s.channel else s.channel;
}

-- `grilio_queue_transaction_start`, of a queue or of NULL.
unfoldable pub queue_transaction_start : Option ℕ → Channel → TransactionState × Channel
queue_transaction_start none c = (TransactionState.no_transaction, c)
queue_transaction_start (some q) c = transaction_start q c

-- `grilio_queue_transaction_state`
unfoldable pub queue_transaction_state : Option ℕ → Channel → TransactionState
queue_transaction_state none c = TransactionState.no_transaction
queue_transaction_state (some q) c = transaction_state q c

-- `grilio_queue_transaction_finish`
unfoldable pub queue_transaction_finish : Env → Option ℕ → Channel → Channel
queue_transaction_finish e none c = c
queue_transaction_finish e (some q) c = transaction_finish e q c
