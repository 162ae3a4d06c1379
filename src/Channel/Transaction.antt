-- ===== src/Channel/Transaction.antt =====
-- src/grilio_channel.c: the transactions of request queues. The channel has one owner at a time, and
-- the other queues wait in `owner_queue`.
use libgrilio.Base.{ℕ, none, some, List, [], ◌∷◌, ◌++◌, ◌==◌, if◌then◌else◌}
use libgrilio.Channel.State.{Channel, Env, Event, emit}
use libgrilio.Channel.Send.{elem, unlink, ptr_eq}
use libgrilio.Channel.Write.{schedule_write}

-- enum grilio_transaction_state
pub data TransactionState : Type 0 where
  no_transaction queued started : TransactionState

-- A queue that already waits is not added again.
unfoldable pub add_waiter : ℕ → List ℕ → List ℕ
add_waiter q l = if elem q l then l else l ++ (q ∷ [])

-- `grilio_channel_transaction_start`
unfoldable pub transaction_start : ℕ → Channel → TransactionState × Channel
transaction_start q c = elim c.owner [
  | none ↦ (TransactionState.started, emit Event.signal_owner (record c { owner = some q }))
  | some o ↦
      if o == q
      then (TransactionState.started, c)
      else (TransactionState.queued, record c { owner_queue = add_waiter q c.owner_queue })
]

-- `grilio_channel_transaction_state`
unfoldable pub transaction_state : ℕ → Channel → TransactionState
transaction_state q c =
    if ptr_eq c.owner (some q)
    then TransactionState.started
    else if elem q c.owner_queue
    then TransactionState.queued
    else TransactionState.no_transaction

-- The next in line becomes the owner.
abbrev pub hand_over : List ℕ → Channel → Channel
hand_over [] c = record c { owner = none }
hand_over (q ∷ l) c = record c { owner = some q; owner_queue = l }

-- `grilio_channel_transaction_finish`; g_slist_remove takes the first entry of the queue out.
unfoldable pub transaction_finish : Env → ℕ → Channel → Channel
transaction_finish e q c =
    if ptr_eq c.owner (some q)
    then schedule_write e (emit Event.signal_owner (hand_over c.owner_queue c))
    else record c { owner_queue = unlink q c.owner_queue }
