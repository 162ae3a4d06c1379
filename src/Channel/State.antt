-- ===== src/Channel/State.antt =====
-- The state of a channel, src/grilio_channel.c struct grilio_channel_priv, with the requests and the
-- request queues that it shares with its callers.
--
-- A GRilIoRequest* is a number, and `reqs` is the store that it points into; so the tables, the two
-- request lists, `send_req` and `block_req` alias one request as they do in C. `first_req` and
-- `retry_req` are the chains that start there, in order; `last_req` is the end of the first chain.
-- A GRilIoQueue* is a number too, and `queues` gives its chain. A timer is the time at which the main
-- loop may call it. What a channel does to the outside is recorded in `out`, newest first.
use libgrilio.Base.{ℕ, ◌+◌, ◌-◌, Bool, Option, none, some, List, ◌∷◌, ◌==◌, if◌then◌else◌}
use libgrilio.Base.Int.{ℤ}
use libgrilio.Request.{Request}

-- enum grilio_packet_type
pub data PacketType : Type 0 where
  req resp unsol ack resp_ack_exp unsol_ack_exp : PacketType

-- enum grilio_send_status
pub data SendStatus : Type 0 where
  ok error pending : SendStatus

pub record Logger : Type 0 where
  pub id : ℕ
  pub log : ℕ
  pub user_data : ℕ
  pub legacy : Bool

-- What the outside sees: signals, callbacks, what is handed to the transport.
pub data Event : Type 0 where
  signal_connected signal_error signal_eof signal_owner signal_pending : Event
  signal_unsol : ℕ → List ℕ → Event
  -- request, callback, status, data
  responded : ℕ → ℕ → ℤ → List ℕ → Event
  -- callback and user data of a request's `destroy`
  destroyed : ℕ → ℕ → Event
  -- a request that was freed
  freed : ℕ → Event
  -- logger, type, id, code, data
  logged : ℕ → PacketType → ℕ → ℕ → List ℕ → Event
  -- a call of the transport's `send`: request, code
  submitted : ℕ → ℕ → Event
  transport_shutdown : Event

pub record Channel : Type 0 where
  pub connected : Bool
  pub ril_version : ℕ
  pub reqs : ℕ → Request
  pub queues : ℕ → List ℕ
  pub send_req : Option ℕ
  pub last_req_id : ℕ
  pub last_logger_id : ℕ
  pub req_table : List (ℕ × ℕ)
  pub pending : List (ℕ × ℕ)
  pub last_pending : Bool
  pub pending_timeout : ℕ
  pub pending_timeout_id : Option ℕ
  pub next_pending_deadline : ℕ
  pub log_list : List Logger
  pub last_block_id : ℕ
  pub block_ids : List (ℕ × ℕ)
  pub block_req : Option ℕ
  pub owner : Option ℕ
  pub owner_queue : List ℕ
  pub timeout : ℤ
  pub timeout_id : Option ℕ
  pub next_deadline : ℕ
  pub retry_req : List ℕ
  pub first_req : List ℕ
  pub processing_injects : Bool
  pub process_injects_id : Bool
  pub injects : List (ℕ × List ℕ)
  pub out : List Event

-- What a handler takes from outside: the monotonic clock, in microseconds, one reading for the whole
-- handler, and what the transport answers when it is handed a request.
pub record Env : Type 0 where
  pub now : ℕ
  pub send : ℕ → SendStatus

-- A write to a request.
unfoldable pub update : ℕ → (Request → Request) → (ℕ → Request) → ℕ → Request
update p f reqs q = if q == p then f (reqs q) else reqs q

unfoldable pub modify : ℕ → (Request → Request) → Channel → Channel
unfolding update
modify p f c = record c { reqs = update p f c.reqs }

abbrev pub emit : Event → Channel → Channel
emit e c = record c { out = e ∷ c.out }

-- `grilio_request_ref`
unfoldable pub ref : ℕ → Channel → Channel
unfolding modify
ref p c = modify p (λ r. record r { refcount = r.refcount + 1 }) c

abbrev drop_ref : Option ℕ → (ℕ → Request) → ℕ → Request
drop_ref none reqs q = reqs q
drop_ref (some p) reqs q =
    if q == p then (let r = reqs q in record r { refcount = r.refcount - 1 }) else reqs q

-- `grilio_request_free` calls the destroy callback.
abbrev release : ℕ → Request → List Event → List Event
release p r out =
    if r.refcount == 1
    then elim r.destroy [
      | none ↦ Event.freed p ∷ out
      | some d ↦ Event.freed p ∷ Event.destroyed d r.user_data ∷ out
    ]
    else out

abbrev drop_events : Option ℕ → (ℕ → Request) → List Event → List Event
drop_events none reqs out = out
drop_events (some p) reqs out = release p (reqs p) out

-- `grilio_request_unref`, which takes NULL too.
unfoldable pub unref : Option ℕ → Channel → Channel
unref o c = record c { reqs = drop_ref o c.reqs; out = drop_events o c.reqs c.out }
